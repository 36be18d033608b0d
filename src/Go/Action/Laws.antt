-- ===== src/Go/Action/Laws.antt =====
-- Inversion of an action that returned a value: its parts returned values.
use storemesh_user_service.Base.{◌≡◌, ◌⊎◌, inl, inr, refl, Bool, true, false, if◌then◌else◌}
use storemesh_user_service.Go.Errors.{Error}
use storemesh_user_service.Go.Action.{Result, ok, err, Action, map_result, then_result, ◌>>=◌}

-- The run of `m` from `s` returned `a` in the state `s'`.
abbrev pub Returns : {S A : Type 0} → Action S A → S → A → S → Type 0
Returns m s a s' = m s ≡ (ok a, s')

module _ {S : Type 0} where
  pub then_result_ok :
      {A B : Type 0} (r : Result A) (f : A → Action S B) (s : S) (b : B) (s' : S)
      → then_result r f s ≡ (ok b, s')
      → (a : A) × (r ≡ ok a) × (f a s ≡ (ok b, s'))
  then_result_ok (ok a) f s b s' h = (a, refl, h)
  then_result_ok (err e) f s b s' h = cc

  pub bind_ok :
      {A B : Type 0} (m : Action S A) (f : A → Action S B) (s : S) (b : B) (s' : S)
      → Returns (m >>= f) s b s'
      → (a : A) × ((m s).0 ≡ ok a) × (f a (m s).1 ≡ (ok b, s'))
  bind_ok m f s b s' h = then_result_ok (m s).0 f (m s).1 b s' h

pub map_result_ok :
    {A : Type 0} (f : Error → Error) (r : Result A) (a : A) → map_result f r ≡ ok a → r ≡ ok a
map_result_ok f (ok b) a h = h
map_result_ok f (err e) a h = cc

-- A guard that let the run go on did not hold.
pub raise_if_ok :
    (b : Bool) (e : Error) (a : Unit {0})
    → ◌≡◌ {A = Result (Unit {0})} (if b then err e else ok tt) (ok a)
    → b ≡ false
raise_if_ok true e a h = cc
raise_if_ok false e a h = refl

-- A split on a result that keeps the equation.
pub Result-cases :
    {A : Type 0} (r : Result A) → ((a : A) × (r ≡ ok a)) ⊎ ((e : Error) × (r ≡ err e))
Result-cases (ok a) = inl (a, refl)
Result-cases (err e) = inr (e, refl)
