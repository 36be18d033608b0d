-- ===== src/Go/Action.antt =====
-- A Go function that may change the world and returns a value or an error: `f(ctx, …) (T, error)`.
-- The state comes back after an error too.
pub mod Laws
use storemesh_user_service.Base.{Bool, if◌then◌else◌}
use storemesh_user_service.Go.Errors.{Error}

pub data Result (A : Type 0) : Type 0 where
  ok : A → Result A
  err : Error → Result A

abbrev pub Action : Type 0 → Type 0 → Type 0
Action S A = S → Result A × S

abbrev pub map_ok : {A B : Type 0} → (A → B) → Result A → Result B
map_ok f (ok a) = ok (f a)
map_ok f (err e) = err e

abbrev pub map_result : {A : Type 0} → (Error → Error) → Result A → Result A
map_result f (ok a) = ok a
map_result f (err e) = err (f e)

module _ {S : Type 0} where
  abbrev pub pure : {A : Type 0} → A → Action S A
  pure a s = (ok a, s)

  abbrev pub raise : {A : Type 0} → Error → Action S A
  raise e s = (err e, s)

  -- A value that is ready, as an action.
  abbrev pub lift : {A : Type 0} → Result A → Action S A
  lift r s = (r, s)

  -- A call that cannot fail.
  abbrev pub call : {A : Type 0} → (S → A × S) → Action S A
  call f s = (ok (f s).0, (f s).1)

  -- `if cond { return err }`.
  abbrev pub raise_if : Bool → Error → Action S (Unit {0})
  raise_if b e s = (if b then err e else ok tt, s)

  -- `if err != nil { return f(err) }`.
  abbrev pub on_error : {A : Type 0} → (Error → Error) → Action S A → Action S A
  on_error f m s = (map_result f (m s).0, (m s).1)

  -- `_ = m`.
  abbrev pub ignore : {A : Type 0} → Action S A → Action S (Unit {0})
  ignore m s = (ok tt, (m s).1)

  infixl 5 ◌>>=◌ ◌>>◌
  abbrev pub then_result : {A B : Type 0} → Result A → (A → Action S B) → Action S B
  then_result (ok a) f s = f a s
  then_result (err e) f s = (err e, s)

  abbrev pub ◌>>=◌ : {A B : Type 0} → Action S A → (A → Action S B) → Action S B
  ◌>>=◌ m f s = then_result (m s).0 f (m s).1

  abbrev pub ◌>>◌ : {A B : Type 0} → Action S A → Action S B → Action S B
  m >> k = m >>= λ _. k
