-- ===== src/Repository/Users/Selection.antt =====
-- Lists filtered by a test: what is in them, and when they are empty.
use storemesh_user_service.Base.{
  ◌≡◌, ◌≢◌, refl, sym, ap, subst, ◌∙◌, inl, inr, List, [], ◌∷◌, map, Bool, true, false, not, arith,
  length, any, In, All, Bool-cases, if◌then◌else◌,
}
use storemesh_user_service.Repository.Users.Tables.{select}

module _ {ℓ} {A : Type ℓ} (p : A → Bool) where
  pub select-length_zero : (xs : List A) → length (select p xs) ≡ 0 → select p xs ≡ []
  unfolding select
  select-length_zero [] h = refl
  select-length_zero (x ∷ xs) h = ground (arith, select-length_zero xs)

pub select-nil :
    {A : Type 0} (p : A → Bool) (xs : List A) (x : A) → select p xs ≡ [] → In x xs → p x ≡ false
unfolding select
select-nil p [] x h at = absurd at
select-nil p (y ∷ xs) x h (inl e) = ground (arith, ap p e)
select-nil p (y ∷ xs) x h (inr at) = ground (arith, select-nil p xs x)

pub select_some :
    {A : Type 0} (p : A → Bool) (xs : List A)
    → length (select p xs) ≢ 0
    → (x : A) × In x xs × (p x ≡ true)
unfolding select
select_some p [] h = absurd (h refl)
select_some p (x ∷ xs) h = elim (Bool-cases (p x)) [
  | inl passes ↦ (x, inl refl, passes)
  | inr fails ↦ let (y, at, q) = select_some p xs (ground arith) in (y, inr at, q)
]

pub All-In : {A : Type 0} (P : A → Type 0) (xs : List A) (x : A) → All P xs → In x xs → P x
All-In P [] x h at = absurd at
All-In P (y ∷ xs) x (h, hs) (inl e) = subst P (sym e) h
All-In P (y ∷ xs) x (h, hs) (inr at) = All-In P xs x hs at

pub In-map :
    {A B : Type 0} (f : A → B) (xs : List A) (y : B)
    → In y (map f xs)
    → (x : A) × In x xs × (y ≡ f x)
In-map f [] y at = absurd at
In-map f (x ∷ xs) y (inl e) = (x, inl refl, e)
In-map f (x ∷ xs) y (inr at) = let (z, there, e) = In-map f xs y at in (z, inr there, e)

pub All-map :
    {A B : Type 0} (P : A → Type 0) (Q : B → Type 0) (f : A → B) (xs : List A)
    → ((x : A) → P x → Q (f x))
    → All P xs
    → All Q (map f xs)
All-map P Q f [] g h = _
All-map P Q f (x ∷ xs) g (h, hs) = (g x h, All-map P Q f xs g hs)

pub any-select : {A : Type 0} (p : A → Bool) (xs : List A) → select p xs ≡ [] → any p xs ≡ false
unfolding select
any-select p [] h = refl
any-select p (x ∷ xs) h = ground (arith, any-select p xs)

pub select-any :
    {A : Type 0} (p : A → Bool) (xs : List A) → length (select p xs) ≢ 0 → any p xs ≡ true
unfolding select
select-any p [] h = absurd (h refl)
select-any p (x ∷ xs) h = ground (arith, select-any p xs)

pub any-select-not :
    {A : Type 0} (p : A → Bool) (xs : List A) → any p (select (λ x. not (p x)) xs) ≡ false
unfolding select
any-select-not p [] = refl
any-select-not p (x ∷ xs) = ground (arith, any-select-not p xs)

pub In-select :
    {A : Type 0} (p : A → Bool) (xs : List A) (x : A) → In x xs → p x ≡ true → In x (select p xs)
unfolding select
In-select p [] x at h = absurd at
In-select p (y ∷ xs) x (inl e) h = rw (sym (ap p e) ∙ h) (inl e)
In-select p (y ∷ xs) x (inr at) h = elim (Bool-cases (p y)) [
  | inl passes ↦ rw passes (inr (In-select p xs x at h))
  | inr fails ↦ rw fails (In-select p xs x at h)
]

-- A step of `select-In`, with the test's value.
select-In_step :
    {A : Type 0} (p : A → Bool) (y : A) (xs : List A) (x : A) (b : Bool)
    → p y ≡ b
    → In x (if b then y ∷ select p xs else select p xs)
    → (In x (select p xs) → In x xs × (p x ≡ true))
    → In x (y ∷ xs) × (p x ≡ true)
select-In_step p y xs x true e (inl q) ih = (inl q, ap p q ∙ e)
select-In_step p y xs x true e (inr at) ih = let (there, h) = ih at in (inr there, h)
select-In_step p y xs x false e at ih = let (there, h) = ih at in (inr there, h)

pub select-In :
    {A : Type 0} (p : A → Bool) (xs : List A) (x : A) → In x (select p xs) → In x xs × (p x ≡ true)
unfolding select
select-In p [] x at = absurd at
select-In p (y ∷ xs) x at = select-In_step p y xs x (p y) refl at (select-In p xs x)

pub map-In : {A B : Type 0} (f : A → B) (xs : List A) (x : A) → In x xs → In (f x) (map f xs)
map-In f [] x at = absurd at
map-In f (y ∷ xs) x (inl e) = inl (ap f e)
map-In f (y ∷ xs) x (inr at) = inr (map-In f xs x at)
