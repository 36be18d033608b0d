-- ===== src/Auth/Roles.antt =====
-- `HasAnyRole`.
use storemesh_user_service.Base.{
  ◌≡◌, ◌↔◌, inl, inr, refl, ap, List, [], ◌∷◌, Bool, true, Option, none, some, arith, any, In,
  Bool-cases,
}
use storemesh_user_service.Go.Text.{Text, Unicode, equal_fold}
use storemesh_user_service.Domain.{TokenClaims}
use storemesh_user_service.Auth.{has_any_role}

-- An element of the list passes the test.
abbrev Passes : {A : Type 0} → (A → Bool) → List A → Type 0
Passes {A} p xs = (x : A) × In x xs × (p x ≡ true)

any-Passes : {A : Type 0} (p : A → Bool) (xs : List A) → any p xs ≡ true → Passes p xs
any-Passes p [] h = cc h
any-Passes p (x ∷ xs) h = elim (Bool-cases (p x)) [
  | inl passes ↦ (x, inl refl, passes)
  | inr fails ↦ let (y, at, q) = any-Passes p xs (ground arith) in (y, inr at, q)
]

any-In : {A : Type 0} (p : A → Bool) (xs : List A) (x : A) → In x xs → p x ≡ true → any p xs ≡ true
any-In p [] x at h = absurd at
any-In p (y ∷ xs) x (inl e) h = ground (arith, ap p e)
any-In p (y ∷ xs) x (inr at) h = ground (arith, any-In p xs x at h)

module _ (u : Unicode) where
  -- `HasAnyRole` holds exactly when there are claims, and one of their roles equals one of the
  -- required roles when case is ignored.
  pub has_any_role_iff :
      (claims : Option TokenClaims) (roles : List Text)
      → (has_any_role u claims roles ≡ true) ↔ (
          (c : TokenClaims) × (claims ≡ some c)
          × (a : Text) × In a c.roles
          × (b : Text) × In b roles
          × (equal_fold u a b ≡ true))
  unfolding has_any_role
  has_any_role_iff none roles = (λ h. absurd (cc h), λ (c, e, a, at, b, among, q). absurd (cc e))
  has_any_role_iff (some claims) roles = (
    λ h.
        let (a, at, p) = any-Passes (λ a. any (equal_fold u a) roles) claims.roles h in
        let (b, among, q) = any-Passes (equal_fold u a) roles p in
        (claims, refl, a, at, b, among, q),
    λ (c, e, a, at, b, among, q).
        let same : claims ≡ c = cc e in
        rw same (
          any-In (λ a. any (equal_fold u a) roles) c.roles a at
            (any-In (equal_fold u a) roles b among q)),
  )
