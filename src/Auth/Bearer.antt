-- ===== src/Auth/Bearer.antt =====
-- `ParseBearerToken`: what it returns, and that it reads back what a client sends.
use storemesh_user_service.Base.{
  ℕ, ◌≡◌, ◌≢◌, refl, ap, ◌∙◌, map, List, [], ◌∷◌, ◌++◌, false, arith, All, Bool-cases, inl, inr,
}
use mathlib.Core.List.{append-nil, append_assoc}
use storemesh_user_service.Go.Text.{
  Text, text, is_space, trim_left, trim_right, trim_space, fields_from, fields, Unicode, equal_fold,
}
use storemesh_user_service.Go.Text.Laws.{eq_iff, eq_refl}
use storemesh_user_service.Go.Action.{ok}
use storemesh_user_service.Auth.{parse_bearer_token, bearer_of}

-- No code point is a space.
abbrev pub IsSolid : Text → Type 0
IsSolid t = All (λ c. is_space c ≡ false) t

abbrev IsField : Text → Type 0
IsField t = (t ≢ []) × IsSolid t

IsSolid-snoc : (t : Text) (c : ℕ) → IsSolid t → is_space c ≡ false → IsSolid (t ++ c ∷ [])
IsSolid-snoc [] c h k = (k, _)
IsSolid-snoc (d ∷ t) c (p, h) k = (p, IsSolid-snoc t c h k)

fields_from-IsField : (cur s : Text) → IsSolid cur → All IsField (fields_from cur s)
unfolding fields_from
fields_from-IsField [] [] h = _
fields_from-IsField (d ∷ cur) [] h = ((λ e. cc e, h), _)
fields_from-IsField [] (c ∷ s) h = elim (Bool-cases (is_space c)) [
  | inl space ↦ rw space (fields_from-IsField [] s _)
  | inr solid ↦ rw solid (fields_from-IsField (c ∷ []) s (solid, _))
]
fields_from-IsField (d ∷ cur) (c ∷ s) h = elim (Bool-cases (is_space c)) [
  | inl space ↦ rw space ((λ e. cc e, h), fields_from-IsField [] s _)
  | inr solid ↦
      rw solid (fields_from-IsField (d ∷ cur ++ c ∷ []) s (IsSolid-snoc (d ∷ cur) c h solid))
]

trim_right-solid : (t : Text) → IsSolid t → trim_right t ≡ t
unfolding trim_right
trim_right-solid [] h = refl
trim_right-solid (c ∷ []) (p, h) = rw p
trim_right-solid (c ∷ d ∷ t) (p, h) = rw (trim_right-solid (d ∷ t) h)

trim_space-solid : (t : Text) → IsSolid t → trim_space t ≡ t
unfolding trim_space trim_left trim_right
trim_space-solid [] h = refl
trim_space-solid (c ∷ t) (p, h) = rw p (trim_right-solid (c ∷ t) (p, h))

fields_from-solid :
    (d : ℕ) (cur t : Text) → IsSolid t → fields_from (d ∷ cur) t ≡ (d ∷ cur ++ t) ∷ []
unfolding fields_from
fields_from-solid d cur [] h = rw (append-nil cur)
fields_from-solid d cur (c ∷ t) (p, h) =
    rw p (fields_from-solid d (cur ++ c ∷ []) t h ∙ rw (append_assoc cur (c ∷ []) t))

header-trim :
    (t : Text) (c : ℕ) (r : Text)
    → trim_right t ≡ c ∷ r
    → trim_space (text "Bearer " ++ t) ≡ text "Bearer " ++ c ∷ r
unfolding trim_space trim_left trim_right is_space
header-trim t c r h = rw h

header-fields :
    (c : ℕ) (t : Text)
    → IsSolid (c ∷ t)
    → fields (text "Bearer " ++ c ∷ t) ≡ text "Bearer" ∷ (c ∷ t) ∷ []
unfolding fields fields_from is_space
header-fields c t (p, h) = rw p (ap (λ fs. text "Bearer" ∷ fs) (fields_from-solid c [] t h))

module _ (u : Unicode) where
  bearer_of_ok :
      (parts : List Text) (token : Text)
      → All IsField parts
      → bearer_of u parts ≡ ok token
      → (token ≢ text "") × IsSolid token
  bearer_of_ok [] token h e = cc e
  bearer_of_ok (s ∷ []) token h e = cc e
  bearer_of_ok (s ∷ t ∷ []) token (f, ((given, solid), k)) e =
      let same : trim_space t ≡ t = trim_space-solid t solid in
      let read : t ≡ token = ground arith in ground (arith)
  bearer_of_ok (s ∷ t ∷ m ∷ parts) token h e = cc e

  -- A token that `ParseBearerToken` returns is not empty and has no space in it.
  pub parse_bearer_token_ok :
      (authorization token : Text)
      → parse_bearer_token u authorization ≡ ok token
      → (token ≢ text "") × IsSolid token
  unfolding parse_bearer_token fields
  parse_bearer_token_ok authorization token h =
      bearer_of_ok (fields (trim_space authorization)) token
        (fields_from-IsField [] (trim_space authorization) _) h

  -- `ParseBearerToken` reads back the token of a header `Bearer <token>`, for every token that is not
  -- empty and has no space in it.
  pub parse_bearer_token-bearer :
      (token : Text)
      → token ≢ text ""
      → IsSolid token
      → parse_bearer_token u (text "Bearer " ++ token) ≡ ok token
  unfolding parse_bearer_token fields fields_from is_space trim_space trim_left trim_right
      equal_fold
  parse_bearer_token-bearer [] given solid = absurd (given refl)
  parse_bearer_token-bearer (c ∷ token) given solid =
      let parts =
        ap fields (header-trim (c ∷ token) c token (trim_right-solid (c ∷ token) solid))
        ∙ header-fields c token solid in
      let same = trim_space-solid (c ∷ token) solid in
      ap (bearer_of u) parts
      ∙ ground (
        arith,
        eq_refl (map u.fold_rune (text "Bearer")),
        same,
        eq_iff (trim_space (c ∷ token)) [],
      )
