-- ===== src/Go/Text/Laws.antt =====
-- Laws of the string functions: tests decide equality, trimming and lower case are idempotent.
use storemesh_user_service.Base.{
  ℕ, ◌≡◌, refl, sym, ◌↔◌, ◌≢◌, List, [], ◌∷◌, true, false, arith, Bool-cases, inl, inr,
}
use storemesh_user_service.Go.Text.{
  Text, ◌==◌, is_space, trim_left, trim_right, trim_space, keep, texts_eq, Unicode, to_lower,
}

pub eq_iff : (s t : Text) → ((s == t) ≡ true) ↔ (s ≡ t)
unfolding ◌==◌
eq_iff [] [] = (λ _. refl, λ _. refl)
eq_iff [] (d ∷ t) = ground arith
eq_iff (c ∷ s) [] = ground arith
eq_iff (c ∷ s) (d ∷ t) = ground (arith, eq_iff s t)

pub eq_refl : (s : Text) → (s == s) ≡ true
eq_refl s = (eq_iff s s).1 refl

pub eq_ne : (s t : Text) → s ≢ t → (s == t) ≡ false
eq_ne s t h = ground (arith, eq_iff s t)

pub texts_eq_iff : (s t : List Text) → (texts_eq s t ≡ true) ↔ (s ≡ t)
unfolding texts_eq
texts_eq_iff [] [] = (λ _. refl, λ _. refl)
texts_eq_iff [] (d ∷ t) = ground arith
texts_eq_iff (c ∷ s) [] = ground arith
texts_eq_iff (c ∷ s) (d ∷ t) = ground (arith, eq_iff c d, texts_eq_iff s t)

trim_right-keep : (c : ℕ) (s : Text) → trim_right s ≡ s → trim_right (keep c s) ≡ keep c s
unfolding trim_right
trim_right-keep c [] h = ground arith
trim_right-keep c (d ∷ s) h = rw h

trim_right_idem : (s : Text) → trim_right (trim_right s) ≡ trim_right s
unfolding trim_right
trim_right_idem [] = refl
trim_right_idem (c ∷ s) = trim_right-keep c (trim_right s) (trim_right_idem s)

-- Trimming on the right keeps a first code point that is no space in its place.
trim_left-keep : (c : ℕ) (s : Text) → is_space c ≡ false → trim_left (keep c s) ≡ keep c s
unfolding trim_left
trim_left-keep c [] h = ground arith
trim_left-keep c (d ∷ s) h = ground arith

trim_left-trim_right : (s : Text) → trim_left (trim_right (trim_left s)) ≡ trim_right (trim_left s)
unfolding trim_left trim_right
trim_left-trim_right [] = refl
trim_left-trim_right (c ∷ s) = elim (Bool-cases (is_space c)) [
  | inl space ↦ rw (space) (trim_left-trim_right s)
  | inr other ↦ rw (other) (trim_left-keep c (trim_right s) other)
]

pub trim_space_idem : (s : Text) → trim_space (trim_space s) ≡ trim_space s
unfolding trim_space
trim_space_idem s = rw (trim_left-trim_right s) (trim_right_idem (trim_left s))

-- What the program relies on of the case tables.
pub record UnicodeLaws (u : Unicode) : Type 0 where
  pub to_lower_idem : (c : ℕ) → u.to_lower_rune (u.to_lower_rune c) ≡ u.to_lower_rune c
  pub to_lower_space : (c : ℕ) → is_space (u.to_lower_rune c) ≡ is_space c

module _ (u : Unicode) (l : UnicodeLaws u) where
  to_lower_twice : (s : Text) → to_lower u (to_lower u s) ≡ to_lower u s
  unfolding to_lower
  to_lower_twice [] = refl
  to_lower_twice (c ∷ s) = cc (l.to_lower_idem c, to_lower_twice s)

  to_lower-keep :
      (c : ℕ) (s : Text) → to_lower u (keep c s) ≡ keep (u.to_lower_rune c) (to_lower u s)
  unfolding to_lower
  to_lower-keep c [] = ground (arith, l.to_lower_space c)
  to_lower-keep c (d ∷ s) = refl

  trim_right-to_lower : (s : Text) → trim_right (to_lower u s) ≡ to_lower u (trim_right s)
  unfolding trim_right to_lower
  trim_right-to_lower [] = refl
  trim_right-to_lower (c ∷ s) = rw (trim_right-to_lower s) (sym (to_lower-keep c (trim_right s)))

  trim_left-to_lower : (s : Text) → trim_left (to_lower u s) ≡ to_lower u (trim_left s)
  unfolding trim_left to_lower
  trim_left-to_lower [] = refl
  trim_left-to_lower (c ∷ s) = ground (arith, l.to_lower_space c, trim_left-to_lower s)

  trim_space-to_lower : (s : Text) → trim_space (to_lower u s) ≡ to_lower u (trim_space s)
  unfolding trim_space
  trim_space-to_lower s = rw (trim_left-to_lower s, trim_right-to_lower (trim_left s))

  pub lower_trim_idem :
      (s : Text) → to_lower u (trim_space (to_lower u (trim_space s))) ≡ to_lower u (trim_space s)
  lower_trim_idem s =
      rw (trim_space-to_lower (trim_space s), trim_space_idem s, to_lower_twice (trim_space s))
