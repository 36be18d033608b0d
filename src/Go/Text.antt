-- ===== src/Go/Text.antt =====
-- Go strings, as lists of Unicode code points: a `string` of the source is valid UTF-8 here. The
-- functions of package strings that the source calls; the case tables of package unicode are the
-- parameter `Unicode`.
pub mod Laws
use Prim.Native.Char.{code}
use Prim.Native.String.{String}
use storemesh_user_service.Base.{
  ℕ, ◌+◌, List, [], ◌∷◌, ◌++◌, map, Bool, true, false, ◌&&◌, ◌||◌, ltb, leb, eqb, if◌then◌else◌,
}

abbrev pub Text : Type 0
Text = List ℕ

-- The code points of a literal.
abbrev pub text : String → Text
text String.[] = []
text (String.◌∷◌ c s) = code c ∷ text s

infix 50 ◌==◌
unfoldable pub ◌==◌ : Text → Text → Bool
[] == [] = true
[] == (d ∷ t) = false
(c ∷ s) == [] = false
(c ∷ s) == (d ∷ t) = eqb c d && s == t

-- `len(s)`: the bytes of the UTF-8 form.
abbrev pub rune_len : ℕ → ℕ
rune_len c = if ltb c 0x80 then 1 else if ltb c 0x800 then 2 else if ltb c 0x10000 then 3 else 4

unfoldable pub len : Text → ℕ
len [] = 0
len (c ∷ s) = rune_len c + len s

-- `unicode.IsSpace`.
unfoldable pub is_space : ℕ → Bool
is_space c =
    (leb 0x09 c && leb c 0x0d)
    || eqb c 0x20
    || eqb c 0x85
    || eqb c 0xa0
    || eqb c 0x1680
    || (leb 0x2000 c && leb c 0x200a)
    || eqb c 0x2028
    || eqb c 0x2029
    || eqb c 0x202f
    || eqb c 0x205f
    || eqb c 0x3000

unfoldable pub trim_left : Text → Text
trim_left [] = []
trim_left (c ∷ s) = if is_space c then trim_left s else c ∷ s

-- A code point is dropped if it is a space and nothing behind it is kept.
abbrev pub keep : ℕ → Text → Text
keep c [] = if is_space c then [] else c ∷ []
keep c (d ∷ r) = c ∷ d ∷ r

unfoldable pub trim_right : Text → Text
trim_right [] = []
trim_right (c ∷ s) = keep c (trim_right s)

-- `strings.TrimSpace`.
unfoldable pub trim_space : Text → Text
unfolding is_space trim_left trim_right
trim_space s = trim_right (trim_left s)

abbrev flush : Text → List Text → List Text
flush [] rest = rest
flush (c ∷ s) rest = (c ∷ s) ∷ rest

-- The loop of `strings.Fields`, with the field read so far.
unfoldable pub fields_from : Text → Text → List Text
fields_from cur [] = flush cur []
fields_from cur (c ∷ s) =
    let ended = flush cur (fields_from [] s) in
    let longer = fields_from (cur ++ c ∷ []) s in if is_space c then ended else longer

unfoldable pub fields : Text → List Text
unfolding fields_from is_space
fields s = fields_from [] s

-- The tables of package unicode: `unicode.ToLower`, and one code point for each class of
-- `unicode.SimpleFold`.
pub record Unicode : Type 0 where
  pub to_lower_rune : ℕ → ℕ
  pub fold_rune : ℕ → ℕ

-- `strings.ToLower`.
unfoldable pub to_lower : Unicode → Text → Text
to_lower u s = map u.to_lower_rune s

-- `strings.EqualFold`.
unfoldable pub equal_fold : Unicode → Text → Text → Bool
equal_fold u s t = map u.fold_rune s == map u.fold_rune t

-- The order of Go strings; that of the bytes of UTF-8 is that of the code points.
unfoldable pub text_leb : Text → Text → Bool
text_leb [] t = true
text_leb (c ∷ s) [] = false
text_leb (c ∷ s) (d ∷ t) = ltb c d || (eqb c d && text_leb s t)

unfoldable pub insert_text : Text → List Text → List Text
insert_text s [] = s ∷ []
insert_text s (t ∷ ts) = if text_leb s t then s ∷ t ∷ ts else t ∷ insert_text s ts

-- `sort.Strings`: the order is total, so every sort has this result.
unfoldable pub sort_strings : List Text → List Text
unfolding insert_text text_leb
sort_strings [] = []
sort_strings (s ∷ ss) = insert_text s (sort_strings ss)

-- `slices.Equal` on strings.
unfoldable pub texts_eq : List Text → List Text → Bool
texts_eq [] [] = true
texts_eq [] (t ∷ ts) = false
texts_eq (s ∷ ss) [] = false
texts_eq (s ∷ ss) (t ∷ ts) = s == t && texts_eq ss ts
