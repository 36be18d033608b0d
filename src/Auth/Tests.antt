-- ===== src/Auth/Tests.antt =====
-- Bearer tokens at concrete inputs; the case tables leave every code point alone.
use storemesh_user_service.Base.{◌≡◌, refl}
use storemesh_user_service.Go.Text.{
  text, ◌==◌, Unicode, is_space, trim_space, trim_left, trim_right, fields, fields_from, equal_fold,
}
use storemesh_user_service.Go.Action.{ok}
use storemesh_user_service.Auth.{parse_bearer_token}

abbrev plain : Unicode
plain = record { to_lower_rune = λ c. c; fold_rune = λ c. c }

reads_spaced : parse_bearer_token plain (text "  Bearer   t1 ") ≡ ok (text "t1")
unfolding parse_bearer_token trim_space trim_left trim_right is_space fields fields_from equal_fold
    ◌==◌
reads_spaced = refl
