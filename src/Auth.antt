-- ===== src/Auth.antt =====
-- internal/auth/context.go: the claims of a request, bearer tokens and the test on roles. The case
-- tables of package unicode are a parameter.
pub mod Bearer
pub mod Roles
mod Tests
use storemesh_user_service.Base.{
  List, [], ◌∷◌, Bool, false, ◌||◌, Option, none, some, if◌then◌else◌, any,
}
use storemesh_user_service.Go.Text.{Text, text, ◌==◌, trim_space, fields, Unicode, equal_fold}
use storemesh_user_service.Go.Errors.{is, err_unauthorized}
use storemesh_user_service.Go.Action.{Result, ok, err, Action}
use storemesh_user_service.Domain.{TokenClaims}

-- The part of a request's `context.Context` that the program reads: the claims under `contextKey`,
-- where `WithClaims` has put them, and the incoming gRPC metadata.
pub record Context : Type 0 where
  pub claims : Option TokenClaims
  pub incoming : Option (Text → List Text)

pub record TokenValidator (S : Type 0) : Type 0 where
  pub validate_token : Text → Action S TokenClaims

abbrev pub with_claims : Context → TokenClaims → Context
with_claims ctx claims = record ctx { claims = some claims }

-- `RequireClaims` on what `Claims` finds.
abbrev pub or_unauthorized : Option TokenClaims → Result TokenClaims
or_unauthorized none = err (is err_unauthorized)
or_unauthorized (some claims) = ok claims

unfoldable pub require_claims : Context → Result TokenClaims
require_claims ctx = or_unauthorized ctx.claims

module _ (u : Unicode) where
  -- The checks on the two parts of an `Authorization` value.
  abbrev pub bearer_of : List Text → Result Text
  bearer_of [] = err (is err_unauthorized)
  bearer_of (scheme ∷ []) = err (is err_unauthorized)
  bearer_of (scheme ∷ token ∷ []) =
      if equal_fold u scheme (text "Bearer")
      then if trim_space token == text "" then err (is err_unauthorized) else ok (trim_space token)
      else err (is err_unauthorized)
  bearer_of (scheme ∷ token ∷ more ∷ parts) = err (is err_unauthorized)

  unfoldable pub parse_bearer_token : Text → Result Text
  parse_bearer_token authorization = bearer_of (fields (trim_space authorization))

  unfoldable pub has_any_role : Option TokenClaims → List Text → Bool
  has_any_role none roles = false
  has_any_role (some claims) roles =
      any (λ claim_role. any (λ required_role. equal_fold u claim_role required_role) roles)
        claims.roles
