-- ===== src/Http.antt =====
-- internal/server/http/middleware/auth.go and internal/server/http/handler/error_handler.go: the
-- access checks of the HTTP routes and the status of an error. gin's context is the record `Request`.
pub mod Agreement
pub mod Messages
pub mod Handlers
pub mod Middleware
mod Tests
use storemesh_user_service.Base.{ℕ, List, [], ◌∷◌, Bool, ◌||◌, some, if◌then◌else◌}
use storemesh_user_service.Go.Text.{Text, text, ◌==◌, Unicode}
use storemesh_user_service.Go.Errors.{
  Error, errors_is, message, err_not_found, err_already_exists, err_invalid_password,
  err_invalid_token, err_invalid_input, err_unauthorized, err_forbidden,
}
use storemesh_user_service.Go.Action.{Result, ok, err}
use storemesh_user_service.Domain.{TokenClaims, token_type_access}
use storemesh_user_service.Auth.{
  Context, TokenValidator, with_claims, require_claims, parse_bearer_token, has_any_role,
}

-- What the handlers read of `*gin.Context`: the request's context, its headers (the empty text
-- where one is missing) and the path parameters.
pub record Request : Type 0 where
  pub context : Context
  pub header : Text → Text
  pub param : Text → Text

-- The status of a response, and its error field or the value that it carries.
pub data Response (A : Type 0) : Type 0 where
  value : ℕ → A → Response A
  error : ℕ → Text → Response A

abbrev pub Handler : Type 0 → Type 0 → Type 0
Handler S A = Request → S → Response A × S

-- `writeError`.
unfoldable pub write_error : {A : Type 0} → Error → Response A
write_error e =
    if errors_is e err_invalid_input
    then error 400 (message e)
    else if errors_is e err_already_exists
    then error 409 (message e)
    else if errors_is e err_not_found
    then error 404 (message e)
    else if errors_is e err_invalid_password
    then error 401 (text "invalid credentials")
    else if errors_is e err_invalid_token || errors_is e err_unauthorized
    then error 401 (text "invalid or expired token")
    else if errors_is e err_forbidden
    then error 403 (text "forbidden")
    else error 500 (text "internal server error")

module _ {S A : Type 0} where
  -- `writeUnauthorized`.
  abbrev pub write_unauthorized : S → Response A × S
  write_unauthorized s = (error 401 (text "invalid or expired access token"), s)

  abbrev pub write_forbidden : S → Response A × S
  write_forbidden s = (error 403 (text "forbidden"), s)

  module _ (u : Unicode) (validator : TokenValidator S) (next : Handler S A) where
    abbrev pub with_validated : Request → Result TokenClaims → S → Response A × S
    with_validated c (err e) s = write_unauthorized s
    with_validated c (ok claims) s =
        if claims.token_type == token_type_access
        then next (record c { context = with_claims c.context claims }) s
        else write_unauthorized s

    abbrev pub with_token : Request → Result Text → S → Response A × S
    with_token c (err e) s = write_unauthorized s
    with_token c (ok token) s =
        with_validated c (validator.validate_token token s).0 (validator.validate_token token s).1

    unfoldable pub authentication : Handler S A
    authentication c s = with_token c (parse_bearer_token u (c.header (text "Authorization"))) s

  module _ (u : Unicode) (next : Handler S A) where
    abbrev pub if_self_or_role :
        Text → List Text → Request → Result TokenClaims → S → Response A × S
    if_self_or_role parameter roles c (err e) s = write_unauthorized s
    if_self_or_role parameter roles c (ok claims) s =
        if c.param parameter == claims.user_id
        then next c s
        else if has_any_role u (some claims) roles
        then next c s
        else write_forbidden s

    unfoldable pub require_self_or_role : Text → List Text → Handler S A
    require_self_or_role parameter roles c s =
        if_self_or_role parameter roles c (require_claims c.context) s

    abbrev pub if_role : List Text → Request → Result TokenClaims → S → Response A × S
    if_role roles c (err e) s = write_unauthorized s
    if_role roles c (ok claims) s =
        if has_any_role u (some claims) roles then next c s else write_forbidden s

    unfoldable pub require_role : List Text → Handler S A
    require_role roles c s = if_role roles c (require_claims c.context) s
