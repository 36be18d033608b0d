-- ===== src/Grpc.antt =====
-- internal/middleware/interceptors.go and the interceptor chain of cmd/server/main.go: replies,
-- handlers and interceptors of unary calls. The logger and the runtime's panics are parameters.
pub mod Errors
pub mod Server
pub mod Access
pub mod Requests
pub mod Interceptors
mod Sample
mod Tests
use storemesh_user_service.Base.{List, [], ◌∷◌, Bool, Option, none, some, if◌then◌else◌, any}
use storemesh_user_service.Go.Text.{Text, text, ◌==◌, Unicode}
use storemesh_user_service.Go.Errors.{is, err_unauthorized}
use storemesh_user_service.Go.Action.{Result, ok, err}
use storemesh_user_service.Domain.{TokenClaims, token_type_access}
use storemesh_user_service.Auth.{Context, TokenValidator, with_claims, parse_bearer_token}

-- The codes of google.golang.org/grpc/codes that the program uses.
pub data Code : Type 0 where
  not_found already_exists unauthenticated permission_denied invalid_argument internal : Code

pub record Status : Type 0 where
  pub code : Code
  pub message : Text

-- How a handler ends: with a response, a status error or a panic.
pub data Reply (A : Type 0) : Type 0 where
  reply : A → Reply A
  fail : Status → Reply A
  panicked : Text → Reply A

-- A handler with its request given.
abbrev pub Handler : Type 0 → Type 0 → Type 0
Handler S A = Context → S → Reply A × S

abbrev pub unauthenticated_error : Status
unauthenticated_error = record {
  code = unauthenticated;
  message = text "invalid or expired access token";
}

abbrev pub internal_error : Status
internal_error = record { code = internal; message = text "internal server error" }

-- `requestMetadata.Get("authorization")`, where there is metadata and a first value.
abbrev pub first_value : List Text → Result Text
first_value [] = err (is err_unauthorized)
first_value (v ∷ vs) = ok v

abbrev pub authorization_of : Option (Text → List Text) → Result Text
authorization_of none = err (is err_unauthorized)
authorization_of (some metadata) = first_value (metadata (text "authorization"))

-- The methods that `buildGRPCServer` leaves open.
abbrev pub public_methods : List Text
public_methods =
    text "/user.v1.UserService/CreateUser"
    ∷ text "/user.v1.UserService/Authenticate"
    ∷ text "/user.v1.UserService/RefreshToken"
    ∷ text "/grpc.health.v1.Health/Check"
    ∷ []

-- `public, ok := allowlist[method]`.
unfoldable pub is_public : List Text → Text → Bool
is_public methods method = any (λ m. method == m) methods

module _ {S A : Type 0} where
  abbrev pub refuse : S → Reply A × S
  refuse s = (fail unauthenticated_error, s)

  -- The recovered panic is logged by `record_panic` and becomes an internal error.
  abbrev pub recovered : (Text → S → S) → Reply A × S → Reply A × S
  recovered record_panic (reply a, s) = (reply a, s)
  recovered record_panic (fail e, s) = (fail e, s)
  recovered record_panic (panicked m, s) = (fail internal_error, record_panic m s)

  unfoldable pub recovery : (Text → S → S) → Handler S A → Handler S A
  recovery record_panic handler ctx s = recovered record_panic (handler ctx s)

  -- `Logging` writes its entry after the handler, and none if the handler panics. `record_entry` is
  -- the logger's write of an entry for a response or a status.
  abbrev logged : (Option Status → S → S) → Reply A × S → Reply A × S
  logged record_entry (reply a, s) = (reply a, record_entry none s)
  logged record_entry (fail e, s) = (fail e, record_entry (some e) s)
  logged record_entry (panicked m, s) = (panicked m, s)

  unfoldable pub logging : (Option Status → S → S) → Handler S A → Handler S A
  logging record_entry handler ctx s = logged record_entry (handler ctx s)

  module _ (u : Unicode) (validator : TokenValidator S) (handler : Handler S A) where
    -- `Authentication` behind the validation of the token.
    abbrev pub with_validated : Context → Result TokenClaims → S → Reply A × S
    with_validated ctx (err e) s = refuse s
    with_validated ctx (ok claims) s =
        if claims.token_type == token_type_access
        then handler (with_claims ctx claims) s
        else refuse s

    abbrev pub with_token : Context → Result Text → S → Reply A × S
    with_token ctx (err e) s = refuse s
    with_token ctx (ok token) s =
        with_validated ctx (validator.validate_token token s).0 (validator.validate_token token s).1

    abbrev pub with_authorization : Context → Result Text → S → Reply A × S
    with_authorization ctx (err e) s = refuse s
    with_authorization ctx (ok value) s = with_token ctx (parse_bearer_token u value) s

    unfoldable pub authentication : List Text → Text → Handler S A
    authentication methods method ctx s =
        if is_public methods method
        then handler ctx s
        else with_authorization ctx (authorization_of ctx.incoming) s

  -- The chain of `buildGRPCServer`: the first interceptor is the outermost.
  unfoldable pub chain :
      Unicode
      → TokenValidator S
      → (Text → S → S)
      → (Option Status → S → S)
      → Text
      → Handler S A
      → Handler S A
  chain u validator record_panic record_entry method handler =
      recovery record_panic
        (authentication u validator (logging record_entry handler) public_methods method)
