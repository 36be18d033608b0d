-- ===== src/Http/Agreement.antt =====
-- The HTTP and the gRPC side compared: errors, tokens and accounts.
use storemesh_user_service.Base.{
  ℕ, ◌≡◌, ◌⊎◌, inl, inr, refl, List, ◌||◌, false, Option, none, some, arith, Bool-cases,
  Option-cases,
}
use storemesh_user_service.Go.Text.{Text, text, ◌==◌, Unicode}
use storemesh_user_service.Go.Text.Laws.{eq_iff}
use storemesh_user_service.Go.Errors.{
  Error, is, wrap, other, err_not_found, err_already_exists, err_invalid_password,
  err_invalid_token, err_invalid_input, err_unauthorized, err_forbidden, redis_nil, tx_failed,
  duplicated_key, record_not_found,
}
use storemesh_user_service.Go.Action.{ok}
use storemesh_user_service.Go.Action.Laws.{Result-cases}
use storemesh_user_service.Domain.{TokenClaims, token_type_access}
use storemesh_user_service.Auth.{
  TokenValidator, with_claims, require_claims, has_any_role, parse_bearer_token,
}
use storemesh_user_service.Grpc.{
  Code, not_found, already_exists, unauthenticated, permission_denied, invalid_argument, internal,
  Status, is_public, authorization_of, refuse,
}
use storemesh_user_service.Grpc.Errors.{to_grpc_error}
use storemesh_user_service.Grpc
use storemesh_user_service.Grpc.Server
use storemesh_user_service.Grpc.Server.{Checked, fine, bad, authentication_required, forbidden}
use storemesh_user_service.Http.{
  authentication, require_self_or_role, Request, Response, value, error, write_error, Handler,
  write_unauthorized,
}

-- The standard HTTP status of a gRPC code.
abbrev pub http_code : Code → ℕ
http_code not_found = 404
http_code already_exists = 409
http_code unauthenticated = 401
http_code permission_denied = 403
http_code invalid_argument = 400
http_code internal = 500

abbrev pub status_of : {A : Type 0} → Response A → Option ℕ
status_of (value n a) = none
status_of (error n t) = some n

-- `writeError` and `toGRPCError` test the errors in different orders and yet agree on every error:
-- the HTTP status is the standard one of the gRPC code.
pub write_error-to_grpc_error :
    (A : Type 0) (e : Error)
    → status_of (write_error {A = A} e) ≡ some (http_code (to_grpc_error e).code)
unfolding write_error to_grpc_error
write_error-to_grpc_error A (is err_not_found) = refl
write_error-to_grpc_error A (is err_already_exists) = refl
write_error-to_grpc_error A (is err_invalid_password) = refl
write_error-to_grpc_error A (is err_invalid_token) = refl
write_error-to_grpc_error A (is err_invalid_input) = refl
write_error-to_grpc_error A (is err_unauthorized) = refl
write_error-to_grpc_error A (is err_forbidden) = refl
write_error-to_grpc_error A (is redis_nil) = refl
write_error-to_grpc_error A (is tx_failed) = refl
write_error-to_grpc_error A (is duplicated_key) = refl
write_error-to_grpc_error A (is record_not_found) = refl
write_error-to_grpc_error A (wrap p e q) = ground (arith, write_error-to_grpc_error A e)
write_error-to_grpc_error A (other m) = refl

module _ {S A : Type 0} (u : Unicode) (next : Handler S A) where
  -- The middleware `RequireSelfOrRole` runs the handler exactly where the gRPC check of the same
  -- name passes for the same context, account and roles; elsewhere it answers 401 or 403, as the
  -- status of that check says, and no state changes.
  pub require_self_or_role-agree :
      (parameter : Text) (roles : List Text) (c : Request) (s : S)
      → ((storemesh_user_service.Grpc.Server.require_self_or_role u c.context
              (c.param parameter)
              roles
            ≡ fine tt)
          × (require_self_or_role u next parameter roles c s ≡ next c s))
        ⊎ ((e : Status) × (m : Text) × (storemesh_user_service.Grpc.Server.require_self_or_role u
                c.context
                (c.param parameter)
                roles
              ≡ bad e)
            × (require_self_or_role u next parameter roles c s ≡ (error (http_code e.code) m, s)))
  unfolding require_self_or_role storemesh_user_service.Grpc.Server.require_self_or_role
      require_claims has_any_role
  require_self_or_role-agree parameter roles c s = elim (Option-cases c.context.claims) [
    | inl p ↦ inr (
      authentication_required,
      text "invalid or expired access token",
      ground arith,
      ground arith,
    )
    | inr (claims, p) ↦
        let there = eq_iff claims.user_id (c.param parameter) in
        let back = eq_iff (c.param parameter) claims.user_id in
        elim (Bool-cases
          (has_any_role u (some claims) roles || claims.user_id == c.param parameter)) [
            | inl passes ↦ inl (ground arith, ground arith)
            | inr fails ↦ inr (forbidden, text "forbidden", ground arith, ground arith)
          ]
  ]

module _ {S A B : Type 0} (u : Unicode) (v : TokenValidator S) (next : Handler S A)
    (handler : storemesh_user_service.Grpc.Handler S B) where
  -- On the same `Authorization` value, the middleware and the interceptor `Authentication` (of a
  -- method that is not public) decide alike: both run their handler with the same claims in the same
  -- state, or they answer 401 and `Unauthenticated` in the same state.
  pub authentication-agree :
      (methods : List Text) (method : Text) (c : Request) (s : S)
      → is_public methods method ≡ false
      → authorization_of c.context.incoming ≡ ok (c.header (text "Authorization"))
      → ((claims : TokenClaims) × (s' : S) × (authentication u v next c s
            ≡ next (record c { context = with_claims c.context claims }) s')
          × (storemesh_user_service.Grpc.authentication u v handler methods method c.context s
              ≡ handler (with_claims c.context claims) s'))
        ⊎ ((s' : S) × (authentication u v next c s ≡ write_unauthorized s')
            × (storemesh_user_service.Grpc.authentication u v handler methods method c.context s
                ≡ refuse s'))
  unfolding authentication storemesh_user_service.Grpc.authentication
  authentication-agree methods method c s private same =
      elim (Result-cases (parse_bearer_token u (c.header (text "Authorization")))) [
        | inr (e, p) ↦ inr (s, ground arith, ground arith)
        | inl (token, p) ↦ elim (Result-cases (v.validate_token token s).0) [
          | inr (e, q) ↦ inr ((v.validate_token token s).1, ground arith, ground arith)
          | inl (claims, q) ↦ elim (Bool-cases (claims.token_type == token_type_access)) [
            | inl access ↦ inl (claims, (v.validate_token token s).1, ground arith, ground arith)
            | inr refused ↦ inr ((v.validate_token token s).1, ground arith, ground arith)
          ]
        ]
      ]
