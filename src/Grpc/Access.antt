-- ===== src/Grpc/Access.antt =====
-- Which calls the interceptor `Authentication` and the methods' own checks let through.
use storemesh_user_service.Base.{
  ◌≡◌, ◌≢◌, ◌↔◌, ◌⊎◌, inl, inr, List, [], ◌∷◌, Bool, false, ◌^◌, ◌-◌, Option, none, some, arith,
  Bool-cases, Option-cases,
}
use storemesh_user_service.Base.Int.{ℤ, pos, negsuc, ◌≤ℤ◌}
use storemesh_user_service.Go.Text.{Text, text, ◌==◌, Unicode}
use storemesh_user_service.Go.Text.Laws.{eq_iff, eq_ne}
use storemesh_user_service.Go.Action.{ok}
use storemesh_user_service.Go.Action.Laws.{Result-cases, Returns}
use storemesh_user_service.Domain.{TokenClaims, token_type_access, ListUsersRequest}
use storemesh_user_service.Auth.{
  Context, TokenValidator, with_claims, require_claims, has_any_role, parse_bearer_token,
}
use storemesh_user_service.Service.{UserService}
use storemesh_user_service.Service.Users.{Float64}
use storemesh_user_service.Grpc.{
  fail, Status, Handler, authentication, is_public, authorization_of, unauthenticated_error,
}
use storemesh_user_service.Grpc.Server.{
  fine, int_to_int32, authentication_required, forbidden, require_self_or_role, require_role,
  get_user_call, delete_user_call, get_user_roles_call, list_users_call, list_roles_call,
  assign_role_call, revoke_role_call,
}

-- The metadata of the call has a bearer token that the validator accepts as an access token.
pub record Admission {S : Type 0} (u : Unicode) (v : TokenValidator S) (ctx : Context) (s : S)
    (claims : TokenClaims) (s' : S) : Type 0 where
  pub authorization : Text
  pub value : authorization_of ctx.incoming ≡ ok authorization
  pub token : Text
  pub parsed : parse_bearer_token u authorization ≡ ok token
  pub validated : Returns (v.validate_token token) s claims s'
  pub access : claims.token_type ≡ token_type_access

module _ {S A : Type 0} (u : Unicode) (v : TokenValidator S) (handler : Handler S A) where
  -- For a method that is not public, either the call carries a bearer token that the validator
  -- accepts as an access token, and the handler runs with these claims in the state that the
  -- validation left; or it carries none, and the call is refused as unauthenticated.
  pub authentication_cases :
      (methods : List Text) (method : Text) (ctx : Context) (s : S)
      → is_public methods method ≡ false
      → ((claims : TokenClaims) × (s' : S) × Admission u v ctx s claims s'
          × (authentication u v handler methods method ctx s ≡ handler (with_claims ctx claims) s'))
        ⊎ (((claims : TokenClaims) (s' : S) → Admission u v ctx s claims s' → ⊥)
            × ((authentication u v handler methods method ctx s).0 ≡ fail unauthenticated_error))
  unfolding authentication
  authentication_cases methods method ctx s private =
      elim (Result-cases (authorization_of ctx.incoming)) [
        | inr (e, p) ↦ inr (λ c s' a. ground (arith, a.value), ground arith)
        | inl (value, p) ↦ elim (Result-cases (parse_bearer_token u value)) [
          | inr (e, q) ↦ inr (λ c s' a. ground (arith, a.value, a.parsed), ground arith)
          | inl (token, q) ↦ elim (Result-cases (v.validate_token token s).0) [
            | inr (e, r) ↦
                inr (λ c s' a. ground (arith, a.value, a.parsed, a.validated), ground arith)
            | inl (claims, r) ↦ elim (Bool-cases (claims.token_type == token_type_access)) [
              | inr other ↦ inr (
                λ c s' a. ground (
                  arith,
                  a.value,
                  a.parsed,
                  a.validated,
                  a.access,
                  eq_iff c.token_type token_type_access,
                ),
                ground arith,
              )
              | inl access ↦ inl (
                claims,
                (v.validate_token token s).1,
                record {
                  authorization = value;
                  value = p;
                  token = token;
                  parsed = q;
                  validated = ground arith;
                  access = ground (arith, eq_iff claims.token_type token_type_access);
                },
                ground arith,
              )
            ]
          ]
        ]
      ]

-- How the methods refuse a call whose claims do not suffice.
abbrev pub denied : Option TokenClaims → Status
denied none = authentication_required
denied (some claims) = forbidden

module _ {S : Type 0} (svc : UserService S) where
  abbrev is_admin : Context → Bool
  is_admin ctx = has_any_role svc.platform.unicode ctx.claims (text "admin" ∷ [])

  -- Without the admin role a call lists no users and no roles, and assigns and revokes no role: it
  -- is refused, and no state changes.
  pub admin_calls_refused :
      {F : Type 0} (float : Float64 F) (ctx : Context) (s : S)
      → is_admin ctx ≡ false
      → ((req : ListUsersRequest)
          → list_users_call svc float req ctx s ≡ (fail (denied ctx.claims), s))
        × (list_roles_call svc ctx s ≡ (fail (denied ctx.claims), s))
        × ((id role : Text) → assign_role_call svc id role ctx s ≡ (fail (denied ctx.claims), s))
        × ((id role : Text) → revoke_role_call svc id role ctx s ≡ (fail (denied ctx.claims), s))
  unfolding list_users_call list_roles_call assign_role_call revoke_role_call require_role
      require_claims has_any_role
  admin_calls_refused float ctx s h = elim (Option-cases ctx.claims) [
    | inl p ↦ (λ req. ground arith, ground arith, λ id role. ground arith, λ id role. ground arith)
    | inr (claims, p) ↦
        (λ req. ground arith, ground arith, λ id role. ground arith, λ id role. ground arith)
  ]

  -- A call for an account whose caller neither is its user nor has the admin role is refused, and
  -- no state changes: it reads no account and no roles, and deletes nothing.
  pub self_calls_refused :
      (ctx : Context) (s : S) (id : Text)
      → is_admin ctx ≡ false
      → ((claims : TokenClaims) → ctx.claims ≡ some claims → claims.user_id ≢ id)
      → (get_user_call svc id ctx s ≡ (fail (denied ctx.claims), s))
        × (delete_user_call svc id ctx s ≡ (fail (denied ctx.claims), s))
        × (get_user_roles_call svc id ctx s ≡ (fail (denied ctx.claims), s))
  unfolding get_user_call delete_user_call get_user_roles_call require_self_or_role require_claims
      has_any_role
  self_calls_refused ctx s id h other = elim (Option-cases ctx.claims) [
    | inl p ↦ (ground arith, ground arith, ground arith)
    | inr (claims, p) ↦
        let stranger : (claims.user_id == id) ≡ false = eq_ne claims.user_id id (other claims p) in
        (ground arith, ground arith, ground arith)
  ]

-- `intToInt32` returns a value of 32 bits unchanged, and refuses every other.
pub int_to_int32_iff :
    (value narrowed : ℤ)
    → (int_to_int32 value ≡ fine narrowed)
      ↔ ((narrowed ≡ value) × (negsuc (2 ^ 31 - 1) ≤ℤ value) × (value ≤ℤ pos (2 ^ 31 - 1)))
unfolding int_to_int32
int_to_int32_iff value narrowed = ground arith
