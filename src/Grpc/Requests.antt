-- ===== src/Grpc/Requests.antt =====
-- Calls after a logout or a change of roles: the interceptor, the methods and the service together.
mod Tests
use storemesh_user_service.Base.{
  ◌≡◌, ◌≢◌, ◌⊎◌, [], ◌∷◌, inl, inr, refl, Bool, false, List, ◌∙◌, arith,
}
use storemesh_user_service.Go.Text.{Text, text, trim_space}
use storemesh_user_service.Go.Action.{ok}
use storemesh_user_service.Go.Action.Laws.{Result-cases, Returns}
use storemesh_user_service.Domain.{User, TokenClaims, AuthSession, token_type_access, role_admin}
use storemesh_user_service.Domain.Contract.{SessionLaws}
use storemesh_user_service.Auth.{Context, with_claims, TokenValidator}
use storemesh_user_service.Service.{UserService}
use storemesh_user_service.Service.Contract.{Separate}
use storemesh_user_service.Service.Tokens.{validate_token_as, validate_token, logout}
use storemesh_user_service.Service.Tokens.Revocation.{logout_ends_session}
use storemesh_user_service.Service.Users.{assign_role}
use storemesh_user_service.Repository.Models.{Uuid, parse_user_id}
use storemesh_user_service.Repository.Users.{Users}
use storemesh_user_service.Repository.Users.Tables.{UsersLaws}
use storemesh_user_service.Repository.Users.Identity.{with_repository}
use storemesh_user_service.Repository.Users.Revocation.{assigned_user_revoked}
use storemesh_user_service.Grpc.{
  reply, fail, Status, Handler, authentication, is_public, unauthenticated_error,
}
use storemesh_user_service.Grpc.Server.{
  logout_call, assign_role_call, access_token_from_metadata, UserMessage, require_role, Checked,
  fine, bad,
}
use storemesh_user_service.Grpc.Access.{Admission, authentication_cases}

-- The service as the validator of the interceptor.
abbrev pub service_validator : {S : Type 0} → UserService S → TokenValidator S
service_validator svc = record { validate_token = validate_token svc }

Checked-cases :
    {A : Type 0} (r : Checked A) → ((a : A) × (r ≡ fine a)) ⊎ ((e : Status) × (r ≡ bad e))
Checked-cases (fine a) = inl (a, refl)
Checked-cases (bad e) = inr (e, refl)

module _ {S : Type 0} (svc : UserService S) where
  validated_ok :
      (token : Text) (s : S) (t : TokenClaims) (s' : S)
      → Returns (validate_token svc token) s t s'
      → (x : AuthSession) × ((validate_token_as svc token (text "") s).0 ≡ ok (t, x))
  unfolding validate_token
  validated_ok token s t s' h = elim (Result-cases (validate_token_as svc token (text "") s).0) [
    | inr (e, p) ↦ absurd (ground arith)
    | inl ((c, x), p) ↦ (x, ground arith)
  ]

  logout_call_ok :
      (ctx : Context) (token : Text) (s : S) (b : Bool) (s' : S)
      → access_token_from_metadata svc.platform.unicode ctx ≡ ok token
      → logout_call svc ctx s ≡ (reply b, s')
      → Returns (logout svc token) s tt s'
  unfolding logout_call
  logout_call_ok ctx token s b s' found h = elim (Result-cases (logout svc token s).0) [
    | inr (e, p) ↦ absurd (ground arith)
    | inl (w, p) ↦ ground arith
  ]

  assign_role_call_ok :
      (ctx : Context) (id role : Text) (s : S) (m : UserMessage) (s' : S)
      → assign_role_call svc id role ctx s ≡ (reply m, s')
      → (u : User) × Returns (assign_role svc id role) s u s' × (m.id ≡ u.id)
  unfolding assign_role_call
  assign_role_call_ok ctx id role s m s' h =
      elim (Checked-cases (require_role svc.platform.unicode ctx (role_admin ∷ []))) [
        | inr (e, p) ↦ absurd (ground arith)
        | inl (w, p) ↦ elim (Result-cases (assign_role svc id role s).0) [
          | inr (e, p) ↦ absurd (ground arith)
          | inl (w, p) ↦ (w, ground arith, ground arith)
        ]
      ]

  module _ (laws : SessionLaws svc.sessions) (sep : Separate svc laws) where
    -- After a call of `Logout` was answered, for any handler behind the interceptor, a call of a
    -- method that is not public is, in any state with the same stored sessions, either refused as
    -- unauthenticated or runs the handler with the claims of a token that the validator accepted,
    -- which is of another session than the access token that was sent with the `Logout`.
    pub calls_after_logout :
        {A : Type 0}
        → (ctx : Context) (token : Text) (s : S) (b : Bool) (s' : S) (tc : TokenClaims)
          (xc : AuthSession) (sc : S)
        → access_token_from_metadata svc.platform.unicode ctx ≡ ok token
        → logout_call svc ctx s ≡ (reply b, s')
        → Returns (validate_token_as svc token token_type_access) s (tc, xc) sc
        → (handler : Handler S A) (methods : List Text) (method : Text)
        → is_public methods method ≡ false
        → (later : Context) (s2 : S) → laws.live s2 ≡ laws.live s'
        → ((claims : TokenClaims) × (s3 : S) × Admission svc.platform.unicode
              (service_validator svc)
              later
              s2
              claims
              s3
            × (claims.session_id ≢ tc.session_id)
            × (authentication svc.platform.unicode
                  (service_validator svc)
                  handler
                  methods
                  method
                  later
                  s2
                ≡ handler (with_claims later claims) s3))
          ⊎ ((authentication svc.platform.unicode
                (service_validator svc)
                handler
                methods
                method
                later
                s2).0
              ≡ fail unauthenticated_error)
    calls_after_logout ctx token s b s' tc xc sc found h ht handler methods method private later s2
          live =
        elim (authentication_cases svc.platform.unicode (service_validator svc) handler methods
          method later s2 private) [
            | inl (claims, s3, a, run) ↦
                let (x, accepted) = validated_ok a.token s2 claims s3 a.validated in
                inl (
                  claims,
                  s3,
                  a,
                  λ same.
                      logout_ends_session svc laws sep token s s' tc xc sc
                        (logout_call_ok ctx token s b s' found h) ht s2 live a.token (text "")
                        claims x same accepted,
                  run,
                )
            | inr (none_admitted, refused) ↦ inr refused
          ]

module _ {S : Type 0} (svc : UserService S) (r : Users S) (users : UsersLaws r)
    (laws : SessionLaws svc.sessions) (sep : Separate (with_repository svc r) laws) where
  abbrev whole : UserService S
  whole = with_repository svc r

  -- After a call of `AssignRole` was answered, where the session store was consistent and the id
  -- without surrounding space is the text that the repository writes for its UUID, for any handler
  -- behind the interceptor, a call of a method that is not public is, in any state with the same
  -- stored sessions, either refused as unauthenticated or runs the handler with the claims of a token
  -- that the validator accepted, which is of another user than the one in the answer.
  pub calls_after_role_change :
      {A : Type 0}
      → (ctx : Context) (id role : Text) (uuid : Uuid) (s : S) (m : UserMessage) (s' : S)
      → laws.Inv s
      → parse_user_id r.uuids (trim_space id) ≡ ok uuid
      → r.uuids.to_string uuid ≡ trim_space id
      → assign_role_call (with_repository svc r) id role ctx s ≡ (reply m, s')
      → (handler : Handler S A) (methods : List Text) (method : Text)
      → is_public methods method ≡ false
      → (later : Context) (s2 : S) → laws.live s2 ≡ laws.live s'
      → ((claims : TokenClaims) × (s3 : S) × Admission svc.platform.unicode
            (service_validator (with_repository svc r))
            later
            s2
            claims
            s3
          × (claims.user_id ≢ m.id)
          × (authentication svc.platform.unicode
                (service_validator (with_repository svc r))
                handler
                methods
                method
                later
                s2
              ≡ handler (with_claims later claims) s3))
        ⊎ ((authentication svc.platform.unicode
              (service_validator (with_repository svc r))
              handler
              methods
              method
              later
              s2).0
            ≡ fail unauthenticated_error)
  calls_after_role_change ctx id role uuid s m s' i p own h handler methods method private later s2
        live =
      elim (authentication_cases svc.platform.unicode (service_validator whole) handler methods
        method later s2 private) [
          | inl (claims, s3, a, run) ↦
              let (x, accepted) = validated_ok whole a.token s2 claims s3 a.validated in
              let (u, changed, shown) = assign_role_call_ok whole ctx id role s m s' h in
              inl (
                claims,
                s3,
                a,
                λ same.
                    assigned_user_revoked svc r users laws sep id role uuid s u s' i p own changed
                      s2 live a.token (text "") claims x (same ∙ shown) accepted,
                run,
              )
          | inr (none_admitted, refused) ↦ inr refused
        ]
