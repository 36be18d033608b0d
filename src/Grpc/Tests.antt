-- ===== src/Grpc/Tests.antt =====
-- Calls at concrete inputs, in the world of Service.Sample.
use storemesh_user_service.Base.{◌≡◌, ◌⊎◌, refl, [], ◌∷◌, false, none, some, Option, suc, arith}
use storemesh_user_service.Base.Int.{ℤ, pos}
use storemesh_user_service.Go.Text.{Text, text, ◌==◌, equal_fold}
use storemesh_user_service.Domain.{TokenClaims, ListUsersRequest}
use storemesh_user_service.Auth.{Context, with_claims, has_any_role}
use storemesh_user_service.Service.Sample.{World, sample_service, sample_world}
use storemesh_user_service.Service.Users.{Float64}
use storemesh_user_service.Grpc.{
  Reply, reply, fail, Handler, authentication, is_public, public_methods, unauthenticated_error,
  panicked, chain, Status, authorization_of,
}
use storemesh_user_service.Grpc.Server.{
  fine, int_to_int32, logout_call, assign_role_call, get_user_call, delete_user_call,
  get_user_roles_call, list_users_call, list_roles_call, access_token_from_metadata, require_role,
  authentication_required, forbidden, UserMessage, to_proto,
}
use storemesh_user_service.Grpc.Access.{
  Admission, authentication_cases, admin_calls_refused, self_calls_refused,
}
use storemesh_user_service.Grpc.Interceptors.{chain_refused_unlogged}
use storemesh_user_service.Grpc.Requests.{service_validator}
use storemesh_user_service.Grpc.Sample.{
  unicode, call_with, access_claims, caller, show_caller, get_user_method, is_private,
}

authentication_cases_example :
    ((claims : TokenClaims) × (s' : World) × Admission unicode
        (service_validator sample_service)
        (call_with (text "Bearer access1"))
        sample_world
        claims
        s'
      × (authentication unicode
            (service_validator sample_service)
            show_caller
            public_methods
            get_user_method
            (call_with (text "Bearer access1"))
            sample_world
          ≡ show_caller (with_claims (call_with (text "Bearer access1")) claims) s'))
    ⊎ (((claims : TokenClaims) (s' : World)
          → Admission unicode
              (service_validator sample_service)
              (call_with (text "Bearer access1"))
              sample_world
              claims
              s'
          → ⊥)
        × ((authentication unicode
              (service_validator sample_service)
              show_caller
              public_methods
              get_user_method
              (call_with (text "Bearer access1"))
              sample_world).0
            ≡ fail unauthenticated_error))
authentication_cases_example =
    authentication_cases unicode (service_validator sample_service) show_caller public_methods
      get_user_method (call_with (text "Bearer access1")) sample_world is_private

abbrev one_page : Float64 ℤ
one_page = record { of_int = λ n. n; divide = λ a b. pos 1; ceil = λ a. a; to_int = λ a. a }

no_admin : has_any_role unicode (some access_claims) (text "admin" ∷ []) ≡ false
unfolding has_any_role equal_fold ◌==◌
no_admin = refl

admin_calls_refused_example :
    ((req : ListUsersRequest)
      → list_users_call sample_service one_page req (caller access_claims) sample_world
        ≡ (fail forbidden, sample_world))
    × (list_roles_call sample_service (caller access_claims) sample_world
        ≡ (fail forbidden, sample_world))
    × ((id role : Text)
        → assign_role_call sample_service id role (caller access_claims) sample_world
          ≡ (fail forbidden, sample_world))
    × ((id role : Text)
        → storemesh_user_service.Grpc.Server.revoke_role_call sample_service id role
            (caller access_claims)
            sample_world
          ≡ (fail forbidden, sample_world))
admin_calls_refused_example =
    admin_calls_refused sample_service one_page (caller access_claims) sample_world no_admin

self_calls_refused_example :
    (get_user_call sample_service (text "u2") (caller access_claims) sample_world
      ≡ (fail forbidden, sample_world))
    × (delete_user_call sample_service (text "u2") (caller access_claims) sample_world
        ≡ (fail forbidden, sample_world))
    × (get_user_roles_call sample_service (text "u2") (caller access_claims) sample_world
        ≡ (fail forbidden, sample_world))
self_calls_refused_example =
    self_calls_refused sample_service (caller access_claims) sample_world (text "u2") no_admin
      (λ claims h e. ground arith)

abbrev crashing : Handler World Text
crashing ctx s = (panicked (text "nil map"), s)

-- A logger that leaves a trace, and one that does not.
abbrev counting : Option Status → World → World
counting status w = record w { drawn = suc w.drawn }

abbrev panic_log : Text → World → World
panic_log m w = record w { drawn = suc w.drawn }

abbrev silent : Option Status → World → World
silent status w = w

abbrev anonymous : Context
anonymous = record { claims = none; incoming = none }

never_admitted :
    (claims : TokenClaims) (s' : World)
    → Admission unicode (service_validator sample_service) anonymous sample_world claims s'
    → ⊥
never_admitted claims s' a = cc a.value

chain_refused_unlogged_example :
    chain unicode
      (service_validator sample_service)
      panic_log
      counting
      get_user_method
      show_caller
      anonymous
      sample_world
    ≡ chain unicode
        (service_validator sample_service)
        panic_log
        silent
        get_user_method
        show_caller
        anonymous
        sample_world
chain_refused_unlogged_example =
    chain_refused_unlogged unicode (service_validator sample_service) get_user_method show_caller
      anonymous sample_world panic_log counting silent is_private never_admitted
