-- ===== src/Grpc/Requests/Tests.antt =====
-- Calls after a logout, in the world of Service.Sample, and after a change of roles, in that of
-- Repository.Users.Identity.Sample.
use storemesh_user_service.Base.{◌≡◌, ◌≢◌, ◌⊎◌, refl, [], ◌∷◌, true}
use storemesh_user_service.Base.Int.{pos}
use storemesh_user_service.Go.Text.{
  text, ◌==◌, is_space, trim_space, trim_left, trim_right, fields, fields_from, equal_fold,
  texts_eq, to_lower,
}
use storemesh_user_service.Go.Action.{ok}
use storemesh_user_service.Domain.{User, TokenClaims}
use storemesh_user_service.Auth.{
  Context, with_claims, parse_bearer_token, has_any_role, require_claims,
}
use storemesh_user_service.Service.Sample.{
  World, sample_service, sample_session, two_sessions, other_claims, map_store_laws,
  sample_separate,
}
use storemesh_user_service.Service.Tokens.{
  validate_token, validate_token_as, parse_token, check_session, claims_of, logout,
}
use storemesh_user_service.Service.Users.{assign_role}
use storemesh_user_service.Grpc.{
  reply, fail, Handler, authentication, is_public, public_methods, unauthenticated_error,
}
use storemesh_user_service.Grpc.Server.{
  logout_call, assign_role_call, access_token_from_metadata, require_role, to_proto,
}
use storemesh_user_service.Grpc.Access.{Admission}
use storemesh_user_service.Grpc.Requests.{
  service_validator, calls_after_logout, calls_after_role_change,
}
use storemesh_user_service.Service.{UserService}
use storemesh_user_service.Repository.Models.{parse_user_id, to_domain_user, status_of}
use storemesh_user_service.Repository.Users.{
  get_by_id, ensure_active_user_exists, find_role_by_name, user_repository,
}
use storemesh_user_service.Repository.Users.Tables.{Tables, select}
use storemesh_user_service.Repository.Users.Sample.{
  memory_users, memory_users_laws, short_uuids, loaded_rows, row_b, start,
}
use storemesh_user_service.Repository.Users.Identity.{with_repository}
use storemesh_user_service.Repository.Users.Identity.Sample.{
  service, fixed_store_laws, fixed_separate,
}
use storemesh_user_service.Grpc.Sample.{
  unicode, call_with, access_claims, caller, admin_claims, show_caller, get_user_method, is_private,
}

-- A logout of the first session; the other session stays open.
abbrev logged_out : World
logged_out = (logout sample_service (text "access1") two_sessions).1

finds_token :
    access_token_from_metadata unicode (call_with (text "Bearer access1")) ≡ ok (text "access1")
unfolding access_token_from_metadata parse_bearer_token trim_space trim_left trim_right is_space
    fields fields_from equal_fold ◌==◌
finds_token = refl

logs_out :
    logout_call sample_service (call_with (text "Bearer access1")) two_sessions
    ≡ (reply true, logged_out)
unfolding logout_call access_token_from_metadata parse_bearer_token trim_space trim_left trim_right
    is_space fields fields_from equal_fold ◌==◌ logout validate_token_as parse_token check_session
    texts_eq
logs_out = refl

accepts_first :
    validate_token_as sample_service (text "access1") (text "access") two_sessions
    ≡ (ok (access_claims, sample_session), two_sessions)
unfolding validate_token_as parse_token check_session ◌==◌ trim_space texts_eq
accepts_first = refl

calls_after_logout_example :
    ((claims : TokenClaims) × (s3 : World) × Admission unicode
        (service_validator sample_service)
        (call_with (text "Bearer access2"))
        logged_out
        claims
        s3
      × (claims.session_id ≢ text "s1")
      × (authentication unicode
            (service_validator sample_service)
            show_caller
            public_methods
            get_user_method
            (call_with (text "Bearer access2"))
            logged_out
          ≡ show_caller (with_claims (call_with (text "Bearer access2")) claims) s3))
    ⊎ ((authentication unicode
          (service_validator sample_service)
          show_caller
          public_methods
          get_user_method
          (call_with (text "Bearer access2"))
          logged_out).0
        ≡ fail unauthenticated_error)
calls_after_logout_example =
    calls_after_logout sample_service map_store_laws sample_separate
      (call_with (text "Bearer access1")) (text "access1") two_sessions true logged_out
      access_claims sample_session two_sessions finds_token logs_out accepts_first show_caller
      public_methods get_user_method is_private (call_with (text "Bearer access2")) logged_out refl

-- The first token is refused after the logout, and the other session's is let through.
abbrev second_claims : TokenClaims
second_claims = claims_of other_claims (pos 900)

first_refused :
    (authentication unicode
      (service_validator sample_service)
      show_caller
      public_methods
      get_user_method
      (call_with (text "Bearer access1"))
      logged_out).0
    ≡ fail unauthenticated_error
unfolding authentication is_public validate_token validate_token_as parse_token check_session ◌==◌
    trim_space texts_eq logout parse_bearer_token trim_left trim_right is_space fields fields_from
    equal_fold
first_refused = refl

second_admitted :
    authentication unicode
      (service_validator sample_service)
      show_caller
      public_methods
      get_user_method
      (call_with (text "Bearer access2"))
      logged_out
    ≡ show_caller (with_claims (call_with (text "Bearer access2")) second_claims) logged_out
unfolding authentication is_public validate_token validate_token_as parse_token check_session ◌==◌
    trim_space texts_eq logout parse_bearer_token trim_left trim_right is_space fields fields_from
    equal_fold
second_admitted = refl

-- `uB` becomes a seller, in the world of Repository.Users.Identity.Sample.
abbrev whole : UserService Tables
whole = with_repository service memory_users

abbrev show_caller_there : Handler Tables (Context)
show_caller_there ctx s = (reply ctx, s)

abbrev seller_b : User
seller_b = record (to_domain_user short_uuids row_b) {
  roles = record { id = text "uS"; name = text "seller"; description = text "" } ∷ [];
}

abbrev with_seller : Tables
with_seller = (assign_role whole (text "uB") (text "seller") start).1

sells :
    assign_role_call whole (text "uB") (text "seller") (caller admin_claims) start
    ≡ (reply (to_proto seller_b), with_seller)
unfolding assign_role_call require_role require_claims has_any_role equal_fold assign_role
    user_repository storemesh_user_service.Repository.Users.assign_role parse_user_id
    ensure_active_user_exists find_role_by_name select ◌==◌ get_by_id loaded_rows to_domain_user
    status_of trim_space to_lower
sells = refl

parses_b : parse_user_id short_uuids (trim_space (text "uB")) ≡ ok b'B'
unfolding parse_user_id trim_space
parses_b = refl

own_form : text "uB" ≡ trim_space (text "uB")
unfolding trim_space
own_form = refl

calls_after_role_change_example :
    ((claims : TokenClaims) × (s3 : Tables) × Admission unicode
        (service_validator whole)
        (call_with (text "Bearer tokB"))
        with_seller
        claims
        s3
      × (claims.user_id ≢ (to_proto seller_b).id)
      × (authentication unicode
            (service_validator whole)
            show_caller_there
            public_methods
            get_user_method
            (call_with (text "Bearer tokB"))
            with_seller
          ≡ show_caller_there (with_claims (call_with (text "Bearer tokB")) claims) s3))
    ⊎ ((authentication unicode
          (service_validator whole)
          show_caller_there
          public_methods
          get_user_method
          (call_with (text "Bearer tokB"))
          with_seller).0
        ≡ fail unauthenticated_error)
unfolding fixed_store_laws
calls_after_role_change_example =
    calls_after_role_change service memory_users memory_users_laws fixed_store_laws fixed_separate
      (caller admin_claims) (text "uB") (text "seller") b'B' start (to_proto seller_b) with_seller
      tt parses_b own_form sells show_caller_there public_methods get_user_method is_private
      (call_with (text "Bearer tokB")) with_seller refl
