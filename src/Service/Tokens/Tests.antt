-- ===== src/Service/Tokens/Tests.antt =====
-- The methods on tokens at concrete inputs, in the world of Service.Sample.
use storemesh_user_service.Base.{◌≡◌, ◌≢◌, refl, ◌↔◌, inr, [], ◌∷◌}
use storemesh_user_service.Base.Int.{pos, ◌+ℤ◌}
use storemesh_user_service.Go.Text.{text, ◌==◌, trim_space, texts_eq, sort_strings, to_lower}
use storemesh_user_service.Go.Errors.{is, err_invalid_password, other}
use storemesh_user_service.Go.Action.{ok, err}
use storemesh_user_service.Domain.{TokenPair, TokenClaims, AuthSession, AuthRequest, is_active}
use storemesh_user_service.Domain.Contract.{put}
use storemesh_user_service.Service.{normalize_email}
use storemesh_user_service.Service.Sample.{
  World, alice, sample_service, sample_world, sample_session, map_store_laws, sample_separate,
  sample_jwt, sample_world_own, sample_claims,
}
use storemesh_user_service.Service.Tokens.{
  validate_token_as, refresh, logout, logout_all, authenticate, parse_token, check_session,
  claims_of, issue_token_pair, sign_jwt, role_names,
}
use storemesh_user_service.Service.Tokens.Validation.{Accepts, validate_token_as_iff}
use storemesh_user_service.Service.Tokens.Retirement.{DrawsNew, refresh_retires}
use storemesh_user_service.Service.Tokens.Revocation.{logout_ends_session, logout_all_ends_sessions}
use storemesh_user_service.Service.Tokens.Login.{authenticate_ok, authenticate_uniform, LoggedIn}

abbrev access_claims : TokenClaims
access_claims = claims_of (sample_claims (text "access") (text "a1")) (pos 900)

abbrev refresh_claims : TokenClaims
refresh_claims = claims_of (sample_claims (text "refresh") (text "r1")) (pos 900)

abbrev next_pair : TokenPair
next_pair = record { access_token = 1000 ∷ []; refresh_token = 1001 ∷ [] }

abbrev next_session : AuthSession
next_session = record sample_session {
  access_token_id = 1000 ∷ [];
  refresh_token_id = 1001 ∷ [];
  expires_at = pos 1100;
}

abbrev refreshed : World
refreshed = record { sessions = put (text "s1") next_session sample_world.sessions; drawn = 2 }

accepts_access :
    validate_token_as sample_service (text "access1") (text "") sample_world
    ≡ (ok (access_claims, sample_session), sample_world)
unfolding validate_token_as parse_token check_session ◌==◌ trim_space texts_eq
accepts_access = refl

accepts_as_access :
    validate_token_as sample_service (text "access1") (text "access") sample_world
    ≡ (ok (access_claims, sample_session), sample_world)
unfolding validate_token_as parse_token check_session ◌==◌ trim_space texts_eq
accepts_as_access = refl

accepts_refresh :
    validate_token_as sample_service (text "refresh1") (text "refresh") sample_world
    ≡ (ok (refresh_claims, sample_session), sample_world)
unfolding validate_token_as parse_token check_session ◌==◌ trim_space texts_eq
accepts_refresh = refl

refreshes : refresh sample_service (text "refresh1") sample_world ≡ (ok next_pair, refreshed)
unfolding refresh validate_token_as parse_token check_session ◌==◌ trim_space texts_eq
    issue_token_pair sign_jwt is_active role_names sort_strings ◌+ℤ◌
refreshes = refl

new_identifiers : DrawsNew sample_service map_store_laws sample_separate sample_world (text "a1")
new_identifiers = (λ h. cc h, λ h. cc h)

validate_token_as_iff_example :
    (validate_token_as sample_service (text "access1") (text "") sample_world
      ≡ (ok (access_claims, sample_session), sample_world))
    ↔ Accepts sample_service
        (text "access1")
        (text "")
        sample_world
        access_claims
        sample_session
        sample_world
validate_token_as_iff_example =
    validate_token_as_iff sample_service (text "access1") (text "") sample_world access_claims
      sample_session sample_world

refresh_retires_example :
    (validate_token_as sample_service (text "access1") (text "") refreshed).0
    ≢ ok (access_claims, sample_session)
refresh_retires_example =
    refresh_retires sample_service map_store_laws sample_separate sample_jwt (text "refresh1")
      (text "access1") sample_world next_pair refreshed refresh_claims access_claims sample_session
      sample_session sample_world sample_world sample_world_own refreshes accepts_refresh
      accepts_access refl new_identifiers refreshed refl (text "") (access_claims, sample_session)

abbrev closed : World
closed = (logout sample_service (text "access1") sample_world).1

logs_out : logout sample_service (text "access1") sample_world ≡ (ok tt, closed)
unfolding logout validate_token_as parse_token check_session ◌==◌ trim_space texts_eq
logs_out = refl

logout_ends_session_example :
    (validate_token_as sample_service (text "refresh1") (text "refresh") closed).0
    ≢ ok (refresh_claims, sample_session)
logout_ends_session_example =
    logout_ends_session sample_service map_store_laws sample_separate (text "access1") sample_world
      closed access_claims sample_session sample_world logs_out accepts_as_access closed refl
      (text "refresh1") (text "refresh") refresh_claims sample_session refl

abbrev all_closed : World
all_closed = (logout_all sample_service (text "access1") sample_world).1

logs_out_all : logout_all sample_service (text "access1") sample_world ≡ (ok tt, all_closed)
unfolding logout_all validate_token_as parse_token check_session ◌==◌ trim_space texts_eq
logs_out_all = refl

logout_all_ends_sessions_example :
    (validate_token_as sample_service (text "refresh1") (text "refresh") all_closed).0
    ≢ ok (refresh_claims, sample_session)
logout_all_ends_sessions_example =
    logout_all_ends_sessions sample_service map_store_laws sample_separate (text "access1")
      sample_world all_closed access_claims sample_session sample_world sample_world_own
      logs_out_all accepts_as_access all_closed refl (text "refresh1") (text "refresh")
      refresh_claims sample_session refl

abbrev login : AuthRequest
login = record { email = text " a@b.c "; password = text "secret" }

abbrev bad_login : AuthRequest
bad_login = record { email = text "a@b.c"; password = text "guess" }

abbrev login_pair : TokenPair
login_pair = record { access_token = 1001 ∷ []; refresh_token = 1002 ∷ [] }

abbrev logged_in : World
logged_in = (authenticate sample_service login sample_world).1

logs_in : authenticate sample_service login sample_world ≡ (ok (alice, login_pair), logged_in)
unfolding authenticate normalize_email ◌==◌ trim_space to_lower is_active issue_token_pair sign_jwt
    role_names
logs_in = refl

authenticate_ok_example : LoggedIn sample_service login sample_world alice login_pair logged_in
authenticate_ok_example =
    authenticate_ok sample_service login sample_world alice login_pair logged_in logs_in

authenticate_uniform_example :
    authenticate sample_service bad_login sample_world
    ≡ (err (is err_invalid_password), sample_world)
unfolding normalize_email ◌==◌ trim_space to_lower
authenticate_uniform_example =
    authenticate_uniform sample_service bad_login sample_world
      (inr (alice, other (text "mismatch"), refl, refl)) (λ h. cc h) (λ h. cc h)
