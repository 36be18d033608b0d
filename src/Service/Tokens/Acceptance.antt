-- ===== src/Service/Tokens/Acceptance.antt =====
-- A login's access token is accepted by `ValidateToken`.
mod Tests
use storemesh_user_service.Base.{◌≡◌, ◌≢◌, inr, [], ◌∷◌, true, some}
use storemesh_user_service.Go.Text.{Text, text, ◌==◌}
use storemesh_user_service.Go.Text.Laws.{eq_ne}
use storemesh_user_service.Go.Action.{ok}
use storemesh_user_service.Go.Action.Laws.{Result-cases}
use storemesh_user_service.Go.Time.{Time, add_time}
use storemesh_user_service.Domain.{User, AuthRequest, token_type_access}
use storemesh_user_service.Domain.Contract.{SessionLaws, Sessions}
use storemesh_user_service.Service.{UserService, JwtClaims, normalize_email}
use storemesh_user_service.Service.Contract.{Separate, Keeps}
use storemesh_user_service.Service.Tokens.{
  validate_token_as, claims_for, key_function, parser_options, role_names,
}
use storemesh_user_service.Service.Tokens.Issue.{timed}

-- Parsing a token that was signed with the secret gives its claims back, as long as the clock is
-- within the times that they state, and an identifier that is drawn is not blank.
pub record SignedLaws {S : Type 0} (svc : UserService S) : Type 1 where
  pub InTime : JwtClaims → S → Type 0
  pub signed_reads :
      (c : JwtClaims) (token : Text) (s : S)
      → svc.platform.jwt.signed_string svc.platform.jwt.hs256 c svc.secret ≡ ok token
      → c.issuer ≡ svc.issuer
      → c.audience ≡ svc.audience ∷ []
      → InTime c s
      → (svc.platform.jwt.parse_with_claims token (key_function svc) (parser_options svc) s).0
        ≡ ok (some (record { valid = true; claims = c }))
  pub uuid_given : (s : S) → (svc.platform.new_uuid s).0 ≢ text ""

module _ {S : Type 0} (svc : UserService S) (laws : SessionLaws svc.sessions)
    (sep : Separate svc laws) (signed : SignedLaws svc) where
  -- The claims of the access token that a login issues from the state `issuing`.
  abbrev pub access_claims : User → Text → S → JwtClaims
  access_claims user session_id issuing =
      claims_for svc user (role_names user.roles) token_type_access session_id
        (svc.platform.new_uuid (timed svc issuing)).0 (svc.platform.now issuing).0
        (add_time (svc.platform.now issuing).0 svc.access_ttl)

  -- A login looks up the user, draws the session's identifier and reads the clock.
  abbrev pub found_user : AuthRequest → S → S
  found_user req s = (svc.users.get_by_email (normalize_email svc.platform.unicode req.email) s).1

  abbrev pub drawn_session : AuthRequest → S → Text
  drawn_session req s = (svc.platform.new_uuid (found_user req s)).0

  abbrev pub before_issue : AuthRequest → S → S
  before_issue req s = (svc.platform.now (svc.platform.new_uuid (found_user req s)).1).1
