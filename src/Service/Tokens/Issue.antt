-- ===== src/Service/Tokens/Issue.antt =====
-- What `issueTokenPair` issues.
use storemesh_user_service.Base.{◌≡◌, arith}
use storemesh_user_service.Go.Text.{Text}
use storemesh_user_service.Go.Action.{ok}
use storemesh_user_service.Go.Time.{Time, add_time}
use storemesh_user_service.Domain.{
  User, TokenPair, AuthSession, token_type_access, token_type_refresh,
}
use storemesh_user_service.Service.{UserService}
use storemesh_user_service.Service.Tokens.{issue_token_pair, sign_jwt, claims_for, role_names}

module _ {S : Type 0} (svc : UserService S) where
  -- The state after the clock has been read, and after one and two identifiers have been drawn.
  abbrev pub timed : S → S
  timed s = (svc.platform.now s).1

  abbrev pub drawn : S → S
  drawn s = (svc.platform.new_uuid (timed s)).1

  abbrev pub drawn_twice : S → S
  drawn_twice s = (svc.platform.new_uuid (drawn s)).1

  -- The session is the user's, under the given id, with the two identifiers drawn; both tokens
  -- carry its user, email and roles, and each its own identifier and type.
  pub record Issued (user : User) (session_id : Text) (s : S) (pair : TokenPair) (x : AuthSession)
      : Type 0 where
    pub id : x.id ≡ session_id
    pub user_id : x.user_id ≡ user.id
    pub email : x.email ≡ user.email
    pub roles : x.roles ≡ role_names user.roles
    pub access_id : x.access_token_id ≡ (svc.platform.new_uuid (timed s)).0
    pub refresh_id : x.refresh_token_id ≡ (svc.platform.new_uuid (drawn s)).0
    pub expires : x.expires_at ≡ add_time (svc.platform.now s).0 svc.refresh_ttl
    pub access :
        svc.platform.jwt.signed_string svc.platform.jwt.hs256
          (claims_for svc user x.roles token_type_access x.id x.access_token_id
            (svc.platform.now s).0
            (add_time (svc.platform.now s).0 svc.access_ttl))
          svc.secret
        ≡ ok pair.access_token
    pub refresh :
        svc.platform.jwt.signed_string svc.platform.jwt.hs256
          (claims_for svc user x.roles token_type_refresh x.id x.refresh_token_id
            (svc.platform.now s).0
            x.expires_at)
          svc.secret
        ≡ ok pair.refresh_token

  pub issue_token_pair_ok :
      (user : User) (session_id : Text) (at : Time) (s : S) (pair : TokenPair) (x : AuthSession)
      → (issue_token_pair svc user session_id at s).0 ≡ ok (pair, x)
      → Issued user session_id s pair x
  unfolding issue_token_pair sign_jwt
  issue_token_pair_ok user session_id at s pair x h = ground arith

  pub issue_token_pair-state :
      (user : User) (session_id : Text) (at : Time) (s : S) (r : TokenPair × AuthSession)
      → (issue_token_pair svc user session_id at s).0 ≡ ok r
      → (issue_token_pair svc user session_id at s).1 ≡ drawn_twice s
  unfolding issue_token_pair sign_jwt
  issue_token_pair-state user session_id at s r h = ground arith
