-- ===== src/Service/Tokens/Rotation.antt =====
-- `RefreshToken`: what a successful refresh has done, and which tokens it retires.
use storemesh_user_service.Base.{◌≡◌, refl, inl, inr, true, some, arith}
use storemesh_user_service.Go.Text.{Text}
use storemesh_user_service.Go.Action.{ok}
use storemesh_user_service.Go.Action.Laws.{Result-cases, Returns}
use storemesh_user_service.Domain.{
  User, TokenPair, TokenClaims, AuthSession, token_type_refresh, is_active,
}
use storemesh_user_service.Service.{UserService}
use storemesh_user_service.Service.Tokens.{validate_token_as, refresh, issue_token_pair}
use storemesh_user_service.Service.Tokens.Issue.{
  Issued, issue_token_pair_ok, issue_token_pair-state, drawn_twice,
}

module _ {S : Type 0} (svc : UserService S) where
  -- A run of `RefreshToken` that returned `pair`: the token was accepted as a refresh token, its
  -- user is active, and the session was rotated to the one issued with `pair`.
  pub record Refreshed (token : Text) (s : S) (pair : TokenPair) (s' : S) : Type 0 where
    pub claims : TokenClaims
    pub current : AuthSession
    pub next : AuthSession
    pub user : User
    pub accepted :
        Returns
          (validate_token_as svc token token_type_refresh)
          s
          (claims, current)
          (validate_token_as svc token token_type_refresh s).1
    pub found :
        (svc.users.get_by_id claims.user_id (validate_token_as svc token token_type_refresh s).1).0
        ≡ ok user
    pub active : is_active (some user) ≡ true
    pub issuing : S
    pub issuing_at :
        issuing
        ≡ (svc.users.get_by_id claims.user_id
            (validate_token_as svc token token_type_refresh s).1).1
    pub issued : Issued svc user current.id issuing pair next
    pub rotated :
        svc.sessions.rotate current.id claims.token_id next svc.refresh_ttl
          (drawn_twice svc issuing)
        ≡ (ok tt, s')

  pub refresh_ok :
      (token : Text) (s : S) (pair : TokenPair) (s' : S)
      → Returns (refresh svc token) s pair s'
      → Refreshed token s pair s'
  unfolding refresh
  refresh_ok token s pair s' h =
      elim (Result-cases (validate_token_as svc token token_type_refresh s).0) [
        | inr (e, p) ↦ ground arith
        | inl ((claims, current), p) ↦
            let s1 = (validate_token_as svc token token_type_refresh s).1 in
            elim (Result-cases (svc.users.get_by_id claims.user_id s1).0) [
              | inr (e, q) ↦ ground arith
              | inl (user, q) ↦
                  let s2 = (svc.users.get_by_id claims.user_id s1).1 in
                  elim (Result-cases
                    (issue_token_pair svc user current.id current.created_at s2).0) [
                      | inr (e, r) ↦ ground arith
                      | inl ((pair', next), r) ↦
                          let at =
                            issue_token_pair-state svc user current.id current.created_at s2
                              (pair', next) r in
                          let same : pair' ≡ pair = ground arith in
                          record {
                            claims = claims;
                            current = current;
                            next = next;
                            user = user;
                            accepted = ground arith;
                            found = q;
                            active = ground arith;
                            issuing = s2;
                            issuing_at = refl;
                            issued =
                                issue_token_pair_ok svc user current.id current.created_at s2 pair
                                  next (rw same at r);
                            rotated = ground arith;
                          }
                    ]
            ]
      ]
