-- ===== src/Service/Tokens/Retirement.antt =====
-- What a refresh does to the tokens issued before.
use storemesh_user_service.Base.{◌≡◌, ◌≢◌, sym, ap, subst, ◌∙◌, some, arith}
use storemesh_user_service.Go.Text.{Text, text}
use storemesh_user_service.Go.Text.Laws.{eq_iff}
use storemesh_user_service.Go.Action.{ok}
use storemesh_user_service.Go.Action.Laws.{Returns}
use storemesh_user_service.Domain.{
  TokenPair, TokenClaims, AuthSession, TokenType, token_type_refresh,
}
use storemesh_user_service.Domain.Contract.{SessionLaws, Sessions, put}
use storemesh_user_service.Service.{UserService, JwtClaims}
use storemesh_user_service.Service.Contract.{JwtLaws, Keeps, Separate}
use storemesh_user_service.Service.Tokens.{validate_token_as, refresh}
use storemesh_user_service.Service.Tokens.Parsing.{parse_token_agrees}
use storemesh_user_service.Service.Tokens.Validation.{Matches}
use storemesh_user_service.Service.Tokens.Issue.{timed, drawn, drawn_twice}
use storemesh_user_service.Service.Tokens.Sessions.{Keeps-trans, validate_token_as-Reads}
use storemesh_user_service.Service.Tokens.Rotation.{Refreshed, refresh_ok}

module _ {S : Type 0} (svc : UserService S) (laws : SessionLaws svc.sessions)
    (sep : Separate svc laws) where
  pub drawn_twice-Keeps : (s : S) → Keeps svc laws s (drawn_twice svc s)
  drawn_twice-Keeps s =
      Keeps-trans svc laws _ _ _ (sep.now s)
        (Keeps-trans svc laws _ _ _ (sep.new_uuid (timed svc s)) (sep.new_uuid (drawn svc s)))

  -- The state in which `Rotate` is called has the sessions of the start.
  rotating-Keeps :
      (token : Text) (s : S) (pair : TokenPair) (s' : S)
      → (r : Refreshed svc token s pair s') → Keeps svc laws s (drawn_twice svc r.issuing)
  rotating-Keeps token s pair s' r =
      let read =
        validate_token_as-Reads svc laws sep token token_type_refresh s r.claims r.current _
          r.accepted in
      let found =
        sep.get_by_id r.claims.user_id (validate_token_as svc token token_type_refresh s).1 in
      rw r.issuing_at (
        Keeps-trans svc laws _ _ _ read.keeps
          (Keeps-trans svc laws _ _ _ found (drawn_twice-Keeps _)))

  -- Of all sessions a refresh changes only the one that the token names, which becomes the one
  -- issued with the new pair.
  pub refresh-live :
      (token : Text) (s : S) (pair : TokenPair) (s' : S)
      → laws.Inv s
      → (r : Refreshed svc token s pair s')
      → (laws.live s' ≡ put r.claims.session_id r.next (laws.live s)) × laws.Inv s'
  refresh-live token s pair s' i r =
      let at = drawn_twice svc r.issuing in
      let k = rotating-Keeps token s pair s' r in
      let read =
        validate_token_as-Reads svc laws sep token token_type_refresh s r.claims r.current _
          r.accepted in
      let same : r.current.id ≡ r.claims.session_id = ground (
        arith,
        laws.live-id s i read.accepts.parsed.session_id r.current read.stored,
        read.accepts.reports,
      ) in
      let (c, _, _, _, _, after) =
        laws.rotate_replaces r.current.id r.claims.token_id r.next svc.refresh_ttl at
          (ap (λ q. q.0) r.rotated) in
      let state = ap (λ q. q.1) r.rotated in
      let inv =
        laws.rotate-Inv r.current.id r.claims.token_id r.next svc.refresh_ttl at (k.inv i) in
      (sym (ap laws.live state) ∙ (after ∙ (λ j. put (same j) r.next (k.live j))), rw state at inv)

  -- The two identifiers that a pair issued in the state `at` draws are not the identifier `old`.
  abbrev pub DrawsNew : S → Text → Type 0
  DrawsNew at old =
      ((svc.platform.new_uuid (timed svc at)).0 ≢ old)
      × ((svc.platform.new_uuid (drawn svc at)).0 ≢ old)

  new-not-Matches :
      (x : AuthSession) (c : JwtClaims)
      → (x.access_token_id ≢ c.id) × (x.refresh_token_id ≢ c.id)
      → Matches c x
      → ⊥
  new-not-Matches x c fresh m = ground (arith, m.current)

  -- After a refresh that succeeded, no token that was accepted before for the same session is
  -- accepted again, for any use, in any state with the same stored sessions: neither the refresh
  -- token itself nor the access token issued with it. The conditions: the store is consistent at the
  -- start, a token's text fixes its claims, and neither of the two identifiers that the generator
  -- draws, in the state in which the refresh has read the user, is that of the old token.
  pub refresh_retires :
      JwtLaws svc
      → (token old : Text) (s : S) (pair : TokenPair) (s' : S) (tc t : TokenClaims)
        (xc x : AuthSession) (sc s1 : S)
      → laws.Inv s
      → Returns (refresh svc token) s pair s'
      → Returns (validate_token_as svc token token_type_refresh) s (tc, xc) sc
      → Returns (validate_token_as svc old (text "")) s (t, x) s1
      → t.session_id ≡ tc.session_id
      → DrawsNew (svc.users.get_by_id tc.user_id sc).1 t.token_id
      → (s2 : S) → laws.live s2 ≡ laws.live s'
      → (expected : TokenType) (r : TokenClaims × AuthSession)
      → (validate_token_as svc old expected s2).0 ≢ ok r
  refresh_retires jwt token old s pair s' tc t xc x sc s1 i h ht ho same_session fresh s2 live
        expected (t2, x2) h2 =
      let r = refresh_ok svc token s pair s' h in
      let (after, _) = refresh-live token s pair s' i r in
      let a = (validate_token_as-Reads svc laws sep old (text "") s t x s1 ho).accepts in
      let b =
        validate_token_as-Reads svc laws sep old expected s2 t2 x2
          (validate_token_as svc old expected s2).1 (ground arith) in
      let same =
        parse_token_agrees svc jwt old s s2 a.parsed b.accepts.parsed a.parsed_ok
          b.accepts.parsed_ok in
      let sid : b.accepts.parsed.session_id ≡ r.claims.session_id =
        ground (arith, a.reports, r.accepted) in
      let stored : put r.claims.session_id r.next (laws.live s) b.accepts.parsed.session_id
          ≡ some x2 =
        sym (ap (λ (m : Sessions). m b.accepts.parsed.session_id) (live ∙ after)) ∙ b.stored in
      let found : x2 ≡ r.next =
        ground (arith, eq_iff b.accepts.parsed.session_id r.claims.session_id) in
      let started : r.issuing ≡ (svc.users.get_by_id tc.user_id sc).1 =
        r.issuing_at ∙ ground (arith, r.accepted) in
      let (access, refreshed) = subst (λ q. DrawsNew q t.token_id) (sym started) fresh in
      let new : (r.next.access_token_id ≢ t.token_id) × (r.next.refresh_token_id ≢ t.token_id) = (
        subst (λ d. d ≢ t.token_id) (sym r.issued.access_id) access,
        subst (λ d. d ≢ t.token_id) (sym r.issued.refresh_id) refreshed,
      ) in
      new-not-Matches r.next b.accepts.parsed (ground (arith, new, a.reports))
        (subst (λ y. Matches b.accepts.parsed y) found b.accepts.matches)
