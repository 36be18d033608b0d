-- ===== src/Service/Tokens/Revocation.antt =====
-- `Logout` and `LogoutAll`: which tokens they end.
use storemesh_user_service.Base.{◌≡◌, ◌≢◌, sym, ap, subst, ◌∙◌, inl, inr, none, some, arith}
use storemesh_user_service.Go.Text.{Text, text}
use storemesh_user_service.Go.Action.{ok}
use storemesh_user_service.Go.Action.Laws.{Result-cases, Returns}
use storemesh_user_service.Domain.{TokenClaims, AuthSession, TokenType, token_type_access}
use storemesh_user_service.Domain.Contract.{SessionLaws, Sessions}
use storemesh_user_service.Service.{UserService}
use storemesh_user_service.Service.Contract.{Separate}
use storemesh_user_service.Service.Tokens.{validate_token_as, logout, logout_all}
use storemesh_user_service.Service.Tokens.Parsing.{parse_token_ok}
use storemesh_user_service.Service.Tokens.Validation.{validate_token_as_ok}
use storemesh_user_service.Service.Tokens.Sessions.{validate_token_as-Reads}

module _ {S : Type 0} (svc : UserService S) where
  -- A run of `Logout` that succeeded has accepted the token as an access token and deleted the
  -- session that it names.
  pub record LoggedOut (token : Text) (s s' : S) : Type 0 where
    pub claims : TokenClaims
    pub session : AuthSession
    pub read : S
    pub accepted : validate_token_as svc token token_type_access s ≡ (ok (claims, session), read)
    pub deleted : svc.sessions.delete claims.session_id read ≡ (ok tt, s')

  pub logout_ok :
      (token : Text) (s s' : S) → Returns (logout svc token) s tt s' → LoggedOut token s s'
  unfolding logout
  logout_ok token s s' h = elim (Result-cases (validate_token_as svc token token_type_access s).0) [
    | inr (e, p) ↦ ground arith
    | inl ((c, x), p) ↦ record {
      claims = c;
      session = x;
      read = (validate_token_as svc token token_type_access s).1;
      accepted = ground arith;
      deleted =
          elim (Result-cases
            (svc.sessions.delete c.session_id
              (validate_token_as svc token token_type_access s).1).0) [
                | inr (e, q) ↦ ground arith
                | inl (u, q) ↦ ground arith
              ];
    }
  ]

  pub record LoggedOutAll (token : Text) (s s' : S) : Type 0 where
    pub claims : TokenClaims
    pub session : AuthSession
    pub read : S
    pub accepted : validate_token_as svc token token_type_access s ≡ (ok (claims, session), read)
    pub deleted : svc.sessions.delete_all_for_user claims.user_id read ≡ (ok tt, s')

  pub logout_all_ok :
      (token : Text) (s s' : S) → Returns (logout_all svc token) s tt s' → LoggedOutAll token s s'
  unfolding logout_all
  logout_all_ok token s s' h =
      elim (Result-cases (validate_token_as svc token token_type_access s).0) [
        | inr (e, p) ↦ ground arith
        | inl ((c, x), p) ↦ record {
          claims = c;
          session = x;
          read = (validate_token_as svc token token_type_access s).1;
          accepted = ground arith;
          deleted =
              elim (Result-cases
                (svc.sessions.delete_all_for_user c.user_id
                  (validate_token_as svc token token_type_access s).1).0) [
                    | inr (e, q) ↦ ground arith
                    | inl (u, q) ↦ ground arith
                  ];
        }
      ]

module _ {S : Type 0} (svc : UserService S) (laws : SessionLaws svc.sessions)
    (sep : Separate svc laws) where
  -- A token is rejected, for any use, while the session that it names is not stored.
  pub rejected_of_none :
      (token : Text) (expected : TokenType) (s : S) (r : TokenClaims × AuthSession)
      → laws.live s r.0.session_id ≡ none
      → (validate_token_as svc token expected s).0 ≢ ok r
  rejected_of_none token expected s (t, x) gone h =
      let b =
        validate_token_as-Reads svc laws sep token expected s t x _
          (λ i. (h i, (validate_token_as svc token expected s).1)) in
      ground (arith, b.stored, b.accepts.reports)

  -- After a logout that succeeded, no token of the session that was ended is accepted, for any
  -- use, in any state with the same stored sessions.
  pub logout_ends_session :
      (token : Text) (s s' : S) (tc : TokenClaims) (xc : AuthSession) (sc : S)
      → Returns (logout svc token) s tt s'
      → Returns (validate_token_as svc token token_type_access) s (tc, xc) sc
      → (s2 : S) → laws.live s2 ≡ laws.live s'
      → (old : Text) (expected : TokenType) (t : TokenClaims) (x : AuthSession)
      → t.session_id ≡ tc.session_id
      → (validate_token_as svc old expected s2).0 ≢ ok (t, x)
  logout_ends_session token s s' tc xc sc h ht s2 live old expected t x same =
      let r = logout_ok svc token s s' h in
      let sid : r.claims.session_id ≡ t.session_id = ground (arith, r.accepted) in
      let a =
        validate_token_as_ok svc token token_type_access s r.claims r.session r.read r.accepted in
      let given : r.claims.session_id ≢ text "" =
        ground (arith, (parse_token_ok svc token s a.parsed a.parsed_ok).session, a.reports) in
      let gone : laws.live s' r.claims.session_id ≡ none =
        subst (λ q. laws.live q r.claims.session_id ≡ none) (ap (λ q. q.1) r.deleted)
          (laws.delete_removes r.claims.session_id r.read given (ap (λ q. q.0) r.deleted)) in
      rejected_of_none old expected s2 (t, x)
        (ap (λ (m : Sessions). m t.session_id) live ∙ (subst (λ j. laws.live s' j ≡ none) sid gone))

  -- No token of the user `user_id` is accepted in a state that stores no session of that user.
  pub rejected_of_no_sessions :
      (user_id token : Text) (expected : TokenType) (s : S) (t : TokenClaims) (x : AuthSession)
      → ((id : Text) (y : AuthSession) → laws.live s id ≡ some y → y.user_id ≢ user_id)
      → t.user_id ≡ user_id
      → (validate_token_as svc token expected s).0 ≢ ok (t, x)
  rejected_of_no_sessions user_id token expected s t x none_left same h =
      let b =
        validate_token_as-Reads svc laws sep token expected s t x _
          (λ i. (h i, (validate_token_as svc token expected s).1)) in
      ground (
        arith,
        none_left b.accepts.parsed.session_id x b.stored,
        b.accepts.matches,
        b.accepts.reports,
      )

  -- After `LogoutAll` succeeded, no token of that user is accepted, of whatever session, in any
  -- state with the same stored sessions.
  pub logout_all_ends_sessions :
      (token : Text) (s s' : S) (tc : TokenClaims) (xc : AuthSession) (sc : S)
      → laws.Inv s
      → Returns (logout_all svc token) s tt s'
      → Returns (validate_token_as svc token token_type_access) s (tc, xc) sc
      → (s2 : S) → laws.live s2 ≡ laws.live s'
      → (old : Text) (expected : TokenType) (t : TokenClaims) (x : AuthSession)
      → t.user_id ≡ tc.user_id
      → (validate_token_as svc old expected s2).0 ≢ ok (t, x)
  logout_all_ends_sessions token s s' tc xc sc i h ht s2 live old expected t x same =
      let r = logout_all_ok svc token s s' h in
      let k =
        (validate_token_as-Reads svc laws sep token token_type_access s r.claims r.session r.read
          r.accepted).keeps in
      rejected_of_no_sessions r.claims.user_id old expected s2 t x
        (λ id y found.
          laws.delete_all_removes r.claims.user_id r.read (k.inv i) (ap (λ q. q.0) r.deleted) id y (
            ap (λ (q : S). laws.live q id) (ap (λ q. q.1) r.deleted)
            ∙ (ap (λ (m : Sessions). m id) (sym live) ∙ found)))
        (ground (arith, r.accepted))
