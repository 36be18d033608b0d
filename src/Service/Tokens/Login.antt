-- ===== src/Service/Tokens/Login.antt =====
-- `Authenticate`: who gets a session.
use storemesh_user_service.Base.{◌≡◌, ◌≢◌, refl, sym, ap, ◌∙◌, ◌⊎◌, inl, inr, true, some, arith}
use storemesh_user_service.Go.Text.{Text, text}
use storemesh_user_service.Go.Text.Laws.{eq_iff}
use storemesh_user_service.Go.Errors.{Error, is, err_invalid_password}
use storemesh_user_service.Go.Action.{ok, err}
use storemesh_user_service.Go.Action.Laws.{Result-cases, Returns}
use storemesh_user_service.Domain.{User, TokenPair, AuthRequest, AuthSession, is_active}
use storemesh_user_service.Domain.Contract.{SessionLaws, put}
use storemesh_user_service.Service.{UserService, normalize_email}
use storemesh_user_service.Service.Contract.{Keeps, Separate}
use storemesh_user_service.Service.Tokens.{authenticate, issue_token_pair}
use storemesh_user_service.Service.Tokens.Issue.{
  Issued, issue_token_pair_ok, issue_token_pair-state, drawn_twice,
}
use storemesh_user_service.Service.Tokens.Sessions.{Keeps-trans}
use storemesh_user_service.Service.Tokens.Retirement.{drawn_twice-Keeps}

module _ {S : Type 0} (svc : UserService S) where
  -- A login that succeeded: the email and the password are given, the user is the one of the
  -- normalised email, the password fits the stored hash, the user is active, and the session
  -- issued with the pair is stored.
  pub record LoggedIn (req : AuthRequest) (s : S) (user : User) (pair : TokenPair) (s' : S)
      : Type 0 where
    pub email_given : normalize_email svc.platform.unicode req.email ≢ text ""
    pub password_given : req.password ≢ text ""
    pub found :
        (svc.users.get_by_email (normalize_email svc.platform.unicode req.email) s).0 ≡ ok user
    pub verified : svc.platform.compare_hash_and_password user.password_hash req.password ≡ ok tt
    pub active : is_active (some user) ≡ true
    pub session_id : Text
    pub session_id_drawn :
        session_id
        ≡ (svc.platform.new_uuid
            (svc.users.get_by_email (normalize_email svc.platform.unicode req.email) s).1).0
    pub issuing : S
    pub issuing_at :
        issuing
        ≡ (svc.platform.now
            (svc.platform.new_uuid
              (svc.users.get_by_email (normalize_email svc.platform.unicode req.email) s).1).1).1
    pub session : AuthSession
    pub issued : Issued svc user session_id issuing pair session
    pub stored : svc.sessions.create session svc.refresh_ttl (drawn_twice svc issuing) ≡ (ok tt, s')

  -- A login that succeeded had an email and a password, found the user of the normalised email,
  -- whose hash fits the password and who is active, issued the pair with a session of a new
  -- identifier, and stored that session; `LoggedIn` and `Issued` list what these are.
  pub authenticate_ok :
      (req : AuthRequest) (s : S) (user : User) (pair : TokenPair) (s' : S)
      → Returns (authenticate svc req) s (user, pair) s'
      → LoggedIn req s user pair s'
  unfolding authenticate
  authenticate_ok req s user pair s' h =
      let email = normalize_email svc.platform.unicode req.email in
      elim (Result-cases (svc.users.get_by_email email s).0) [
        | inr (e, p) ↦ ground arith
        | inl (user', p) ↦
            let s1 = (svc.users.get_by_email email s).1 in
            let sid = (svc.platform.new_uuid s1).0 in
            let s2 = (svc.platform.new_uuid s1).1 in
            let at = (svc.platform.now s2).0 in
            let s3 = (svc.platform.now s2).1 in
            elim (Result-cases (issue_token_pair svc user' sid at s3).0) [
              | inr (e, q) ↦ ground arith
              | inl ((pair', x), q) ↦
                  let state = issue_token_pair-state svc user' sid at s3 (pair', x) q in
                  let same_user : user' ≡ user = ground arith in
                  let same : pair' ≡ pair = ground arith in
                  record {
                    email_given = ground (arith, eq_iff email (text ""));
                    password_given = ground (arith, eq_iff req.password (text ""));
                    found = ground arith;
                    verified = ground arith;
                    active = ground arith;
                    session_id = sid;
                    session_id_drawn = refl;
                    issuing = s3;
                    issuing_at = refl;
                    session = x;
                    issued =
                        issue_token_pair_ok svc user sid at s3 pair x (rw (← same_user, ← same) q);
                    stored = ground arith;
                  }
            ]
      ]

  -- An unknown email (or any other failure to read the user) and a wrong password give the same
  -- error and open no session: the run ends in the state in which the user was looked up.
  pub authenticate_uniform :
      (req : AuthRequest) (s : S)
      → ((e : Error) × ((svc.users.get_by_email
              (normalize_email svc.platform.unicode req.email)
              s).0
            ≡ err e))
        ⊎ ((u : User) × (e : Error) × ((svc.users.get_by_email
                (normalize_email svc.platform.unicode req.email)
                s).0
              ≡ ok u)
            × (svc.platform.compare_hash_and_password u.password_hash req.password ≡ err e))
      → normalize_email svc.platform.unicode req.email ≢ text ""
      → req.password ≢ text ""
      → authenticate svc req s ≡ (
        err (is err_invalid_password),
        (svc.users.get_by_email (normalize_email svc.platform.unicode req.email) s).1,
      )
  unfolding authenticate
  authenticate_uniform req s h p q = ground (
    arith,
    eq_iff (normalize_email svc.platform.unicode req.email) (text ""),
    eq_iff req.password (text ""),
  )

  module _ (laws : SessionLaws svc.sessions) (sep : Separate svc laws) where
    -- A login stores the new session under its identifier and leaves every other one alone.
    pub authenticate-live :
        (req : AuthRequest) (s : S) (user : User) (pair : TokenPair) (s' : S)
        → (r : LoggedIn req s user pair s')
        → laws.live s' ≡ put r.session_id r.session (laws.live s)
    authenticate-live req s user pair s' r =
        let email = normalize_email svc.platform.unicode req.email in
        let s1 = (svc.users.get_by_email email s).1 in
        let s2 = (svc.platform.new_uuid s1).1 in
        let k : Keeps svc laws s r.issuing = rw r.issuing_at (
          Keeps-trans svc laws _ _ _ (sep.get_by_email email s)
            (Keeps-trans svc laws _ _ _ (sep.new_uuid s1) (sep.now s2))) in
        let k' = Keeps-trans svc laws _ _ _ k (drawn_twice-Keeps svc laws sep r.issuing) in
        let after =
          laws.create_puts r.session svc.refresh_ttl (drawn_twice svc r.issuing)
            (ap (λ q. q.0) r.stored) in
        ap laws.live (sym (ap (λ q. q.1) r.stored))
        ∙ (after ∙ (λ j. put (r.issued.id j) r.session (k'.live j)))
