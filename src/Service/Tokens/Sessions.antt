-- ===== src/Service/Tokens/Sessions.antt =====
-- How `parseToken` and `validateToken` read the stored sessions.
use storemesh_user_service.Base.{◌≡◌, refl, ap, ◌∙◌, some, arith}
use storemesh_user_service.Go.Text.{Text}
use storemesh_user_service.Go.Action.{ok}
use storemesh_user_service.Go.Action.Laws.{Returns}
use storemesh_user_service.Domain.{TokenClaims, AuthSession, TokenType}
use storemesh_user_service.Domain.Contract.{SessionLaws}
use storemesh_user_service.Service.{UserService}
use storemesh_user_service.Service.Contract.{Keeps, Separate}
use storemesh_user_service.Service.Tokens.{
  parse_token, validate_token_as, key_function, parser_options,
}
use storemesh_user_service.Service.Tokens.Validation.{Accepts, validate_token_as_ok}
use storemesh_user_service.Go.Text.{trim_space}

module _ {S : Type 0} (svc : UserService S) (laws : SessionLaws svc.sessions) where
  pub Keeps-refl : (s : S) → Keeps svc laws s s
  Keeps-refl s = record { live = refl; inv = λ h. h }

  pub Keeps-trans : (s t u : S) → Keeps svc laws s t → Keeps svc laws t u → Keeps svc laws s u
  Keeps-trans s t u p q = record { live = q.live ∙ p.live; inv = λ h. q.inv (p.inv h) }

  module _ (sep : Separate svc laws) where
    pub parse_token-Keeps : (token : Text) (s : S) → Keeps svc laws s (parse_token svc token s).1
    unfolding parse_token
    parse_token-Keeps token s = ground (
      arith,
      Keeps-refl s,
      sep.parse (trim_space token) (key_function svc) (parser_options svc) s,
    )

    -- An accepted token names a stored session, and the run leaves the sessions alone.
    pub record Reads (token : Text) (expected : TokenType) (s : S) (t : TokenClaims)
        (x : AuthSession) (s' : S) : Type 0 where
      pub accepts : Accepts svc token expected s t x s'
      pub stored : laws.live s accepts.parsed.session_id ≡ some x
      pub keeps : Keeps svc laws s s'

    pub validate_token_as-Reads :
        (token : Text) (expected : TokenType) (s : S) (t : TokenClaims) (x : AuthSession) (s' : S)
        → Returns (validate_token_as svc token expected) s (t, x) s'
        → Reads token expected s t x s'
    validate_token_as-Reads token expected s t x s' h =
        let a = validate_token_as_ok svc token expected s t x s' h in
        let s1 = (parse_token svc token s).1 in
        let k = parse_token-Keeps token s in
        let sid = a.parsed.session_id in
        let found : (svc.sessions.get sid s1).0 ≡ ok x = ap (λ r. r.0) a.stored in
        let after : (svc.sessions.get sid s1).1 ≡ s' = ap (λ r. r.1) a.stored in
        let (live, same) = laws.get_reads sid s1 x found in
        record {
          accepts = a;
          stored = rw (← k.live) live;
          keeps = record {
            live = rw (← after) (same ∙ k.live);
            inv = λ i. rw (← after) (laws.get-Inv sid s1 (k.inv i));
          };
        }
