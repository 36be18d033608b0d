-- ===== src/Service/Tokens/Parsing.antt =====
-- What `parseToken` has checked of the claims that it returns.
use storemesh_user_service.Base.{◌≡◌, ◌≢◌, ◌⊎◌, inl, inr, true, none, some, arith}
use storemesh_user_service.Go.Text.{Text, text, trim_space}
use storemesh_user_service.Go.Text.Laws.{eq_iff}
use storemesh_user_service.Go.Action.{ok}
use storemesh_user_service.Go.Action.Laws.{Result-cases}
use storemesh_user_service.Domain.{token_type_access, token_type_refresh}
use storemesh_user_service.Service.{UserService, JwtClaims, JwtToken}
use storemesh_user_service.Service.Contract.{JwtLaws}
use storemesh_user_service.Service.Tokens.{parse_token, key_function, parser_options}

module _ {S : Type 0} (svc : UserService S) where
  -- The library's parser has returned a valid token with these claims; the subject, the token's
  -- identifier, the email and the session are given, and the type is one of the two.
  pub record Parsed (token : Text) (s : S) (c : JwtClaims) : Type 0 where
    pub parsed : JwtToken
    pub parses :
        (svc.platform.jwt.parse_with_claims
          (trim_space token)
          (key_function svc)
          (parser_options svc)
          s).0
        ≡ ok (some parsed)
    pub valid : parsed.valid ≡ true
    pub claims : parsed.claims ≡ c
    pub subject : c.subject ≢ text ""
    pub id : c.id ≢ text ""
    pub email : c.email ≢ text ""
    pub session : c.session_id ≢ text ""
    pub of_type : (c.token_type ≡ token_type_access) ⊎ (c.token_type ≡ token_type_refresh)

  pub parse_token_ok :
      (token : Text) (s : S) (c : JwtClaims) → (parse_token svc token s).0 ≡ ok c → Parsed token s c
  unfolding parse_token
  parse_token_ok token s c h =
      let m =
        svc.platform.jwt.parse_with_claims (trim_space token) (key_function svc)
          (parser_options svc) s in
      elim (Result-cases m.0) [
        | inr (e, p) ↦ ground arith
        | inl (none, p) ↦ ground arith
        | inl (some t, p) ↦ record {
          parsed = t;
          parses = p;
          valid = ground arith;
          claims = ground arith;
          subject = ground (arith, eq_iff c.subject (text ""));
          id = ground (arith, eq_iff c.id (text ""));
          email = ground (arith, eq_iff c.email (text ""));
          session = ground (arith, eq_iff c.session_id (text ""));
          of_type = ground (
            arith,
            eq_iff c.token_type token_type_access,
            eq_iff c.token_type token_type_refresh,
          );
        }
      ]

  -- Two runs on one token text that both parse it find the same claims.
  pub parse_token_agrees :
      JwtLaws svc
      → (token : Text) (s s' : S) (c c' : JwtClaims) → (parse_token svc token s).0 ≡ ok c
      → (parse_token svc token s').0 ≡ ok c'
      → c ≡ c'
  parse_token_agrees jwt token s s' c c' h h' =
      let p = parse_token_ok token s c h in
      let q = parse_token_ok token s' c' h' in
      ground (
        arith,
        jwt.parse_agrees (trim_space token) (key_function svc) (parser_options svc) s s' p.parsed
            q.parsed,
      )
