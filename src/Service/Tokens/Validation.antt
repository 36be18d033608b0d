-- ===== src/Service/Tokens/Validation.antt =====
-- What `validateToken` accepts.
use storemesh_user_service.Base.{◌≡◌, ◌↔◌, ◌⊎◌, inl, inr, true, some, arith}
use storemesh_user_service.Go.Text.{Text, text}
use storemesh_user_service.Go.Text.Laws.{eq_iff, eq_refl, texts_eq_iff}
use storemesh_user_service.Go.Action.{ok}
use storemesh_user_service.Go.Action.Laws.{Result-cases, Returns}
use storemesh_user_service.Domain.{
  TokenClaims, AuthSession, TokenType, token_type_access, token_type_refresh,
}
use storemesh_user_service.Service.{UserService, JwtClaims}
use storemesh_user_service.Service.Tokens.{
  validate_token_as, parse_token, is_current, check_session, claims_of,
}

-- The session is the one of the token: same user, email and roles, and its access or refresh
-- token is this token, by the type that the token states.
pub record Matches (c : JwtClaims) (x : AuthSession) : Type 0 where
  pub user : x.user_id ≡ c.subject
  pub email : x.email ≡ c.email
  pub roles : x.roles ≡ c.roles
  pub current :
      ((c.token_type ≡ token_type_access) × (x.access_token_id ≡ c.id))
      ⊎ ((c.token_type ≡ token_type_refresh) × (x.refresh_token_id ≡ c.id))

is_current_iff :
    (c : JwtClaims) (x : AuthSession)
    → (is_current c x ≡ true) ↔ (
        ((c.token_type ≡ token_type_access) × (x.access_token_id ≡ c.id))
        ⊎ ((c.token_type ≡ token_type_refresh) × (x.refresh_token_id ≡ c.id)))
is_current_iff c x = ground (
  arith,
  eq_iff c.token_type token_type_access,
  eq_iff c.token_type token_type_refresh,
  eq_iff x.access_token_id c.id,
  eq_iff x.refresh_token_id c.id,
)

-- The claims `t` are those of the parsed token.
pub record Reports (c : JwtClaims) (t : TokenClaims) : Type 0 where
  pub expires : c.expires_at ≡ some t.expires_at
  pub claims : t ≡ claims_of c t.expires_at

check_session_iff :
    (c : JwtClaims) (x : AuthSession) (t : TokenClaims)
    → (check_session c x ≡ ok t) ↔ (Matches c x × Reports c t)
unfolding check_session
check_session_iff c x t = ground (
  arith,
  eq_iff x.user_id c.subject,
  eq_iff x.email c.email,
  texts_eq_iff x.roles c.roles,
  is_current_iff c x,
)

module _ {S : Type 0} (svc : UserService S) where
  -- What a run of `validateToken` from `s` that ends well has read and compared.
  pub record Accepts (token : Text) (expected : TokenType) (s : S) (t : TokenClaims)
      (x : AuthSession) (s' : S) : Type 0 where
    pub parsed : JwtClaims
    pub parsed_ok : (parse_token svc token s).0 ≡ ok parsed
    pub expected_type : (expected ≡ text "") ⊎ (parsed.token_type ≡ expected)
    pub stored : svc.sessions.get parsed.session_id (parse_token svc token s).1 ≡ (ok x, s')
    pub matches : Matches parsed x
    pub reports : Reports parsed t

  pub validate_token_as_ok :
      (token : Text) (expected : TokenType) (s : S) (t : TokenClaims) (x : AuthSession) (s' : S)
      → Returns (validate_token_as svc token expected) s (t, x) s'
      → Accepts token expected s t x s'
  unfolding validate_token_as
  validate_token_as_ok token expected s t x s' h = elim (Result-cases (parse_token svc token s).0) [
    | inr (e, p) ↦ ground arith
    | inl (parsed, p) ↦
        elim (Result-cases (svc.sessions.get parsed.session_id (parse_token svc token s).1).0) [
          | inr (e, q) ↦ ground arith
          | inl (y, q) ↦ record {
            parsed = parsed;
            parsed_ok = p;
            expected_type =
                ground (arith, eq_iff expected (text ""), eq_iff parsed.token_type expected);
            stored = ground arith;
            matches = ground (arith, check_session_iff parsed y t);
            reports = ground (arith, check_session_iff parsed y t);
          }
        ]
  ]

  -- `validateToken` succeeds exactly when the token parses, its type is the expected one (if one is
  -- expected), the store returns the session that it names, and that session has the same user,
  -- email and roles and names this very token; it then returns the parsed claims and the session.
  pub validate_token_as_iff :
      (token : Text) (expected : TokenType) (s : S) (t : TokenClaims) (x : AuthSession) (s' : S)
      → (validate_token_as svc token expected s ≡ (ok (t, x), s')) ↔ Accepts token expected s t x s'
  unfolding validate_token_as
  validate_token_as_iff token expected s t x s' = (
    validate_token_as_ok token expected s t x s',
    λ a. ground (
      arith,
      a.parsed_ok,
      a.expected_type,
      a.stored,
      eq_refl expected,
      eq_iff expected (text ""),
      eq_iff a.parsed.token_type expected,
      check_session_iff a.parsed x t,
      a.matches,
      a.reports,
    ),
  )
