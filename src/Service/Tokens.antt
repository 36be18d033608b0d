-- ===== src/Service/Tokens.antt =====
-- The methods of `userService` on tokens and sessions, in internal/service/user_service.go.
pub mod Parsing
pub mod Validation
pub mod Issue
pub mod Sessions
pub mod Rotation
pub mod Retirement
pub mod Revocation
pub mod Login
pub mod Acceptance
mod Tests
use storemesh_user_service.Base.{
  List, [], ◌∷◌, ◌++◌, Bool, true, false, not, ◌&&◌, ◌||◌, Option, none, some, if◌then◌else◌,
}
use storemesh_user_service.Base.Int.{ℤ, pos, ◌*ℤ◌}
use storemesh_user_service.Go.Text.{Text, text, ◌==◌, trim_space, sort_strings, texts_eq}
use storemesh_user_service.Go.Errors.{
  Error, is, errors_is, err_invalid_password, err_invalid_token, err_not_found, err_forbidden,
}
use storemesh_user_service.Go.Action.{
  Result, ok, err, Action, map_ok, pure, raise, lift, call, raise_if, on_error, then_result, ◌>>=◌,
  ◌>>◌,
}
use storemesh_user_service.Go.Time.{Time, Duration, add_time, is_zero_time}
use storemesh_user_service.Domain.{
  User, Role, TokenPair, TokenClaims, AuthSession, AuthRequest, TokenType, token_type_access,
  token_type_refresh, is_active,
}
use storemesh_user_service.Service.{
  UserService, JwtClaims, JwtToken, ParserOptions, normalize_email, context, replaced_by,
}

-- 30 seconds.
abbrev pub token_validation_leeway : Duration
token_validation_leeway = pos 30_000_000_000

abbrev named : Role → List Text → List Text
named role names = if role.name == text "" then names else role.name ∷ names

-- The loop of `roleNames`.
names_of : List Role → List Text
names_of [] = []
names_of (role ∷ roles) = named role (names_of roles)

unfoldable pub role_names : List Role → List Text
unfolding names_of
role_names roles = sort_strings (names_of roles)

-- `token == nil || !token.Valid`, and the claims otherwise.
abbrev valid_claims : Option JwtToken → Result JwtClaims
valid_claims none = err (is err_invalid_token)
valid_claims (some token) = if token.valid then ok token.claims else err (is err_invalid_token)

abbrev pub is_incomplete : JwtClaims → Bool
is_incomplete c =
    c.subject == text "" || c.id == text "" || c.email == text "" || c.session_id == text ""

abbrev pub is_token_type : TokenType → Bool
is_token_type t = t == token_type_access || t == token_type_refresh

-- The `switch` on the token type: the token is the one that the session names.
abbrev pub is_current : JwtClaims → AuthSession → Bool
is_current c session =
    if c.token_type == token_type_access
    then session.access_token_id == c.id
    else if c.token_type == token_type_refresh
    then session.refresh_token_id == c.id
    else false

abbrev pub or_invalid : Option Time → Result Time
or_invalid none = err (is err_invalid_token)
or_invalid (some t) = ok t

-- The claims that `validateToken` returns for the parsed ones.
abbrev pub claims_of : JwtClaims → Time → TokenClaims
claims_of c expires_at = record {
  user_id = c.subject;
  email = c.email;
  roles = c.roles;
  token_type = c.token_type;
  token_id = c.id;
  session_id = c.session_id;
  expires_at = expires_at;
}

-- The checks of `validateToken` on the session that it has read, and the claims that it returns.
unfoldable pub check_session : JwtClaims → AuthSession → Result TokenClaims
check_session parsed session =
    if not (session.user_id == parsed.subject)
    then err (is err_invalid_token)
    else if not (session.email == parsed.email)
    then err (is err_invalid_token)
    else if not (texts_eq session.roles parsed.roles)
    then err (is err_invalid_token)
    else if not (is_current parsed session)
    then err (is err_invalid_token)
    else map_ok (claims_of parsed) (or_invalid parsed.expires_at)

-- The error of `RefreshToken` for an error of `Rotate`.
abbrev pub rotation_error : Error → Error
rotation_error e =
    if errors_is e err_invalid_token || errors_is e err_not_found
    then is err_invalid_token
    else context (text "rotate authentication session: ") e

module _ {S : Type 0} (s : UserService S) where
  -- The claims that `signJWT` signs.
  abbrev pub claims_for : User → List Text → TokenType → Text → Text → Time → Time → JwtClaims
  claims_for user roles token_type session_id token_id issued_at expires_at = record {
    email = user.email;
    roles = roles;
    token_type = token_type;
    session_id = session_id;
    issuer = s.issuer;
    subject = user.id;
    audience = s.audience ∷ [];
    expires_at = some (s.platform.jwt.new_numeric_date expires_at);
    issued_at = some (s.platform.jwt.new_numeric_date issued_at);
    id = token_id;
  }

  pub sign_jwt : User → List Text → TokenType → Text → Text → Time → Time → Action S Text
  sign_jwt user roles token_type session_id token_id issued_at expires_at =
      on_error (λ e. Error.wrap (text "sign " ++ (token_type ++ text " token: ")) e (text ""))
        (lift (
          s.platform.jwt.signed_string s.platform.jwt.hs256
            (claims_for user roles token_type session_id token_id issued_at expires_at) s.secret))

  pub issue_token_pair : User → Text → Time → Action S (TokenPair × AuthSession)
  issue_token_pair user session_id session_created_at = do
    now ← call s.platform.now
    access_token_id ← call s.platform.new_uuid
    refresh_token_id ← call s.platform.new_uuid
    let access_expires_at = add_time now s.access_ttl
    let refresh_expires_at = add_time now s.refresh_ttl
    let roles = role_names user.roles
    access_token ←
        sign_jwt user roles token_type_access session_id access_token_id now access_expires_at
    refresh_token ←
        sign_jwt user roles token_type_refresh session_id refresh_token_id now refresh_expires_at
    pure (
      record { access_token = access_token; refresh_token = refresh_token },
      record {
        id = session_id;
        user_id = user.id;
        email = user.email;
        roles = roles;
        access_token_id = access_token_id;
        refresh_token_id = refresh_token_id;
        created_at = if is_zero_time session_created_at then now else session_created_at;
        expires_at = refresh_expires_at;
      },
    )

  -- The key function of `parseToken`.
  abbrev pub key_function : Text → Result Text
  key_function alg = if alg == s.platform.jwt.hs256 then ok s.secret else err (is err_invalid_token)

  abbrev pub parser_options : ParserOptions
  parser_options = record {
    valid_methods = s.platform.jwt.hs256 ∷ [];
    issuer = s.issuer;
    audience = s.audience;
    expiration_required = true;
    verify_issued_at = true;
    leeway = token_validation_leeway;
  }

  unfoldable pub parse_token : Text → Action S JwtClaims
  parse_token token_string = do
    let trimmed = trim_space token_string
    raise_if (trimmed == text "") (is err_invalid_token)
    token ←
        on_error (replaced_by err_invalid_token)
          (s.platform.jwt.parse_with_claims trimmed key_function parser_options)
    claims ← lift (valid_claims token)
    raise_if (is_incomplete claims) (is err_invalid_token)
    raise_if (not (is_token_type claims.token_type)) (is err_invalid_token)
    pure claims

  unfoldable pub validate_token_as : Text → TokenType → Action S (TokenClaims × AuthSession)
  validate_token_as token_string expected = do
    parsed ← on_error (replaced_by err_invalid_token) (parse_token token_string)
    raise_if (not (expected == text "") && not (parsed.token_type == expected))
        (is err_invalid_token)
    session ← on_error (replaced_by err_invalid_token) (s.sessions.get parsed.session_id)
    claims ← lift (check_session parsed session)
    pure (claims, session)

  -- `ValidateToken`.
  unfoldable pub validate_token : Text → Action S TokenClaims
  validate_token token_string = do
    (claims, _) ← validate_token_as token_string (text "")
    pure claims

  pub authenticate : AuthRequest → Action S (User × TokenPair)
  authenticate req = do
    let email = normalize_email s.platform.unicode req.email
    raise_if (email == text "" || req.password == text "") (is err_invalid_password)
    user ← on_error (replaced_by err_invalid_password) (s.users.get_by_email email)
    on_error (replaced_by err_invalid_password)
        (lift (s.platform.compare_hash_and_password user.password_hash req.password))
    raise_if (not (is_active (some user))) (is err_forbidden)
    session_id ← call s.platform.new_uuid
    created_at ← call s.platform.now
    (pair, session) ←
        on_error (context (text "issue token pair: ")) (issue_token_pair user session_id created_at)
    on_error (context (text "create authentication session: "))
        (s.sessions.create session s.refresh_ttl)
    pure (user, pair)

  -- `RefreshToken`.
  pub refresh : Text → Action S TokenPair
  refresh refresh_token = do
    (claims, current) ←
        on_error (replaced_by err_invalid_token)
          (validate_token_as refresh_token token_type_refresh)
    user ← on_error (replaced_by err_invalid_token) (s.users.get_by_id claims.user_id)
    raise_if (not (is_active (some user))) (is err_forbidden)
    (next_pair, next_session) ←
        on_error (context (text "issue rotated token pair: "))
          (issue_token_pair user current.id current.created_at)
    on_error rotation_error
        (s.sessions.rotate current.id claims.token_id next_session s.refresh_ttl)
    pure next_pair

  unfoldable pub logout : Text → Action S (Unit {0})
  logout access_token = do
    (claims, _) ←
        on_error (replaced_by err_invalid_token) (validate_token_as access_token token_type_access)
    on_error (context (text "delete authentication session: "))
        (s.sessions.delete claims.session_id)

  pub logout_all : Text → Action S (Unit {0})
  logout_all access_token = do
    (claims, _) ←
        on_error (replaced_by err_invalid_token) (validate_token_as access_token token_type_access)
    on_error (context (text "delete all authentication sessions: "))
        (s.sessions.delete_all_for_user claims.user_id)
