-- ===== src/Service.antt =====
-- internal/service/user_service.go: the type `userService` with what it calls of other packages.
-- The methods are in Service.Tokens (tokens and sessions) and Service.Users (accounts and roles).
pub mod Contract
pub mod Sample
pub mod Tokens
pub mod Users
use storemesh_user_service.Base.{List, Bool, Option}
use storemesh_user_service.Go.Text.{Text, text, Unicode, trim_space, to_lower}
use storemesh_user_service.Go.Errors.{Error, Sentinel, is, err_invalid_input, wrap}
use storemesh_user_service.Go.Action.{Result, Action}
use storemesh_user_service.Go.Time.{Time, Duration}
use storemesh_user_service.Domain.Ports.{UserRepository, AuthSessionStore}

-- `jwtClaims`, with the fields of `jwt.RegisteredClaims` that the service sets or reads.
pub record JwtClaims : Type 0 where
  pub email : Text
  pub roles : List Text
  pub token_type : Text
  pub session_id : Text
  pub issuer : Text
  pub subject : Text
  pub audience : List Text
  pub expires_at : Option Time
  pub issued_at : Option Time
  pub id : Text

-- The parser options that `parseToken` gives.
pub record ParserOptions : Type 0 where
  pub valid_methods : List Text
  pub issuer : Text
  pub audience : Text
  pub expiration_required : Bool
  pub verify_issued_at : Bool
  pub leeway : Duration

-- A parsed `jwt.Token` with the claims that the parser has filled in.
pub record JwtToken : Type 0 where
  pub valid : Bool
  pub claims : JwtClaims

-- Package golang-jwt: `SigningMethodHS256.Alg()`, `NewNumericDate`, `SignedString` on a token of
-- an algorithm and claims, and `ParseWithClaims` with its key function, which reads the clock.
pub record Jwt (S : Type 0) : Type 0 where
  pub hs256 : Text
  pub new_numeric_date : Time → Time
  pub signed_string : Text → JwtClaims → Text → Result Text
  pub parse_with_claims : Text → (Text → Result Text) → ParserOptions → Action S (Option JwtToken)

-- The other packages: bcrypt, the UUID generator, the clock, and the Unicode tables.
pub record Platform (S : Type 0) : Type 0 where
  pub jwt : Jwt S
  pub unicode : Unicode
  pub generate_from_password : Text → Action S Text
  pub compare_hash_and_password : Text → Text → Result (Unit {0})
  pub new_uuid : S → Text × S
  pub now : S → Time × S

-- The struct `userService`; its logger is left out.
pub record UserService (S : Type 0) : Type 0 where
  pub users : UserRepository S
  pub sessions : AuthSessionStore S
  pub platform : Platform S
  pub secret : Text
  pub issuer : Text
  pub audience : Text
  pub access_ttl : Duration
  pub refresh_ttl : Duration

unfoldable pub normalize_email : Unicode → Text → Text
normalize_email u email = to_lower u (trim_space email)

-- `fmt.Errorf("%w: …", domain.ErrInvalidInput)`, and an error that replaces another.
abbrev pub invalid_input : Text → Error
invalid_input m = wrap (text "") (is err_invalid_input) m

abbrev pub context : Text → Error → Error
context m e = wrap m e (text "")

abbrev pub replaced_by : Sentinel → Error → Error
replaced_by s e = is s
