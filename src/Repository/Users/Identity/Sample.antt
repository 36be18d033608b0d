-- ===== src/Repository/Users/Identity/Sample.antt =====
-- The service on the database of Repository.Users.Sample and fixed sessions, for the tests.
use storemesh_user_service.Base.{
  ◌≡◌, ◌≢◌, refl, [], ◌∷◌, Option, some, none, true, arith, if◌then◌else◌,
}
use storemesh_user_service.Base.Int.{pos}
use storemesh_user_service.Go.Text.{Text, text, ◌==◌}
use storemesh_user_service.Go.Text.Laws.{eq_iff}
use storemesh_user_service.Go.Errors.{is, other, err_forbidden, err_not_found}
use storemesh_user_service.Go.Action.{Result, ok, err, raise}
use storemesh_user_service.Domain.{AuthSession}
use storemesh_user_service.Domain.Ports.{AuthSessionStore}
use storemesh_user_service.Domain.Contract.{SessionLaws, Sessions}
use storemesh_user_service.Service.{UserService, JwtClaims, JwtToken}
use storemesh_user_service.Service.Contract.{Separate, Keeps}
use storemesh_user_service.Repository.Users.{user_repository}
use storemesh_user_service.Repository.Users.Tables.{Tables}
use storemesh_user_service.Repository.Users.Identity.{with_repository}
use storemesh_user_service.Repository.Users.Sample.{memory_users}

-- A session store of fixed sessions, which refuses every change to them: `uA` has one session.
abbrev pub open_session : AuthSession
open_session = record {
  id = text "s1";
  user_id = text "uA";
  email = text "a@b.c";
  roles = text "seller" ∷ [];
  access_token_id = text "a1";
  refresh_token_id = text "r1";
  created_at = pos 50;
  expires_at = pos 1050;
}

abbrev pub fixed : Sessions
fixed j = if j == text "s1" then some open_session else none

abbrev pub found_or_missing : Option AuthSession → Result AuthSession
found_or_missing none = err (is err_not_found)
found_or_missing (some x) = ok x

abbrev pub fixed_store : AuthSessionStore Tables
fixed_store = record {
  create = λ x ttl. raise (is err_forbidden);
  get = λ id t. (found_or_missing (fixed id), t);
  rotate = λ id refresh_id next ttl. raise (is err_forbidden);
  delete = λ id. raise (is err_forbidden);
  delete_all_for_user =
      λ user_id t. (if user_id == text "uA" then err (is err_forbidden) else ok tt, t);
}

pub missing_found :
    (o : Option AuthSession) (x : AuthSession) → found_or_missing o ≡ ok x → o ≡ some x
missing_found none x h = absurd (cc h)
missing_found (some y) x h = cc h

fixed_owner : (id : Text) (x : AuthSession) → fixed id ≡ some x → x ≡ open_session
fixed_owner id x h = ground arith

pub fixed_id : (id : Text) (x : AuthSession) → fixed id ≡ some x → x.id ≡ id
fixed_id id x h = ground (arith, eq_iff id (text "s1"))

pub fixed_removed :
    (user_id id : Text) (x : AuthSession)
    → ◌≡◌ {A = Result (Unit {0})}
        (if user_id == text "uA" then err (is err_forbidden) else ok tt)
        (ok tt)
    → fixed id ≡ some x
    → x.user_id ≢ user_id
fixed_removed user_id id x h found e =
    ground (arith, eq_iff user_id (text "uA"), eq_iff x.user_id (text "uA"))

unfoldable pub fixed_store_laws : SessionLaws fixed_store
fixed_store_laws = record {
  live = λ t. fixed;
  Inv = λ t. Unit {0};
  live-id = λ t i id x h. fixed_id id x h;
  get_reads = λ id t x h. (missing_found (fixed id) x h, refl);
  get-Inv = λ id t i. i;
  create_puts = λ x ttl t h. absurd (cc h);
  create-Inv = λ x ttl t i. i;
  rotate_replaces = λ id refresh_id next ttl t h. absurd (cc h);
  rotate-Inv = λ id refresh_id next ttl t i. i;
  delete_removes = λ id t given h. absurd (cc h);
  delete-Inv = λ id t i. i;
  delete_all_removes = λ user_id t i h id x found. fixed_removed user_id id x h found;
  delete_all-Inv = λ user_id t i. i;
}

-- Two access tokens, of `uA` for its session and of `uB` for the same session.
abbrev pub claims_for : Text → Text → JwtClaims
claims_for user_id id = record {
  email = text "a@b.c";
  roles = text "seller" ∷ [];
  token_type = text "access";
  session_id = text "s1";
  issuer = text "i";
  subject = user_id;
  audience = text "p" ∷ [];
  expires_at = some (pos 900);
  issued_at = some (pos 1);
  id = id;
}

abbrev known_token : Text → Result (Option JwtToken)
known_token token =
    if token == text "tokA"
    then ok (some (record { valid = true; claims = claims_for (text "uA") (text "a1") }))
    else if token == text "tokB"
    then ok (some (record { valid = true; claims = claims_for (text "uB") (text "a1") }))
    else err (other (text "token is malformed"))

abbrev pub service : UserService Tables
service = record {
  users = user_repository memory_users;
  sessions = fixed_store;
  platform = record {
    jwt = record {
      hs256 = text "HS256";
      new_numeric_date = λ t. t;
      signed_string = λ alg c secret. ok c.id;
      parse_with_claims = λ token key o t. (known_token token, t);
    };
    unicode = record { to_lower_rune = λ c. c; fold_rune = λ c. c };
    generate_from_password = λ p t. (ok p, t);
    compare_hash_and_password = λ hash p. ok tt;
    new_uuid = λ t. (text "x", t);
    now = λ t. (pos 100, t);
  };
  secret = text "k";
  issuer = text "i";
  audience = text "p";
  access_ttl = pos 10;
  refresh_ttl = pos 1000;
}

same-Keeps : (t t' : Tables) → Keeps (with_repository service memory_users) fixed_store_laws t t'
unfolding fixed_store_laws
same-Keeps t t' = record { live = refl; inv = λ i. i }

pub fixed_separate : Separate (with_repository service memory_users) fixed_store_laws
fixed_separate = record {
  now = λ t. same-Keeps t _;
  new_uuid = λ t. same-Keeps t _;
  parse = λ token key o t. same-Keeps t _;
  get_by_id = λ id t. same-Keeps t _;
  get_by_email = λ email t. same-Keeps t _;
  assign_role = λ id name t. same-Keeps t _;
  revoke_role = λ id name t. same-Keeps t _;
  delete = λ id t. same-Keeps t _;
}
