-- ===== src/Service/Sample.antt =====
-- A small world for the tests: sessions in a map, a counter for the identifiers, one customer, and
-- a parser that knows three tokens. It meets the hypotheses of the service's theorems.
use storemesh_user_service.Base.{
  ℕ, suc, ◌+◌, ◌≡◌, ◌≢◌, refl, sym, ap, ◌∙◌, [], ◌∷◌, true, ◌&&◌, Option, none, some, arith,
  if◌then◌else◌,
}
use storemesh_user_service.Base.Int.{ℤ, pos}
use storemesh_user_service.Go.Text.{Text, text, ◌==◌}
use storemesh_user_service.Go.Text.Laws.{eq_iff, eq_refl}
use storemesh_user_service.Go.Errors.{is, err_not_found, err_invalid_token, other}
use storemesh_user_service.Go.Action.{Result, ok, err}
use storemesh_user_service.Domain.{User, AuthSession, role_customer, status_active}
use storemesh_user_service.Domain.Ports.{UserRepository, AuthSessionStore}
use storemesh_user_service.Domain.Contract.{SessionLaws, Sessions, put, remove}
use storemesh_user_service.Service.{UserService, JwtClaims, JwtToken, Platform}
use storemesh_user_service.Service.Contract.{JwtLaws, Separate, Keeps}

pub record World : Type 0 where
  pub sessions : Sessions
  pub drawn : ℕ

abbrev pub rotate_in :
    Option AuthSession → Text → Text → AuthSession → World → Result (Unit {0}) × World
rotate_in none id refresh_id next w = (err (is err_invalid_token), w)
rotate_in (some x) id refresh_id next w =
    if x.refresh_token_id == refresh_id && (x.user_id == next.user_id && next.id == id)
    then (ok tt, record w { sessions = put id next w.sessions })
    else (err (is err_invalid_token), w)

abbrev pub unless_of : Text → Option AuthSession → Option AuthSession
unless_of user_id none = none
unless_of user_id (some x) = if x.user_id == user_id then none else some x

abbrev pub or_not_found : {A : Type 0} → Option A → Result A
or_not_found none = err (is err_not_found)
or_not_found (some a) = ok a

abbrev pub map_store : AuthSessionStore World
map_store = record {
  create = λ x ttl w. (ok tt, record w { sessions = put x.id x w.sessions });
  get = λ id w. (or_not_found (w.sessions id), w);
  rotate = λ id refresh_id next ttl w. rotate_in (w.sessions id) id refresh_id next w;
  delete = λ id w. (ok tt, record w { sessions = remove id w.sessions });
  delete_all_for_user =
      λ user_id w. (ok tt, record w { sessions = λ j. unless_of user_id (w.sessions j) });
}

abbrev pub OwnIds : World → Type 0
OwnIds w = (id : Text) (x : AuthSession) → w.sessions id ≡ some x → x.id ≡ id

pub get_found : (o : Option AuthSession) (x : AuthSession) → or_not_found o ≡ ok x → o ≡ some x
get_found none x h = cc
get_found (some y) x h = cc

pub rotate_found :
    (id refresh_id : Text) (next : AuthSession) (w : World) (o : Option AuthSession)
    → (rotate_in o id refresh_id next w).0 ≡ ok tt
    → (x : AuthSession) × (o ≡ some x)
      × (x.refresh_token_id ≡ refresh_id)
      × (x.user_id ≡ next.user_id)
      × (next.id ≡ id)
      × ((rotate_in o id refresh_id next w).1.sessions ≡ put id next w.sessions)
rotate_found id refresh_id next w none h = cc
rotate_found id refresh_id next w (some x) h = (
  x,
  refl,
  ground (arith, eq_iff x.refresh_token_id refresh_id),
  ground (arith, eq_iff x.user_id next.user_id),
  ground (arith, eq_iff next.id id),
  ground arith,
)

pub rotate_own :
    (id refresh_id : Text) (next : AuthSession) (w : World) (o : Option AuthSession)
    → OwnIds w
    → OwnIds (rotate_in o id refresh_id next w).1
rotate_own id refresh_id next w none i j y found = i j y found
rotate_own id refresh_id next w (some x) i j y found =
    ground (arith, i j y, eq_iff next.id id, eq_iff j id)

pub unless_of-ne :
    (user_id : Text) (o : Option AuthSession) (x : AuthSession)
    → unless_of user_id o ≡ some x
    → x.user_id ≢ user_id
unless_of-ne user_id none x h = cc
unless_of-ne user_id (some y) x h = ground (arith, eq_iff y.user_id user_id)

pub unless_of-some :
    (user_id : Text) (o : Option AuthSession) (x : AuthSession)
    → unless_of user_id o ≡ some x
    → o ≡ some x
unless_of-some user_id none x h = cc
unless_of-some user_id (some y) x h = ground arith

pub create_own :
    (x : AuthSession) (ttl : ℤ) (w : World) → OwnIds w → OwnIds (map_store.create x ttl w).1
create_own x ttl w i j y found = ground (arith, i j y, eq_iff j x.id)

pub delete_own : (id : Text) (w : World) → OwnIds w → OwnIds (map_store.delete id w).1
delete_own id w i j y found = ground (arith, i j y, eq_iff j id)

abbrev pub map_store_laws : SessionLaws map_store
map_store_laws = record {
  live = λ w. w.sessions;
  Inv = OwnIds;
  live-id = λ w i. i;
  get_reads = λ id w x h. (get_found (w.sessions id) x h, refl);
  get-Inv = λ id w i. i;
  create_puts = λ x ttl w h. refl;
  create-Inv = create_own;
  rotate_replaces =
      λ id refresh_id next ttl w h. rotate_found id refresh_id next w (w.sessions id) h;
  rotate-Inv = λ id refresh_id next ttl w i. rotate_own id refresh_id next w (w.sessions id) i;
  delete_removes = λ id w given h. rw (eq_refl id);
  delete-Inv = delete_own;
  delete_all_removes = λ user_id w i h id x found. unless_of-ne user_id (w.sessions id) x found;
  delete_all-Inv =
      λ user_id w i id x found. i id x (unless_of-some user_id (w.sessions id) x found);
}

abbrev pub alice : User
alice = record {
  id = text "u1";
  email = text "a@b.c";
  password_hash = text "#secret";
  first_name = text "Al";
  last_name = text "Ice";
  phone = text "";
  status = status_active;
  roles = record { id = text "r1"; name = role_customer; description = text "" } ∷ [];
  created_at = pos 5;
  updated_at = pos 5;
}

abbrev pub one_user : UserRepository World
one_user = record {
  create = λ u w. (ok (record u { id = text "u2" }), w);
  get_by_id = λ id w. (if id == text "u1" then ok alice else err (is err_not_found), w);
  get_by_email = λ email w. (if email == text "a@b.c" then ok alice else err (is err_not_found), w);
  update = λ u w. (ok u, w);
  delete = λ id w. (ok tt, w);
  list = λ req w. (ok (alice ∷ [], pos 1), w);
  list_roles = λ w. (ok [], w);
  assign_role = λ id name w. (ok tt, w);
  revoke_role = λ id name w. (ok tt, w);
}

abbrev pub sample_claims : Text → Text → JwtClaims
sample_claims token_type id = record {
  email = text "a@b.c";
  roles = role_customer ∷ [];
  token_type = token_type;
  session_id = text "s1";
  issuer = text "i";
  subject = text "u1";
  audience = text "p" ∷ [];
  expires_at = some (pos 900);
  issued_at = some (pos 1);
  id = id;
}

-- The claims of an access token of another user.
abbrev pub other_claims : JwtClaims
other_claims = record (sample_claims (text "access") (text "a2")) {
  subject = text "u2";
  session_id = text "s2";
}

abbrev known_token : Text → Result (Option JwtToken)
known_token token =
    if token == text "access1"
    then ok (some (record { valid = true; claims = sample_claims (text "access") (text "a1") }))
    else if token == text "refresh1"
    then ok (some (record { valid = true; claims = sample_claims (text "refresh") (text "r1") }))
    else if token == text "access2"
    then ok (some (record { valid = true; claims = other_claims }))
    else err (other (text "token is malformed"))

abbrev ascii_lower : ℕ → ℕ
ascii_lower c = c

abbrev pub sample_platform : Platform World
sample_platform = record {
  jwt = record {
    hs256 = text "HS256";
    new_numeric_date = λ t. t;
    signed_string = λ alg c secret. ok c.id;
    parse_with_claims = λ token key o w. (known_token token, w);
  };
  unicode = record { to_lower_rune = ascii_lower; fold_rune = ascii_lower };
  generate_from_password = λ p w. (ok (b'#' ∷ p), w);
  compare_hash_and_password =
      λ hash p. if hash == (b'#' ∷ p) then ok tt else err (other (text "mismatch"));
  new_uuid = λ w. ((1000 + w.drawn) ∷ [], record w { drawn = suc w.drawn });
  now = λ w. (pos 100, w);
}

abbrev pub sample_service : UserService World
sample_service = record {
  users = one_user;
  sessions = map_store;
  platform = sample_platform;
  secret = text "k";
  issuer = text "i";
  audience = text "p";
  access_ttl = pos 10;
  refresh_ttl = pos 1000;
}

abbrev pub sample_session : AuthSession
sample_session = record {
  id = text "s1";
  user_id = text "u1";
  email = text "a@b.c";
  roles = role_customer ∷ [];
  access_token_id = text "a1";
  refresh_token_id = text "r1";
  created_at = pos 50;
  expires_at = pos 1050;
}

-- One session is open.
abbrev pub sample_world : World
sample_world = record { sessions = put (text "s1") sample_session (λ j. none); drawn = 0 }

-- The other user has a session too.
abbrev pub other_session : AuthSession
other_session = record sample_session {
  id = text "s2";
  user_id = text "u2";
  access_token_id = text "a2";
  refresh_token_id = text "r2";
}

abbrev pub two_sessions : World
two_sessions = record sample_world {
  sessions = put (text "s2") other_session sample_world.sessions;
}

pub sample_world_own : OwnIds sample_world
sample_world_own id x found = ground (arith, eq_iff id (text "s1"))

sample-Keeps : (w w' : World) → w'.sessions ≡ w.sessions → Keeps sample_service map_store_laws w w'
sample-Keeps w w' h = record {
  live = h;
  inv = λ i id x found. i id x (ap (λ (m : Sessions). m id) (sym h) ∙ found);
}

pub sample_separate : Separate sample_service map_store_laws
sample_separate = record {
  now = λ w. sample-Keeps w w refl;
  new_uuid = λ w. sample-Keeps w _ refl;
  parse = λ token key o w. sample-Keeps w w refl;
  get_by_id = λ id w. sample-Keeps w w refl;
  get_by_email = λ email w. sample-Keeps w w refl;
  assign_role = λ id name w. sample-Keeps w w refl;
  revoke_role = λ id name w. sample-Keeps w w refl;
  delete = λ id w. sample-Keeps w w refl;
}

pub sample_jwt : JwtLaws sample_service
sample_jwt = record { parse_agrees = λ token key o w w' t t' h h'. cc (h, h') }

pub two_sessions_own : OwnIds two_sessions
two_sessions_own id x found = ground (arith, eq_iff id (text "s1"), eq_iff id (text "s2"))
