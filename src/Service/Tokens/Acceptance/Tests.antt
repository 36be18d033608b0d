-- ===== src/Service/Tokens/Acceptance/Tests.antt =====
-- A login in the world of Service.Sample, with tokens that carry their claims.
use storemesh_user_service.Base.{
  ◌≡◌, refl, sym, ap, [], ◌∷◌, Bool, true, false, Option, none, some, if◌then◌else◌,
}
use storemesh_user_service.Base.Int.{pos, leb_ℤ}
use storemesh_user_service.Go.Text.{Text, text}
use storemesh_user_service.Go.Errors.{other}
use storemesh_user_service.Go.Action.{Result, ok, err}
use storemesh_user_service.Go.Time.{Time}
use storemesh_user_service.Domain.{
  TokenPair, AuthRequest, AuthSession, role_customer, token_type_access,
}
use storemesh_user_service.Service.{UserService, JwtClaims, JwtToken}
use storemesh_user_service.Service.Sample.{World, sample_service, sample_platform, sample_world}
use storemesh_user_service.Service.Tokens.{authenticate}
use storemesh_user_service.Service.Tokens.Acceptance.{SignedLaws}
use storemesh_user_service.Repository.Redis.Sample.{length_json, length_json_roundtrip, encode}

abbrev packed : JwtClaims → Time → Time → AuthSession
packed c issued_at expires_at = record {
  id = c.session_id;
  user_id = c.subject;
  email = c.email;
  roles = c.roles;
  access_token_id = c.token_type;
  refresh_token_id = c.id;
  created_at = issued_at;
  expires_at = expires_at;
}

abbrev unpacked : AuthSession → JwtClaims
unpacked x = record {
  email = x.email;
  roles = x.roles;
  token_type = x.access_token_id;
  session_id = x.id;
  issuer = text "i";
  subject = x.user_id;
  audience = text "p" ∷ [];
  expires_at = some x.expires_at;
  issued_at = some x.created_at;
  id = x.refresh_token_id;
}

abbrev sign : JwtClaims → Option Time → Option Time → Result Text
sign c (some i) (some e) = ok (encode (packed c i e))
sign c none e = err (other (text "no time of issue"))
sign c (some i) none = err (other (text "no expiry"))

abbrev expired : Option Time → Bool
expired none = true
expired (some e) = leb_ℤ e (pos 100)

abbrev read_token : Result AuthSession → Result (Option JwtToken)
read_token (err e) = err e
read_token (ok x) =
    if leb_ℤ x.expires_at (pos 100)
    then err (other (text "token is expired"))
    else ok (some (record { valid = true; claims = unpacked x }))

abbrev signing_service : UserService World
signing_service = record sample_service {
  platform = record sample_platform {
    jwt = record {
      hs256 = text "HS256";
      new_numeric_date = λ t. t;
      signed_string = λ alg c secret. sign c c.issued_at c.expires_at;
      parse_with_claims = λ token key o w. (read_token (length_json.unmarshal_session token), w);
    };
  };
}

unpacked-packed :
    (c : JwtClaims) (i e : Time)
    → c.issued_at ≡ some i
    → c.expires_at ≡ some e
    → c.issuer ≡ text "i"
    → c.audience ≡ text "p" ∷ []
    → unpacked (packed c i e) ≡ c
unpacked-packed c i e h k m n = λ j. record {
  email = c.email;
  roles = c.roles;
  token_type = c.token_type;
  session_id = c.session_id;
  issuer = sym m j;
  subject = c.subject;
  audience = sym n j;
  expires_at = sym k j;
  issued_at = sym h j;
  id = c.id;
}

signed_back :
    (c : JwtClaims) (token : Text) (i e : Option Time)
    → c.issued_at ≡ i
    → c.expires_at ≡ e
    → sign c i e ≡ ok token
    → c.issuer ≡ text "i"
    → c.audience ≡ text "p" ∷ []
    → expired e ≡ false
    → read_token (length_json.unmarshal_session token)
      ≡ ok (some (record { valid = true; claims = c }))
signed_back c token none e h k s m n t = cc
signed_back c token (some i) none h k s m n t = cc
signed_back c token (some i) (some e) h k s m n t =
    let same : encode (packed c i e) ≡ token = cc s in
    let back = length_json_roundtrip (packed c i e) token (ap ok same) in
    let claims = unpacked-packed c i e h k m n in
    rw (back, t) (λ j. ok (some (record { valid = true; claims = claims j })))

signing_laws : SignedLaws signing_service
signing_laws = record {
  InTime = λ c w. expired c.expires_at ≡ false;
  signed_reads =
      λ c token w s m n t. signed_back c token c.issued_at c.expires_at refl refl s m n t;
  uuid_given = λ w h. cc h;
}

abbrev login : AuthRequest
login = record { email = text " a@b.c "; password = text "secret" }

abbrev logged_in : World
logged_in = (authenticate signing_service login sample_world).1

abbrev access_session : AuthSession
access_session = record {
  id = 1000 ∷ [];
  user_id = text "u1";
  email = text "a@b.c";
  roles = role_customer ∷ [];
  access_token_id = 1001 ∷ [];
  refresh_token_id = 1002 ∷ [];
  created_at = pos 100;
  expires_at = pos 1100;
}

abbrev access_token : Text
access_token = encode (record access_session {
  access_token_id = token_type_access;
  refresh_token_id = 1001 ∷ [];
  expires_at = pos 110;
})

abbrev refresh_token : Text
refresh_token =
    encode
      (record access_session { access_token_id = text "refresh"; refresh_token_id = 1002 ∷ [] })

abbrev pair : TokenPair
pair = record { access_token = access_token; refresh_token = refresh_token }
