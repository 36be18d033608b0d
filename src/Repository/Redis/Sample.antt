-- ===== src/Repository/Redis/Sample.antt =====
-- A server in memory that never fails, and an encoding of sessions by lengths, for the tests. They
-- meet the hypotheses on the client and the JSON package.
use storemesh_user_service.Base.{
  ℕ, zero, suc, ◌≡◌, refl, sym, ap, ◌∙◌, inr, List, [], ◌∷◌, ◌++◌, Option, none, some, arith,
  length,
}
use storemesh_user_service.Base.Int.{ℤ, pos, negsuc}
use storemesh_user_service.Go.Text.{Text, text}
use storemesh_user_service.Go.Errors.{is, redis_nil, other}
use storemesh_user_service.Go.Action.{Result, ok, err}
use storemesh_user_service.Domain.{AuthSession}
use storemesh_user_service.Repository.Redis.{Client, Json, SessionCache}
use storemesh_user_service.Repository.Redis.Keyspace.{
  Keyspace, Entry, string, members, update, run_commands, delete_keys, contains, is_member, Effect,
  Read, ClientLaws, CacheLaws,
}

abbrev read_text : Option Entry → Result Text
read_text none = err (is redis_nil)
read_text (some (string v)) = ok v
read_text (some (members ms)) = err (other (text "WRONGTYPE"))

abbrev read_members : Option Entry → Result (List Text)
read_members none = ok []
read_members (some (string v)) = err (other (text "WRONGTYPE"))
read_members (some (members ms)) = ok ms

abbrev pub memory : Client Keyspace
memory = record {
  get = λ k ks. (read_text (ks k), ks);
  set = λ k v ttl ks. (ok tt, update k (some (string v)) ks);
  s_members = λ k ks. (read_members (ks k), ks);
  del = λ keys ks. (ok tt, delete_keys keys ks);
  tx_pipelined = λ cs ks. (ok tt, run_commands cs ks);
  watch = λ body k ks. body ks;
  tx_get = λ k ks. (read_text (ks k), ks);
  tx_exec = λ cs ks. (ok tt, run_commands cs ks);
}

pub read_text-Read :
    (k : Text) (ks : Keyspace) (e : Option Entry) → ks k ≡ e → Read k ks ks (read_text e)
read_text-Read k ks none h = record { same = refl; found = λ v p. cc; missing = λ e p q. h }
read_text-Read k ks (some (string w)) h = record {
  same = refl;
  found = λ v p. cc (h, p);
  missing = λ e p q. cc;
}
read_text-Read k ks (some (members ms)) h = record {
  same = refl;
  found = λ v p. cc;
  missing = λ e p q. ground arith;
}

pub read_members-law :
    (e : Option Entry) (ms : List Text)
    → read_members e ≡ ok ms
    → (m : Text) → contains m ms ≡ is_member m e
unfolding contains
read_members-law none [] h m = refl
read_members-law none (t ∷ ts) h m = cc
read_members-law (some (string v)) ms h m = cc
read_members-law (some (members ns)) ms h m = cc

pub ok-Effect : (before after : Keyspace) → Effect {A = Unit {0}} before after after (ok tt)
ok-Effect before after = record { done = λ a h. refl; failed = λ e h. cc; aborted = λ e h k. cc }

unfoldable pub memory_laws : ClientLaws memory
memory_laws = record {
  keys = λ ks. ks;
  get_law = λ k ks. read_text-Read k ks (ks k) refl;
  tx_get_law = λ k ks. read_text-Read k ks (ks k) refl;
  set_law = λ k v ttl ks. ok-Effect ks _;
  s_members_keys = λ k ks. refl;
  s_members_law = λ k ks. read_members-law (ks k);
  del_law = λ keys ks. ok-Effect ks _;
  pipelined_law = λ cs ks. ok-Effect ks _;
  exec_law = λ cs ks. ok-Effect ks _;
  watch_law = λ body k ks. inr (ks, refl, refl, refl);
}

-- The encoding: a text behind its length, a list of texts behind its length.
abbrev enc : Text → Text → Text
enc t rest = length t ∷ (t ++ rest)

abbrev enc_texts : List Text → Text → Text
enc_texts [] rest = rest
enc_texts (t ∷ ts) rest = enc t (enc_texts ts rest)

abbrev enc_int : ℤ → Text → Text
enc_int (pos n) rest = 0 ∷ n ∷ rest
enc_int (negsuc n) rest = 1 ∷ n ∷ rest

infixl 5 ◌>>=◌
abbrev ◌>>=◌ : {A B : Type 0} → Option A → (A → Option B) → Option B
none >>= f = none
some a >>= f = f a

abbrev cons_first : ℕ → Text × Text → Text × Text
cons_first c (t, r) = (c ∷ t, r)

unfoldable pub split : ℕ → Text → Option (Text × Text)
split zero r = some ([], r)
split (suc n) [] = none
split (suc n) (c ∷ r) = do p ← split n r; some (cons_first c p)

abbrev dec : Text → Option (Text × Text)
dec [] = none
dec (n ∷ r) = split n r

unfoldable pub dec_texts : ℕ → Text → Option (List Text × Text)
dec_texts zero r = some ([], r)
dec_texts (suc n) r = do (t, r1) ← dec r; (ts, r2) ← dec_texts n r1; some (t ∷ ts, r2)

abbrev dec_list : Text → Option (List Text × Text)
dec_list [] = none
dec_list (n ∷ r) = dec_texts n r

abbrev dec_int : Text → Option (ℤ × Text)
dec_int (zero ∷ n ∷ r) = some (pos n, r)
dec_int (suc k ∷ n ∷ r) = some (negsuc n, r)
dec_int (k ∷ []) = none
dec_int [] = none

unfoldable pub encode : AuthSession → Text
encode x = enc x.id (
    enc x.user_id (
      enc x.email (
        length x.roles
        ∷ enc_texts x.roles (
            enc x.access_token_id
              (enc x.refresh_token_id (enc_int x.created_at (enc_int x.expires_at [])))))))

unfoldable pub decode : Text → Option AuthSession
decode t = do
  (id, r1) ← dec t
  (user_id, r2) ← dec r1
  (email, r3) ← dec r2
  (roles, r4) ← dec_list r3
  (access_token_id, r5) ← dec r4
  (refresh_token_id, r6) ← dec r5
  (created_at, r7) ← dec_int r6
  (expires_at, r8) ← dec_int r7
  some (record {
    id = id;
    user_id = user_id;
    email = email;
    roles = roles;
    access_token_id = access_token_id;
    refresh_token_id = refresh_token_id;
    created_at = created_at;
    expires_at = expires_at;
  })

split-enc : (t rest : Text) → split (length t) (t ++ rest) ≡ some (t, rest)
unfolding split
split-enc [] rest = refl
split-enc (c ∷ t) rest = rw (split-enc t rest)

dec_texts-enc :
    (ts : List Text) (rest : Text) → dec_texts (length ts) (enc_texts ts rest) ≡ some (ts, rest)
unfolding dec_texts
dec_texts-enc [] rest = refl
dec_texts-enc (t ∷ ts) rest = rw (split-enc t (enc_texts ts rest), dec_texts-enc ts rest)

dec_int-enc : (z : ℤ) (rest : Text) → dec_int (enc_int z rest) ≡ some (z, rest)
dec_int-enc (pos n) rest = refl
dec_int-enc (negsuc n) rest = refl

decode-encode : (x : AuthSession) → decode (encode x) ≡ some x
unfolding decode encode
decode-encode x = simp (split-enc, dec_texts-enc, dec_int-enc)

abbrev or_malformed : {A : Type 0} → Option A → Result A
or_malformed none = err (other (text "unexpected end of JSON input"))
or_malformed (some a) = ok a

abbrev pub length_json : Json
length_json = record {
  marshal_session = λ x. ok (encode x);
  unmarshal_session = λ p. or_malformed (decode p);
  marshal_profile = λ p. ok [];
  unmarshal_profile = λ p. err (other (text "unexpected end of JSON input"));
}

abbrev pub memory_cache : SessionCache Keyspace
memory_cache = record { rdb = memory; json = length_json; now = λ ks. (pos 100, ks) }

pub length_json_roundtrip :
    (x : AuthSession) (p : Text)
    → length_json.marshal_session x ≡ ok p
    → length_json.unmarshal_session p ≡ ok x
length_json_roundtrip x p h =
    let same : encode x ≡ p = cc h in
    ap (λ q. or_malformed (decode q)) (sym same) ∙ ap or_malformed (decode-encode x)

unfoldable pub memory_cache_laws : CacheLaws memory_cache
memory_cache_laws = record {
  client = memory_laws;
  session_roundtrip = length_json_roundtrip;
  now_keys = λ ks. refl;
}
