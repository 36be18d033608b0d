-- ===== src/Repository/Redis/Keyspace.antt =====
-- What Redis documents of its commands, on the keys of one server: the hypotheses on the client.
use storemesh_user_service.Base.{
  ◌≡◌, ◌⊎◌, List, [], ◌∷◌, Bool, true, false, ◌||◌, Option, none, some, if◌then◌else◌,
}
use storemesh_user_service.Base.Int.{pos, leb_ℤ}
use storemesh_user_service.Go.Text.{Text, ◌==◌}
use storemesh_user_service.Go.Errors.{Error, errors_is, redis_nil, tx_failed}
use storemesh_user_service.Go.Action.{Result, ok, err, Action}
use storemesh_user_service.Repository.Redis.{
  Command, set_key, s_add, expire, del_key, s_rem, Client, SessionCache,
}
use storemesh_user_service.Domain.{AuthSession}

pub data Entry : Type 0 where
  string : Text → Entry
  members : List Text → Entry

abbrev pub Keyspace : Type 0
Keyspace = Text → Option Entry

-- `m` is one of the texts.
unfoldable pub contains : Text → List Text → Bool
contains m [] = false
contains m (t ∷ ts) = m == t || contains m ts

unfoldable pub without : Text → List Text → List Text
without m [] = []
without m (t ∷ ts) = if m == t then without m ts else t ∷ without m ts

-- `m` is a member of the set that is stored.
abbrev pub is_member : Text → Option Entry → Bool
is_member m none = false
is_member m (some (string v)) = false
is_member m (some (members ms)) = contains m ms

abbrev pub with_member : Text → Option Entry → Option Entry
with_member m none = some (members (m ∷ []))
with_member m (some (string v)) = some (string v)
with_member m (some (members ms)) = some (members (m ∷ ms))

-- Redis removes a set with its last member.
abbrev pub members_or_none : List Text → Option Entry
members_or_none [] = none
members_or_none (m ∷ ms) = some (members (m ∷ ms))

abbrev pub without_member : Text → Option Entry → Option Entry
without_member m none = none
without_member m (some (string v)) = some (string v)
without_member m (some (members ms)) = members_or_none (without m ms)

abbrev pub update : Text → Option Entry → Keyspace → Keyspace
update k e ks j = if j == k then e else ks j

abbrev pub run_command : Command → Keyspace → Keyspace
run_command (set_key k v ttl) ks = update k (some (string v)) ks
run_command (s_add k m) ks = update k (with_member m (ks k)) ks
run_command (expire k ttl) ks = if leb_ℤ ttl (pos 0) then update k none ks else ks
run_command (del_key k) ks = update k none ks
run_command (s_rem k m) ks = update k (without_member m (ks k)) ks

abbrev pub run_commands : List Command → Keyspace → Keyspace
run_commands [] ks = ks
run_commands (c ∷ cs) ks = run_commands cs (run_command c ks)

abbrev pub delete_keys : List Text → Keyspace → Keyspace
delete_keys keys ks j = if contains j keys then none else ks j

-- A call that turns the keys into `after` if it succeeds. After an error the call may have had its
-- effect (the reply was lost) or not; a transaction that failed because a watched key changed has
-- had none.
pub record Effect {A : Type 0} (before after end : Keyspace) (r : Result A) : Type 0 where
  pub done : (a : A) → r ≡ ok a → end ≡ after
  pub failed : (e : Error) → r ≡ err e → (end ≡ before) ⊎ (end ≡ after)
  pub aborted : (e : Error) → r ≡ err e → errors_is e tx_failed ≡ true → end ≡ before

-- A read: it changes no key and returns the text stored, or `redis.Nil` for a missing key.
pub record Read (k : Text) (before end : Keyspace) (r : Result Text) : Type 0 where
  pub same : end ≡ before
  pub found : (v : Text) → r ≡ ok v → before k ≡ some (string v)
  pub missing : (e : Error) → r ≡ err e → errors_is e redis_nil ≡ true → before k ≡ none

-- `Watch`: it fails and changes nothing, or it runs the function from a state with the same keys
-- and returns what the function returned, with its keys.
abbrev pub Watched :
    {S : Type 0} → (S → Keyspace) → Action S (Unit {0}) → S → Result (Unit {0}) → S → Type 0
Watched {S} keys body s r s' =
    ((e : Error) × (r ≡ err e) × (keys s' ≡ keys s))
    ⊎ ((s1 : S) × (keys s1 ≡ keys s) × ((body s1).0 ≡ r) × (keys s' ≡ keys (body s1).1))

pub record ClientLaws {S : Type 0} (c : Client S) : Type 0 where
  pub keys : S → Keyspace
  pub get_law : (k : Text) (s : S) → Read k (keys s) (keys (c.get k s).1) (c.get k s).0
  pub tx_get_law : (k : Text) (s : S) → Read k (keys s) (keys (c.tx_get k s).1) (c.tx_get k s).0
  pub set_law :
      (k v : Text) (ttl : _) (s : S)
      → Effect
          (keys s)
          (update k (some (string v)) (keys s))
          (keys (c.set k v ttl s).1)
          (c.set k v ttl s).0
  pub s_members_keys : (k : Text) (s : S) → keys (c.s_members k s).1 ≡ keys s
  pub s_members_law :
      (k : Text) (s : S) (ms : List Text)
      → (c.s_members k s).0 ≡ ok ms
      → (m : Text) → contains m ms ≡ is_member m (keys s k)
  pub del_law :
      (ks : List Text) (s : S)
      → Effect (keys s) (delete_keys ks (keys s)) (keys (c.del ks s).1) (c.del ks s).0
  pub pipelined_law :
      (cs : List Command) (s : S)
      → Effect
          (keys s)
          (run_commands cs (keys s))
          (keys (c.tx_pipelined cs s).1)
          (c.tx_pipelined cs s).0
  pub exec_law :
      (cs : List Command) (s : S)
      → Effect (keys s) (run_commands cs (keys s)) (keys (c.tx_exec cs s).1) (c.tx_exec cs s).0
  pub watch_law :
      (body : Action S (Unit {0})) (k : Text) (s : S)
      → Watched keys body s (c.watch body k s).0 (c.watch body k s).1

-- Reading back what was written gives it again, and the clock changes no key.
pub record CacheLaws {S : Type 0} (c : SessionCache S) : Type 0 where
  pub client : ClientLaws c.rdb
  pub session_roundtrip :
      (x : AuthSession) (p : Text)
      → c.json.marshal_session x ≡ ok p
      → c.json.unmarshal_session p ≡ ok x
  pub now_keys : (s : S) → client.keys (c.now s).1 ≡ client.keys s
