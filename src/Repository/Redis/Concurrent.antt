-- ===== src/Repository/Redis/Concurrent.antt =====
-- internal/repository/redis/redis.go: `Rotate` called by several goroutines or processes at a time.
-- An attempt of its loop is cut where another caller can get in between: `WATCH`, the read and the
-- checks, and `EXEC`, which runs the queued commands only if no command has touched the watched key
-- since `WATCH`. A token id is used once it has been drawn, and is drawn once (`uuid.NewString`).
pub mod Invariant
mod Once
mod Tests
use storemesh_user_service.Base.{
  ◌≡◌, inl, inr, arith, List, [], ◌∷◌, Bool, true, false, not, ◌||◌, ◌&&◌, Option, none, some,
  if◌then◌else◌,
}
use storemesh_user_service.Base.Int.{pos, leb_ℤ}
use storemesh_user_service.Go.Text.{Text, ◌==◌}
use storemesh_user_service.Go.Errors.{is, err_invalid_token}
use storemesh_user_service.Go.Action.{Result, ok, err, ◌>>=◌, ◌>>◌, pure, lift, on_error, raise_if}
use storemesh_user_service.Go.Action.Laws.{Result-cases}
use storemesh_user_service.Go.Time.{Duration}
use storemesh_user_service.Domain.{AuthSession}
use storemesh_user_service.Repository.Redis.{
  Command, set_key, s_add, expire, del_key, s_rem, SessionCache, unmarshal_session,
  auth_session_key, user_sessions_key, store_commands, rotate_once, missing_as_invalid,
}
use storemesh_user_service.Repository.Redis.Keyspace.{Keyspace, string, run_commands}
use storemesh_user_service.Repository.Redis.Consistency.{session_at}

-- The arguments of one call of `Rotate`, with the next session as it is stored.
pub record Attempt : Type 0 where
  pub id : Text
  pub refresh_id : Text
  pub next : AuthSession
  pub payload : Text
  pub ttl : Duration

abbrev pub watched_key : Attempt → Text
watched_key a = auth_session_key a.id

-- Where a caller stands; the Boolean says that the watched key is untouched since `WATCH`, the text
-- is the payload that was read.
pub data Phase : Type 0 where
  idle : Phase
  started : Attempt → Phase
  watching : Attempt → Bool → Phase
  queued : Attempt → Text → Bool → Phase

abbrev pub rotation_commands : Attempt → List Command
rotation_commands a =
    set_key (watched_key a) a.payload a.ttl
    ∷ s_add (user_sessions_key a.next.user_id) a.next.id
    ∷ expire (user_sessions_key a.next.user_id) a.ttl
    ∷ []

abbrev pub command_key : Command → Text
command_key (set_key k v ttl) = k
command_key (s_add k m) = k
command_key (expire k ttl) = k
command_key (del_key k) = k
command_key (s_rem k m) = k

unfoldable pub touches : Text → List Command → Bool
touches k [] = false
touches k (c ∷ cs) = k == command_key c || touches k cs

abbrev pub touch : List Command → Phase → Phase
touch cs idle = idle
touch cs (started a) = started a
touch cs (watching a u) = watching a (u && not (touches (watched_key a) cs))
touch cs (queued a v u) = queued a v (u && not (touches (watched_key a) cs))

-- The keys of the server, each caller's phase, the token ids drawn, and the calls of `Rotate` that
-- have run their transaction, the last one first.
pub record World : Type 0 where
  pub keys : Keyspace
  pub phase : Text → Phase
  pub used : Text → Bool
  pub log : List Attempt

abbrev pub enter : Text → Phase → (Text → Phase) → Text → Phase
enter p ph phases q = if q == p then ph else phases q

abbrev pub draw : Text → (Text → Bool) → Text → Bool
draw t used j = j == t || used j

-- Commands that a caller runs: they touch the keys that the others watch.
abbrev pub run : List Command → World → World
run cs w = record w { keys = run_commands cs w.keys; phase = λ q. touch cs (w.phase q) }

abbrev pub move : Text → Phase → World → World
move p ph w = record w { phase = enter p ph w.phase }

abbrev pub checks : Text → AuthSession → Result AuthSession → Result (Unit {0})
checks refresh_id next (err e) = err e
checks refresh_id next (ok current) =
    if not (current.refresh_token_id == refresh_id)
    then err (is err_invalid_token)
    else if not (current.user_id == next.user_id)
    then err (is err_invalid_token)
    else ok tt

module _ {S : Type 0} (c : SessionCache S) where
  -- The checks of the function under `Watch`, on the payload that it has read.
  unfoldable pub rotation_checks : Text → AuthSession → Text → Result (Unit {0})
  rotation_checks refresh_id next payload = checks refresh_id next (unmarshal_session c payload)

  -- What `Rotate` has checked before its loop.
  pub record IsAttempt (a : Attempt) : Type 0 where
    pub same_id : a.next.id ≡ a.id
    pub reads_back : unmarshal_session c a.payload ≡ ok a.next
    pub positive : leb_ℤ a.ttl (pos 0) ≡ false

  pub data Step (w : World) : World → Type 0 where
    -- A caller enters `Rotate` with a next session whose refresh token is new.
    start :
        (p : Text) (a : Attempt)
        → w.phase p ≡ idle
        → IsAttempt a
        → w.used a.next.refresh_token_id ≡ false
        → Step w (record (move p (started a) w) { used = draw a.next.refresh_token_id w.used })
    watch : (p : Text) (a : Attempt) → w.phase p ≡ started a → Step w (move p (watching a true) w)
    read :
        (p : Text) (a : Attempt) (u : Bool) (v : Text)
        → w.phase p ≡ watching a u
        → w.keys (watched_key a) ≡ some (string v)
        → rotation_checks a.refresh_id a.next v ≡ ok tt
        → Step w (move p (queued a v u) w)
    -- `Rotate` returns an error: a check or a call failed, or no attempt is left.
    leave : (p : Text) → Step w (move p idle w)
    commit :
        (p : Text) (a : Attempt) (v : Text)
        → w.phase p ≡ queued a v true
        → Step w (record (run (rotation_commands a) (move p idle w)) { log = a ∷ w.log })
    -- `redis.TxFailedErr`: the loop tries again.
    abort :
        (p : Text) (a : Attempt) (v : Text)
        → w.phase p ≡ queued a v false
        → Step w (move p (started a) w)
    -- `Create`, of a session whose refresh token is new.
    create_session :
        (x : AuthSession) (payload : Text) (ttl : Duration)
        → unmarshal_session c payload ≡ ok x
        → leb_ℤ ttl (pos 0) ≡ false
        → w.used x.refresh_token_id ≡ false
        → Step w (record (run (store_commands x payload ttl) w) {
          used = draw x.refresh_token_id w.used;
        })
    -- Commands that store no session: the deletions, the cached profiles, and keys that expire.
    other :
        (cs : List Command)
        → ((id : Text) (x : AuthSession)
            → session_at c (run_commands cs w.keys) id ≡ some x
            → session_at c w.keys id ≡ some x)
        → Step w (run cs w)

  pub data Reach (w : World) : World → Type 0 where
    here : Reach w w
    next : {v u : World} → Reach w v → Step v u → Reach w u

  -- No caller is in `Rotate`, nothing is logged, and the refresh tokens of the stored sessions are
  -- used.
  pub record IsInitial (w : World) : Type 0 where
    pub no_calls : (p : Text) → w.phase p ≡ idle
    pub no_log : w.log ≡ []
    pub stored_used :
        (id : Text) (x : AuthSession)
        → session_at c w.keys id ≡ some x
        → w.used x.refresh_token_id ≡ true

  checks_lem :
      (a : Attempt) (v : Text) (s : S)
      → (do
        current ← lift (unmarshal_session c v)
        raise_if (not (current.refresh_token_id == a.refresh_id)) (is err_invalid_token)
        raise_if (not (current.user_id == a.next.user_id)) (is err_invalid_token)
        c.rdb.tx_exec (rotation_commands a))
          s
        ≡ (lift (rotation_checks a.refresh_id a.next v) >> c.rdb.tx_exec (rotation_commands a)) s
  unfolding rotation_checks
  checks_lem a v s = elim (Result-cases (unmarshal_session c v)) [
    | inr (e, q) ↦ ground arith
    | inl (x, q) ↦ ground arith
  ]

  -- The three phases are the function that `Rotate` runs under `Watch`.
  pub rotate_once_phases :
      (a : Attempt) (s : S)
      → rotate_once c (watched_key a) a.refresh_id a.next a.payload a.ttl s
        ≡ (do
          v ← on_error (missing_as_invalid c) (c.rdb.tx_get (watched_key a))
          lift (rotation_checks a.refresh_id a.next v)
          c.rdb.tx_exec (rotation_commands a))
            s
  unfolding rotate_once rotation_checks
  rotate_once_phases a s = elim (Result-cases (c.rdb.tx_get (watched_key a) s).0) [
    | inr (e, p) ↦ rw p
    | inl (v, p) ↦ rw p (checks_lem a v (c.rdb.tx_get (watched_key a) s).1)
  ]
