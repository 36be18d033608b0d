-- ===== src/Repository/Redis/Concurrent/Once.antt =====
-- A refresh token is rotated at most once, however calls of `Rotate` interleave.
use storemesh_user_service.Base.{
  ◌≡◌, refl, sym, ap, subst, ◌∙◌, List, [], ◌∷◌, true, false, some, arith, inl, inr,
}
use storemesh_user_service.Go.Text.{Text}
use storemesh_user_service.Go.Text.Laws.{eq_iff, eq_refl}
use storemesh_user_service.Go.Action.{ok}
use storemesh_user_service.Go.Action.Laws.{Result-cases}
use storemesh_user_service.Domain.{AuthSession}
use storemesh_user_service.Domain.Contract.{Sessions, put}
use storemesh_user_service.Repository.Redis.{
  set_key, s_add, expire, SessionCache, unmarshal_session, user_sessions_key, auth_session_key,
}
use storemesh_user_service.Repository.Redis.Keyspace.{Keyspace, run_commands}
use storemesh_user_service.Repository.Redis.Consistency.{session_at, store-session_at}
use storemesh_user_service.Repository.Redis.Concurrent.{
  Attempt, idle, started, watching, queued, rotation_commands, touch, World, enter, run, move,
  rotation_checks, IsAttempt, Step, start, watch, read, leave, commit, abort, create_session, other,
  Reach, here, next, IsInitial,
}
use storemesh_user_service.Repository.Redis.Concurrent.Invariant.{
  token, token-touch, logged, Sound, Inv, Sound-touch, Sound-enter, enter_token, initial-Inv,
  move-Inv, run-Inv, start-Inv, create-Inv,
}

-- No session's refresh token stands twice in the log.
abbrev pub IsOnce : List Attempt → Type 0
IsOnce [] = Unit
IsOnce (a ∷ l) = (logged a.id a.refresh_id l ≡ false) × IsOnce l

module _ {S : Type 0} (c : SessionCache S) where
  -- The session that a call is about to rotate.
  record Due (a : Attempt) (w : World) : Type 0 where
    current : AuthSession
    stored : session_at c w.keys a.id ≡ some current
    holds : current.refresh_token_id ≡ a.refresh_id
    same_user : current.user_id ≡ a.next.user_id
    attempt : IsAttempt c a

  checks_ok :
      (a : Attempt) (v : Text)
      → rotation_checks c a.refresh_id a.next v ≡ ok tt
      → (x : AuthSession) × (unmarshal_session c v ≡ ok x)
        × (x.refresh_token_id ≡ a.refresh_id)
        × (x.user_id ≡ a.next.user_id)
  unfolding rotation_checks
  checks_ok a v h = elim (Result-cases (unmarshal_session c v)) [
    | inr (e, q) ↦ absurd (ground arith)
    | inl (x, q) ↦ (
      x,
      q,
      ground (arith, eq_iff x.refresh_token_id a.refresh_id),
      ground (arith, eq_iff x.refresh_token_id a.refresh_id, eq_iff x.user_id a.next.user_id),
    )
  ]

  queued-Due :
      (p : Text) (a : Attempt) (v : Text) (w : World)
      → w.phase p ≡ queued a v true
      → Inv c w
      → Due a w
  unfolding session_at
  queued-Due p a v w h i =
      let (attempt, checked, read_still) = subst (Sound c w.keys) h (i.sound p) in
      let (x, q, holds, user) = checks_ok a v checked in
      record {
        current = x;
        stored = rw (read_still refl, q);
        holds = holds;
        same_user = user;
        attempt = attempt;
      }

  commit-put :
      (a : Attempt) (ks : Keyspace)
      → IsAttempt c a
      → session_at c (run_commands (rotation_commands a) ks) ≡ put a.id a.next (session_at c ks)
  commit-put a ks h =
      ap
        (λ j. session_at c (
          run_commands
            (set_key (auth_session_key j) a.payload a.ttl
              ∷ s_add (user_sessions_key a.next.user_id) a.next.id
              ∷ expire (user_sessions_key a.next.user_id) a.ttl
              ∷ [])
            ks))
        (sym h.same_id)
      ∙ (store-session_at c a.next a.payload a.ttl ks h.reads_back h.positive
          ∙ ap (λ j. put j a.next (session_at c ks)) h.same_id)

  commit-Inv :
      (p : Text) (a : Attempt) (w : World)
      → token (w.phase p) ≡ some a.next.refresh_token_id
      → Due a w
      → Inv c w
      → Inv c (record (run (rotation_commands a) (move p idle w)) { log = a ∷ w.log })
  unfolding logged
  commit-Inv p a w mine due i =
      let cs = rotation_commands a in
      let t0 = a.next.refresh_token_id in
      let x = due.current in
      let at = λ (j : Text). ap (λ (m : Sessions). m j) (commit-put a w.keys due.attempt) in
      let inside = λ (q t : Text) (k : token (touch cs (enter p idle w.phase q)) ≡ some t).
        sym (token-touch cs (enter p idle w.phase q)) ∙ k in
      let back = λ (q t : Text) (k : token (touch cs (enter p idle w.phase q)) ≡ some t).
        enter_token c p idle w (λ t' h. absurd (ground arith)) q t (inside q t k) in
      record {
        sound = λ q.
            Sound-touch c cs w.keys (enter p idle w.phase q)
              (Sound-enter c p q idle w tt (i.sound q));
        token_used = λ q t k. i.token_used q t (back q t k);
        stored_used = λ id y k. ground (arith, at id, i.token_used p t0 mine, i.stored_used id y);
        token_new = λ q t id y k l. ground (
          arith,
          at id,
          inside q t k,
          eq_refl p,
          i.token_own q p t (back q t k),
          i.token_new q t id y (back q t k),
        );
        token_own = λ q r t k l. i.token_own q r t (back q t k) (back r t l);
        retired_used = λ id r k. ground (
          arith,
          eq_iff r a.refresh_id,
          i.retired_used id r,
          i.stored_used a.id x due.stored,
          due.holds,
        );
        retired_stored = λ id r y k l. ground (
          arith,
          at id,
          eq_iff id a.id,
          eq_iff r a.refresh_id,
          i.token_new p t0 a.id x mine due.stored,
          due.holds,
          i.retired_token id r p,
          i.retired_stored id r y,
        );
        retired_token = λ id r q k l. ground (
          arith,
          eq_iff r a.refresh_id,
          i.token_new q r a.id x (back q r l) due.stored,
          due.holds,
          i.retired_token id r q,
          back q r l,
        );
      }

  Step-Inv : {w u : World} → Step c w u → Inv c w → Inv c u
  Step-Inv {w} (start p a h k new) i = start-Inv c p a w k new i
  Step-Inv {w} (watch p a h) i =
      move-Inv c p (watching a true) w (subst (Sound c w.keys) h (i.sound p))
        (λ t k. ap token h ∙ k) i
  Step-Inv {w} (read p a u v h k checked) i =
      let attempt = subst (Sound c w.keys) h (i.sound p) in
      move-Inv c p (queued a v u) w (attempt, checked, λ clean. k) (λ t k. ap token h ∙ k) i
  Step-Inv {w} (leave p) i = move-Inv c p idle w tt (λ t k. absurd (ground arith)) i
  Step-Inv {w} (commit p a v h) i = commit-Inv p a w (ap token h) (queued-Due p a v w h i) i
  Step-Inv {w} (abort p a v h) i =
      let (attempt, checked, unchanged) = subst (Sound c w.keys) h (i.sound p) in
      move-Inv c p (started a) w attempt (λ t k. ap token h ∙ k) i
  Step-Inv {w} (create_session x payload ttl h k new) i =
      create-Inv c x payload ttl w (store-session_at c x payload ttl w.keys h k) new i
  Step-Inv {w} (other cs old) i = run-Inv c cs w old i

  Reach-Inv : {w u : World} → IsInitial c w → Reach c w u → Inv c u
  Reach-Inv {w} h here = initial-Inv c w h
  Reach-Inv h (next r st) = Step-Inv st (Reach-Inv h r)

  -- In a world that is reached by steps from one without calls under way, where every stored refresh
  -- token counts as drawn: when a transaction may run, the session stored under the id of the call
  -- at this very moment holds its refresh token and belongs to the user of the next session, and the
  -- transaction puts the next session in its place and changes no other session.
  pub commit_replaces :
      {w u : World} (p : Text) (a : Attempt) (v : Text)
      → IsInitial c w
      → Reach c w u
      → u.phase p ≡ queued a v true
      → (current : AuthSession) × (session_at c u.keys a.id ≡ some current)
        × (current.refresh_token_id ≡ a.refresh_id)
        × (current.user_id ≡ a.next.user_id)
        × (session_at c (run_commands (rotation_commands a) u.keys)
            ≡ put a.id a.next (session_at c u.keys))
  commit_replaces {w} {u} p a v h r k =
      let due = queued-Due p a v u k (Reach-Inv h r) in
      (due.current, due.stored, due.holds, due.same_user, commit-put a u.keys due.attempt)

  Step-IsOnce : {w u : World} → Step c w u → Inv c w → IsOnce w.log → IsOnce u.log
  Step-IsOnce (start p a h k new) i o = o
  Step-IsOnce (watch p a h) i o = o
  Step-IsOnce (read p a u v h k checked) i o = o
  Step-IsOnce (leave p) i o = o
  Step-IsOnce {w} (commit p a v h) i o =
      let due = queued-Due p a v w h i in
      (ground (arith, i.retired_stored a.id a.refresh_id due.current, due.stored, due.holds), o)
  Step-IsOnce (abort p a v h) i o = o
  Step-IsOnce (create_session x payload ttl h k new) i o = o
  Step-IsOnce (other cs old) i o = o

  -- However calls of `Rotate`, new sessions, deletions and expiring keys interleave, no refresh token
  -- of a session is rotated twice: the log of the transactions that ran has no session and refresh
  -- token twice. The conditions: no call is under way at the start, every stored refresh token counts
  -- as drawn, and each new session has a refresh token that was not drawn before.
  pub Reach-IsOnce : {w u : World} → IsInitial c w → Reach c w u → IsOnce u.log
  Reach-IsOnce {w} h here = subst IsOnce (sym h.no_log) tt
  Reach-IsOnce h (next r st) = Step-IsOnce st (Reach-Inv h r) (Reach-IsOnce h r)
