-- ===== src/Repository/Redis/Concurrent/Tests.antt =====
-- Two calls of `Rotate` with the same refresh token, interleaved, on the sample store.
use storemesh_user_service.Base.{◌≡◌, refl, [], ◌∷◌, true, false, none, some}
use storemesh_user_service.Base.Int.{pos}
use storemesh_user_service.Go.Text.{Text, text, ◌==◌}
use storemesh_user_service.Domain.{AuthSession}
use storemesh_user_service.Domain.Contract.{put}
use storemesh_user_service.Repository.Redis.{
  unmarshal_session, auth_session_key, user_sessions_key, store_commands,
}
use storemesh_user_service.Repository.Redis.Keyspace.{run_commands}
use storemesh_user_service.Repository.Redis.Consistency.{session_at}
use storemesh_user_service.Repository.Redis.Sample.{memory_cache, encode, decode, split, dec_texts}
use storemesh_user_service.Repository.Redis.Concurrent.{
  Attempt, idle, started, watching, queued, rotation_commands, touches, World, draw, run, move,
  rotation_checks, IsAttempt, start, watch, read, commit, abort, create_session, Reach, here, next,
  IsInitial,
}
use storemesh_user_service.Repository.Redis.Concurrent.Once.{IsOnce, commit_replaces, Reach-IsOnce}

abbrev session : AuthSession
session = record {
  id = text "s1";
  user_id = text "u1";
  email = text "a@b.c";
  roles = text "admin" ∷ [];
  access_token_id = text "a1";
  refresh_token_id = text "r1";
  created_at = pos 50;
  expires_at = pos 1050;
}

abbrev session_with : Text → AuthSession
session_with t = record session { refresh_token_id = t }

abbrev attempt : Text → Attempt
attempt t = record {
  id = text "s1";
  refresh_id = text "r1";
  next = session_with t;
  payload = encode (session_with t);
  ttl = pos 950;
}

abbrev first : Attempt
first = attempt (text "r2")

abbrev second : Attempt
second = attempt (text "r3")

abbrev nothing : World
nothing = record { keys = λ k. none; phase = λ p. idle; used = λ t. false; log = [] }

nothing-IsInitial : IsInitial memory_cache nothing
unfolding session_at
nothing-IsInitial = record {
  no_calls = λ p. refl;
  no_log = refl;
  stored_used = λ id x h. absurd (cc h);
}

first-IsAttempt : IsAttempt memory_cache first
unfolding unmarshal_session encode decode split dec_texts
first-IsAttempt = record { same_id = refl; reads_back = refl; positive = refl }

second-IsAttempt : IsAttempt memory_cache second
unfolding unmarshal_session encode decode split dec_texts
second-IsAttempt = record { same_id = refl; reads_back = refl; positive = refl }

abbrev p1 : Text
p1 = text "p1"

abbrev p2 : Text
p2 = text "p2"

abbrev logged_in : World
logged_in = record (run (store_commands session (encode session) (pos 950)) nothing) {
  used = draw (text "r1") (λ t. false);
}

abbrev entered : World → Text → Attempt → World
entered w p a = record (move p (started a) w) { used = draw a.next.refresh_token_id w.used }

abbrev contended : World
contended = move p2 (queued second (encode session) true) (
    move p1 (queued first (encode session) true) (
      move p2 (watching second true)
        (move p1 (watching first true) (entered (entered logged_in p1 first) p2 second))))

contended-Reach : Reach memory_cache nothing contended
unfolding unmarshal_session rotation_checks encode decode split dec_texts ◌==◌ auth_session_key
    user_sessions_key touches
contended-Reach =
    next
      (next
        (next
          (next
            (next
              (next (next here (create_session session (encode session) (pos 950) refl refl refl))
                (start p1 first refl first-IsAttempt refl))
              (start p2 second refl second-IsAttempt refl))
            (watch p1 first refl))
          (watch p2 second refl))
        (read p1 first true (encode session) refl refl refl))
      (read p2 second true (encode session) refl refl refl)

contended_phase : contended.phase p1 ≡ queued first (encode session) true
unfolding ◌==◌
contended_phase = refl

commit_replaces_example :
    (current : AuthSession) × (session_at memory_cache contended.keys (text "s1") ≡ some current)
    × (current.refresh_token_id ≡ text "r1")
    × (current.user_id ≡ text "u1")
    × (session_at memory_cache (run_commands (rotation_commands first) contended.keys)
        ≡ put (text "s1") (session_with (text "r2")) (session_at memory_cache contended.keys))
commit_replaces_example =
    commit_replaces memory_cache p1 first (encode session) nothing-IsInitial contended-Reach
      contended_phase

-- The first call commits, and the second one is sent back to try again.
abbrev decided : World
decided =
    move p2 (started second)
      (record (run (rotation_commands first) (move p1 idle contended)) { log = first ∷ [] })

decided-Reach : Reach memory_cache nothing decided
unfolding ◌==◌ touches auth_session_key user_sessions_key
decided-Reach =
    next (next contended-Reach (commit p1 first (encode session) refl))
      (abort p2 second (encode session) refl)

Reach-IsOnce_example : IsOnce decided.log
Reach-IsOnce_example = Reach-IsOnce memory_cache nothing-IsInitial decided-Reach
