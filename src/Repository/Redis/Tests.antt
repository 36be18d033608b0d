-- ===== src/Repository/Redis/Tests.antt =====
-- The session store at concrete inputs, on the server of Sample.
use storemesh_user_service.Base.{◌≡◌, ◌≢◌, refl, [], ◌∷◌, none, some}
use storemesh_user_service.Base.Int.{pos}
use storemesh_user_service.Go.Text.{Text, text, ◌==◌}
use storemesh_user_service.Go.Errors.{is, err_invalid_token}
use storemesh_user_service.Go.Action.{ok, err}
use storemesh_user_service.Domain.{AuthSession}
use storemesh_user_service.Domain.Contract.{put}
use storemesh_user_service.Repository.Redis.{
  create, rotate, rotate_once, rotate_loop, delete_all_for_user, auth_session_key,
  user_sessions_key, validate_session, unmarshal_session,
}
use storemesh_user_service.Repository.Redis.Keyspace.{Keyspace, contains}
use storemesh_user_service.Repository.Redis.Consistency.{session_at}
use storemesh_user_service.Repository.Redis.Contract.{
  stored_sessions, IsConsistentAt, create-keeps, rotate_replaces, delete_all_removes,
}
use storemesh_user_service.Repository.Redis.Sample.{
  memory_cache, memory_cache_laws, memory_laws, encode, decode, split, dec_texts,
}

abbrev session : AuthSession
session = record {
  id = text "s1";
  user_id = text "u1";
  email = text "a@b.c";
  roles = text "admin" ∷ [];
  access_token_id = text "a1";
  refresh_token_id = text "r1";
  created_at = pos 50;
  expires_at = pos 1050;
}

abbrev next_session : AuthSession
next_session = record session { access_token_id = text "a2"; refresh_token_id = text "r2" }

abbrev other_session : AuthSession
other_session = record session { id = text "s2"; user_id = text "u2" }

abbrev empty : Keyspace
empty k = none

-- One session of each of two users is stored.
abbrev one_stored : Keyspace
one_stored = (create memory_cache session (pos 950) empty).1

abbrev two_stored : Keyspace
two_stored = (create memory_cache other_session (pos 950) one_stored).1

empty-IsConsistent : IsConsistentAt memory_cache memory_cache_laws empty
unfolding memory_cache_laws memory_laws session_at
empty-IsConsistent = record {
  own_id = λ id x h. absurd (cc h);
  listed = λ id x h. absurd (cc h);
  is_set = λ user_id v h. cc h;
}

two_stored-IsConsistent : IsConsistentAt memory_cache memory_cache_laws two_stored
two_stored-IsConsistent =
    create-keeps memory_cache memory_cache_laws other_session (pos 950) one_stored
      (create-keeps memory_cache memory_cache_laws session (pos 950) empty empty-IsConsistent)

rotates : (rotate memory_cache (text "s1") (text "r1") next_session (pos 950) two_stored).0 ≡ ok tt
unfolding rotate rotate_once rotate_loop create validate_session unmarshal_session encode decode
    split dec_texts ◌==◌ auth_session_key user_sessions_key
rotates = refl

-- A refresh token that the session does not hold is refused.
refuses_stale :
    (rotate memory_cache (text "s1") (text "r0") next_session (pos 950) two_stored).0
    ≡ err (is err_invalid_token)
unfolding rotate rotate_once rotate_loop create validate_session unmarshal_session encode decode
    split dec_texts ◌==◌ auth_session_key user_sessions_key
refuses_stale = refl

rotate_replaces_example :
    (current : AuthSession) × (stored_sessions memory_cache memory_cache_laws two_stored (text "s1")
      ≡ some current)
    × (current.refresh_token_id ≡ text "r1")
    × (current.user_id ≡ text "u1")
    × (text "s1" ≡ text "s1")
    × (stored_sessions memory_cache memory_cache_laws
          (rotate memory_cache (text "s1") (text "r1") next_session (pos 950) two_stored).1
        ≡ put (text "s1") next_session (stored_sessions memory_cache memory_cache_laws two_stored))
rotate_replaces_example =
    rotate_replaces memory_cache memory_cache_laws (text "s1") (text "r1") next_session (pos 950)
      two_stored rotates

deletes_all : (delete_all_for_user memory_cache (text "u1") two_stored).0 ≡ ok tt
unfolding delete_all_for_user create validate_session encode ◌==◌ auth_session_key user_sessions_key
deletes_all = refl

keeps_other :
    stored_sessions memory_cache memory_cache_laws
      (delete_all_for_user memory_cache (text "u1") two_stored).1
      (text "s2")
    ≡ some other_session
unfolding delete_all_for_user create validate_session unmarshal_session encode decode split
    dec_texts ◌==◌ auth_session_key user_sessions_key contains session_at memory_cache_laws
    memory_laws
keeps_other = refl

delete_all_removes_example : other_session.user_id ≢ text "u1"
delete_all_removes_example =
    delete_all_removes memory_cache memory_cache_laws (text "u1") two_stored two_stored-IsConsistent
      deletes_all (text "s2") other_session keeps_other
