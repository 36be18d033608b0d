-- ===== src/Repository/Redis/Keys.antt =====
-- The keys of the session store: distinct for distinct ids, and of distinct kinds. Sets of texts.
use storemesh_user_service.Base.{◌≡◌, ◌≢◌, refl, List, [], ◌∷◌, ◌++◌, map, false, arith}
use storemesh_user_service.Go.Text.{Text, ◌==◌}
use storemesh_user_service.Go.Text.Laws.{eq_iff}
use storemesh_user_service.Repository.Redis.{auth_session_key, user_sessions_key}
use storemesh_user_service.Repository.Redis.Keyspace.{contains, without}

pub session_key_eq : (a b : Text) → (auth_session_key a == auth_session_key b) ≡ (a == b)
unfolding auth_session_key ◌==◌
session_key_eq a b = refl

pub user_key_eq : (a b : Text) → (user_sessions_key a == user_sessions_key b) ≡ (a == b)
unfolding user_sessions_key ◌==◌
user_key_eq a b = refl

pub session_user_key : (a b : Text) → (auth_session_key a == user_sessions_key b) ≡ false
unfolding auth_session_key user_sessions_key ◌==◌
session_user_key a b = refl

pub user_session_key : (a b : Text) → (user_sessions_key a == auth_session_key b) ≡ false
unfolding auth_session_key user_sessions_key ◌==◌
user_session_key a b = refl

pub contains-without_ne :
    (m k : Text) (ts : List Text) → m ≢ k → contains m (without k ts) ≡ contains m ts
unfolding contains without
contains-without_ne m k [] h = refl
contains-without_ne m k (t ∷ ts) h =
    ground (arith, contains-without_ne m k ts h, eq_iff k t, eq_iff m t)

-- The keys that `DeleteAllForUser` deletes.
abbrev pub all_keys : Text → List Text → List Text
all_keys user_id ids = map auth_session_key ids ++ user_sessions_key user_id ∷ []

pub contains-all_keys_session :
    (user_id j : Text) (ids : List Text)
    → contains (auth_session_key j) (all_keys user_id ids) ≡ contains j ids
unfolding contains
contains-all_keys_session user_id j [] = ground (arith, session_user_key j user_id)
contains-all_keys_session user_id j (id ∷ ids) =
    ground (arith, session_key_eq j id, contains-all_keys_session user_id j ids)

pub contains-all_keys_user :
    (user_id u : Text) (ids : List Text)
    → contains (user_sessions_key u) (all_keys user_id ids) ≡ (u == user_id)
unfolding contains
contains-all_keys_user user_id u [] = ground (arith, user_key_eq u user_id)
contains-all_keys_user user_id u (id ∷ ids) =
    ground (arith, user_session_key u id, contains-all_keys_user user_id u ids)
