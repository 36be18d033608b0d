-- ===== src/Repository/Redis/Removal.antt =====
-- How deleting a session, and all sessions of a user, acts on the stored sessions.
use storemesh_user_service.Base.{
  ◌≡◌, ◌≢◌, refl, ap, subst, fun_ext, ◌∙◌, List, [], ◌∷◌, true, Option, none, some, arith,
  if◌then◌else◌,
}
use storemesh_user_service.Go.Text.{Text}
use storemesh_user_service.Go.Text.Laws.{eq_iff}
use storemesh_user_service.Domain.{AuthSession}
use storemesh_user_service.Domain.Contract.{Sessions, remove}
use storemesh_user_service.Repository.Redis.{
  SessionCache, auth_session_key, user_sessions_key, delete_commands,
}
use storemesh_user_service.Repository.Redis.Keyspace.{
  Keyspace, Entry, string, members, contains, without, is_member, without_member, members_or_none,
  run_commands, delete_keys,
}
use storemesh_user_service.Repository.Redis.Keys.{
  session_key_eq, user_key_eq, session_user_key, user_session_key, contains-without_ne, all_keys,
  contains-all_keys_session, contains-all_keys_user,
}
use storemesh_user_service.Repository.Redis.Consistency.{session_at, IsConsistent}

contains_none_left : (m : Text) (ms : List Text) → is_member m (members_or_none ms) ≡ contains m ms
unfolding contains
contains_none_left m [] = refl
contains_none_left m (t ∷ ts) = refl

without_member_old :
    (j m : Text) (e : Option Entry)
    → j ≢ m
    → is_member j e ≡ true
    → is_member j (without_member m e) ≡ true
without_member_old j m none h k = k
without_member_old j m (some (string v)) h k = k
without_member_old j m (some (members ms)) h k =
    contains_none_left j (without m ms) ∙ (contains-without_ne j m ms h ∙ k)

members_or_none_set : (v : Text) (ms : List Text) → members_or_none ms ≢ some (string v)
members_or_none_set v [] k = cc
members_or_none_set v (t ∷ ts) k = cc

without_member_set :
    (m v : Text) (e : Option Entry) → e ≢ some (string v) → without_member m e ≢ some (string v)
without_member_set m v none h = h
without_member_set m v (some (string w)) h = h
without_member_set m v (some (members ms)) h = members_or_none_set v (without m ms)

module _ {S : Type 0} (c : SessionCache S) where
  pub delete-session_at :
      (id : Text) (x : AuthSession) (ks : Keyspace)
      → session_at c (run_commands (delete_commands (auth_session_key id) x) ks)
        ≡ remove id (session_at c ks)
  unfolding session_at
  delete-session_at id x ks =
      fun_ext λ j. ground (arith, session_key_eq j id, session_user_key j x.user_id)

  pub delete-IsConsistent :
      (id : Text) (x : AuthSession) (ks : Keyspace)
      → session_at c ks id ≡ some x
      → IsConsistent c ks
      → IsConsistent c (run_commands (delete_commands (auth_session_key id) x) ks)
  delete-IsConsistent id x ks h i =
      let at = λ (j : Text). ap (λ (m : Sessions). m j) (delete-session_at id x ks) in
      let own = i.own_id id x h in
      record {
        own_id = λ j y found. ground (arith, at j, eq_iff j id, i.own_id j y);
        listed = λ j y found. ground (
          arith,
          at j,
          own,
          eq_iff j id,
          eq_iff y.user_id x.user_id,
          user_key_eq y.user_id x.user_id,
          user_session_key y.user_id id,
          user_session_key x.user_id id,
          i.listed j y,
          without_member_old j x.id (ks (user_sessions_key x.user_id)),
        );
        is_set = λ u v found. ground (
          arith,
          eq_iff u x.user_id,
          user_key_eq u x.user_id,
          user_session_key u id,
          user_session_key x.user_id id,
          i.is_set u v,
          without_member_set x.id v (ks (user_sessions_key x.user_id)) (i.is_set x.user_id v),
        );
      }

  module _ (user_id : Text) (ids : List Text) (ks : Keyspace) where
    pub delete_all-session_at :
        (j : Text)
        → session_at c (delete_keys (all_keys user_id ids) ks) j
          ≡ (if contains j ids then none else session_at c ks j)
    unfolding session_at
    delete_all-session_at j = ground (arith, contains-all_keys_session user_id j ids)

    -- What is left after the sessions listed for the user are deleted belongs to other users.
    pub delete_all-others :
        ((m : Text) → contains m ids ≡ is_member m (ks (user_sessions_key user_id)))
        → IsConsistent c ks
        → (j : Text) (y : AuthSession)
        → session_at c (delete_keys (all_keys user_id ids) ks) j ≡ some y
        → y.user_id ≢ user_id
    delete_all-others listed i j y found same =
        let was : session_at c ks j ≡ some y = ground (arith, delete_all-session_at j) in
        let here : is_member j (ks (user_sessions_key user_id)) ≡ true =
          subst (λ u. is_member j (ks (user_sessions_key u)) ≡ true) same (i.listed j y was) in
        ground (arith, delete_all-session_at j, listed j, here)

    pub delete_all-IsConsistent :
        ((m : Text) → contains m ids ≡ is_member m (ks (user_sessions_key user_id)))
        → IsConsistent c ks
        → IsConsistent c (delete_keys (all_keys user_id ids) ks)
    delete_all-IsConsistent listed i = record {
      own_id = λ j y found. ground (arith, delete_all-session_at j, i.own_id j y);
      listed = λ j y found. ground (
        arith,
        delete_all-session_at j,
        i.listed j y,
        delete_all-others listed i j y found,
        contains-all_keys_user user_id y.user_id ids,
        eq_iff y.user_id user_id,
      );
      is_set = λ u v found. ground (arith, contains-all_keys_user user_id u ids, i.is_set u v);
    }
