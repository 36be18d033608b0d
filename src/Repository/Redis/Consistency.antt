-- ===== src/Repository/Redis/Consistency.antt =====
-- The sessions that a keyspace stores, the consistency of the sessions with the sets of each user's
-- sessions, and how the commands of the store act on both.
use storemesh_user_service.Base.{
  ◌≡◌, ◌≢◌, refl, ap, fun_ext, true, false, Option, none, some, arith,
}
use storemesh_user_service.Base.Int.{pos, leb_ℤ}
use storemesh_user_service.Go.Text.{Text}
use storemesh_user_service.Go.Text.Laws.{eq_iff, eq_refl}
use storemesh_user_service.Go.Action.{Result, ok, err}
use storemesh_user_service.Go.Time.{Duration}
use storemesh_user_service.Domain.{AuthSession}
use storemesh_user_service.Domain.Contract.{Sessions, put}
use storemesh_user_service.Repository.Redis.{
  SessionCache, unmarshal_session, auth_session_key, user_sessions_key, store_commands,
}
use storemesh_user_service.Repository.Redis.Keyspace.{
  Keyspace, Entry, string, members, contains, is_member, with_member, run_commands,
}
use storemesh_user_service.Repository.Redis.Keys.{
  session_key_eq, user_key_eq, session_user_key, user_session_key,
}

abbrev result_option : {A : Type 0} → Result A → Option A
result_option (ok a) = some a
result_option (err e) = none

module _ {S : Type 0} (c : SessionCache S) where
  abbrev pub decode : Option Entry → Option AuthSession
  decode none = none
  decode (some (members ms)) = none
  decode (some (string p)) = result_option (unmarshal_session c p)

  -- The session stored under an id.
  unfoldable pub session_at : Keyspace → Sessions
  session_at ks id = decode (ks (auth_session_key id))

  -- Every stored session stands under its own id and is listed in the set of its user, and no
  -- such set's key holds a text.
  pub record IsConsistent (ks : Keyspace) : Type 0 where
    pub own_id : (id : Text) (x : AuthSession) → session_at ks id ≡ some x → x.id ≡ id
    pub listed :
        (id : Text) (x : AuthSession)
        → session_at ks id ≡ some x
        → is_member id (ks (user_sessions_key x.user_id)) ≡ true
    pub is_set : (user_id v : Text) → ks (user_sessions_key user_id) ≢ some (string v)

  pub store-session_at :
      (x : AuthSession) (p : Text) (ttl : Duration) (ks : Keyspace)
      → unmarshal_session c p ≡ ok x
      → leb_ℤ ttl (pos 0) ≡ false
      → session_at (run_commands (store_commands x p ttl) ks) ≡ put x.id x (session_at ks)
  unfolding session_at
  store-session_at x p ttl ks h t =
      fun_ext λ j. ground (arith, session_key_eq j x.id, session_user_key j x.user_id)

  with_member_self :
      (m : Text) (e : Option Entry)
      → ((v : Text) → e ≢ some (string v))
      → is_member m (with_member m e) ≡ true
  unfolding contains
  with_member_self m none h = ground (arith, eq_refl m)
  with_member_self m (some (string v)) h = absurd (h v refl)
  with_member_self m (some (members ms)) h = ground (arith, eq_refl m)

  with_member_old :
      (j m : Text) (e : Option Entry) → is_member j e ≡ true → is_member j (with_member m e) ≡ true
  unfolding contains
  with_member_old j m none h = cc
  with_member_old j m (some (string v)) h = cc
  with_member_old j m (some (members ms)) h = ground arith

  with_member_set :
      (m v : Text) (e : Option Entry) → e ≢ some (string v) → with_member m e ≢ some (string v)
  with_member_set m v none h k = cc
  with_member_set m v (some (string w)) h k = h k
  with_member_set m v (some (members ms)) h k = cc

  pub store-IsConsistent :
      (x : AuthSession) (p : Text) (ttl : Duration) (ks : Keyspace)
      → unmarshal_session c p ≡ ok x
      → leb_ℤ ttl (pos 0) ≡ false
      → IsConsistent ks
      → IsConsistent (run_commands (store_commands x p ttl) ks)
  store-IsConsistent x p ttl ks h t i =
      let at = λ (j : Text). ap (λ (m : Sessions). m j) (store-session_at x p ttl ks h t) in
      record {
        own_id = λ j y found. ground (arith, at j, eq_iff j x.id, i.own_id j y);
        listed = λ j y found. ground (
          arith,
          at j,
          eq_iff j x.id,
          eq_iff y.user_id x.user_id,
          user_key_eq y.user_id x.user_id,
          user_session_key y.user_id x.id,
          user_session_key x.user_id x.id,
          i.listed j y,
          with_member_self x.id (ks (user_sessions_key x.user_id)) (i.is_set x.user_id),
          with_member_old j x.id (ks (user_sessions_key x.user_id)),
        );
        is_set = λ u v found. ground (
          arith,
          eq_iff u x.user_id,
          user_key_eq u x.user_id,
          user_session_key u x.id,
          user_session_key x.user_id x.id,
          i.is_set u v,
          with_member_set x.id v (ks (user_sessions_key x.user_id)) (i.is_set x.user_id v),
        );
      }
