-- ===== src/Repository/Redis.antt =====
-- internal/repository/redis/redis.go: the session store on Redis. The go-redis client, the JSON
-- encoding and the clock are parameters.
pub mod Keyspace
pub mod Keys
pub mod Concurrent
pub mod Consistency
pub mod Removal
pub mod Calls
pub mod Reads
pub mod Profiles
pub mod Rotation
pub mod Contract
pub mod Sample
mod Tests
use storemesh_user_service.Base.{
  ℕ, zero, suc, List, [], ◌∷◌, ◌++◌, map, Bool, not, ◌||◌, Option, none, some, if◌then◌else◌,
}
use storemesh_user_service.Base.Int.{ℤ, pos, leb_ℤ}
use storemesh_user_service.Go.Text.{Text, text, ◌==◌}
use storemesh_user_service.Go.Errors.{
  Error, is, wrap, other, errors_is, err_not_found, err_invalid_token, redis_nil, tx_failed,
}
use storemesh_user_service.Go.Action.{
  Result, ok, err, Action, pure, raise, lift, call, raise_if, on_error, ignore, then_result, ◌>>=◌,
  ◌>>◌, map_ok, map_result,
}
use storemesh_user_service.Go.Time.{Time, Duration, after}
use storemesh_user_service.Domain.{AuthSession, User}
use storemesh_user_service.Domain.Ports.{AuthSessionStore}
use storemesh_user_service.Service.{context, invalid_input}

-- The commands that the source queues in a pipeline.
pub data Command : Type 0 where
  set_key : Text → Text → Duration → Command
  s_add : Text → Text → Command
  expire : Text → Duration → Command
  del_key : Text → Command
  s_rem : Text → Text → Command

-- `*redis.Client`: each call may fail. `get` returns `redis.Nil` for a missing key. `watch f k` is
-- `Watch(ctx, f, k)`, inside which `tx_get` and `tx_exec` are the transaction's `Get` and
-- `TxPipelined`.
pub record Client (S : Type 0) : Type 0 where
  pub get : Text → Action S Text
  pub set : Text → Text → Duration → Action S (Unit {0})
  pub s_members : Text → Action S (List Text)
  pub del : List Text → Action S (Unit {0})
  pub tx_pipelined : List Command → Action S (Unit {0})
  pub watch : Action S (Unit {0}) → Text → Action S (Unit {0})
  pub tx_get : Text → Action S Text
  pub tx_exec : List Command → Action S (Unit {0})

pub record CachedUserProfile : Type 0 where
  pub id : Text
  pub email : Text
  pub first_name : Text
  pub last_name : Text
  pub phone : Text
  pub status : Text
  pub created_at : Time
  pub updated_at : Time

-- `json.Marshal` and `json.Unmarshal` at the two types that are stored.
pub record Json : Type 0 where
  pub marshal_session : AuthSession → Result Text
  pub unmarshal_session : Text → Result AuthSession
  pub marshal_profile : CachedUserProfile → Result Text
  pub unmarshal_profile : Text → Result CachedUserProfile

-- The struct `SessionCache`, with the packages that its methods call.
pub record SessionCache (S : Type 0) : Type 0 where
  pub rdb : Client S
  pub json : Json
  pub now : S → Time × S

abbrev pub maximum_rotation_attempts : ℕ
maximum_rotation_attempts = 3

unfoldable pub auth_session_key : Text → Text
auth_session_key id = text "auth:session:" ++ id

unfoldable pub user_sessions_key : Text → Text
user_sessions_key user_id = text "auth:user-sessions:" ++ user_id

unfoldable pub profile_key : Text → Text
profile_key user_id = text "user:profile:" ++ user_id

-- The pointer is never nil in this model: the service passes a session that it has built.
unfoldable pub validate_session : AuthSession → Duration → Result (Unit {0})
validate_session x ttl =
    if x.id == text ""
    then err (invalid_input (text ": auth session id is required"))
    else if x.user_id == text ""
    then err (invalid_input (text ": auth session user id is required"))
    else if x.access_token_id == text ""
    then err (invalid_input (text ": access token id is required"))
    else if x.refresh_token_id == text ""
    then err (invalid_input (text ": refresh token id is required"))
    else if leb_ℤ ttl (pos 0)
    then err (invalid_input (text ": session ttl must be positive"))
    else ok tt

-- The pipeline of `Create` and `Rotate`, and that of `Delete`.
abbrev pub store_commands : AuthSession → Text → Duration → List Command
store_commands x payload ttl =
    set_key (auth_session_key x.id) payload ttl
    ∷ s_add (user_sessions_key x.user_id) x.id
    ∷ expire (user_sessions_key x.user_id) ttl
    ∷ []

abbrev pub delete_commands : Text → AuthSession → List Command
delete_commands key x = del_key key ∷ s_rem (user_sessions_key x.user_id) x.id ∷ []

-- `errors.Is(err, redis.Nil)` turned into another error, or else the error in its context.
abbrev pub missing_as : Error → Text → Error → Error
missing_as e m e' = if errors_is e' redis_nil then e else context m e'

module _ {S : Type 0} (c : SessionCache S) where
  unfoldable pub unmarshal_session : Text → Result AuthSession
  unmarshal_session payload =
      map_result (context (text "unmarshal auth session: ")) (c.json.unmarshal_session payload)

  pub create : AuthSession → Duration → Action S (Unit {0})
  create session ttl = do
    lift (validate_session session ttl)
    payload ←
        on_error (context (text "marshal auth session: ")) (lift (c.json.marshal_session session))
    on_error (context (text "create auth session: "))
        (c.rdb.tx_pipelined (store_commands session payload ttl))

  -- `Delete` behind its read: nothing to do for a missing key.
  abbrev delete_found : Text → Result Text → Action S (Unit {0})
  delete_found key (err e) =
      if errors_is e redis_nil
      then pure tt
      else raise (context (text "get session before deletion: ") e)
  delete_found key (ok payload) = do
    session ← lift (unmarshal_session payload)
    on_error (context (text "delete auth session: "))
        (c.rdb.tx_pipelined (delete_commands key session))

  pub delete : Text → Action S (Unit {0})
  delete session_id s =
      if session_id == text ""
      then (ok tt, s)
      else delete_found (auth_session_key session_id) (c.rdb.get (auth_session_key session_id) s).0
          (c.rdb.get (auth_session_key session_id) s).1

  -- `Get` behind its reads: an expired session is deleted and refused.
  abbrev unless_expired : AuthSession → Time → Action S AuthSession
  unless_expired session now =
      if after now session.expires_at
      then (ignore (delete session.id) >> raise (is err_invalid_token))
      else pure session

  pub get : Text → Action S AuthSession
  get session_id = do
    raise_if (session_id == text "") (is err_invalid_token)
    payload ←
        on_error (missing_as (is err_not_found) (text "get auth session: "))
          (c.rdb.get (auth_session_key session_id))
    session ← lift (unmarshal_session payload)
    now ← call c.now
    unless_expired session now

  abbrev pub missing_as_invalid : Error → Error
  missing_as_invalid e = if errors_is e redis_nil then is err_invalid_token else e

  -- The function that `Rotate` runs under `Watch`.
  pub rotate_once : Text → Text → AuthSession → Text → Duration → Action S (Unit {0})
  rotate_once key current_refresh_token_id next next_payload ttl = do
    current_payload ← on_error missing_as_invalid (c.rdb.tx_get key)
    current ← lift (unmarshal_session current_payload)
    raise_if (not (current.refresh_token_id == current_refresh_token_id)) (is err_invalid_token)
    raise_if (not (current.user_id == next.user_id)) (is err_invalid_token)
    c.rdb.tx_exec (
        set_key key next_payload ttl
        ∷ s_add (user_sessions_key next.user_id) next.id
        ∷ expire (user_sessions_key next.user_id) ttl
        ∷ [])

  -- What `Rotate` does with the outcome of one attempt; `again` is the rest of the loop.
  abbrev pub after_attempt : (Error → Action S (Unit {0})) → Result (Unit {0}) → Action S (Unit {0})
  after_attempt again (ok u) = pure tt
  after_attempt again (err e) =
      if errors_is e err_invalid_token
      then raise (is err_invalid_token)
      else if errors_is e tx_failed
      then again e
      else raise (context (text "rotate auth session: ") e)

  -- The loop, with the attempts left and the last error of a transaction.
  pub rotate_loop : Action S (Unit {0}) → Text → ℕ → Option Error → Action S (Unit {0})
  rotate_loop body key zero none s =
      raise (other (text "rotate auth session after 3 attempts: %!w(<nil>)")) s
  rotate_loop body key zero (some e) s =
      raise (context (text "rotate auth session after 3 attempts: ") e) s
  rotate_loop body key (suc n) last s =
      after_attempt (λ e. rotate_loop body key n (some e)) (c.rdb.watch body key s).0
        (c.rdb.watch body key s).1

  pub rotate : Text → Text → AuthSession → Duration → Action S (Unit {0})
  rotate session_id current_refresh_token_id next ttl = do
    raise_if (session_id == text "" || current_refresh_token_id == text "") (is err_invalid_token)
    lift (validate_session next ttl)
    raise_if (not (next.id == session_id))
        (invalid_input (text ": session id cannot change during rotation"))
    next_payload ←
        on_error (context (text "marshal rotated auth session: "))
          (lift (c.json.marshal_session next))
    rotate_loop
        (rotate_once (auth_session_key session_id) current_refresh_token_id next next_payload ttl)
        (auth_session_key session_id) maximum_rotation_attempts none

  pub delete_all_for_user : Text → Action S (Unit {0})
  delete_all_for_user user_id = do
    raise_if (user_id == text "") (invalid_input (text ": user id is required"))
    session_ids ←
        on_error (context (text "list user auth sessions: "))
          (c.rdb.s_members (user_sessions_key user_id))
    on_error (context (text "delete user auth sessions: "))
        (c.rdb.del (map auth_session_key session_ids ++ user_sessions_key user_id ∷ []))

  -- `var _ domain.AuthSessionStore = (*SessionCache)(nil)`.
  unfoldable pub session_store : AuthSessionStore S
  session_store = record {
    create = create;
    get = get;
    rotate = rotate;
    delete = delete;
    delete_all_for_user = delete_all_for_user;
  }
