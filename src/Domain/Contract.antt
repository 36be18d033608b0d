-- ===== src/Domain/Contract.antt =====
-- What the service relies on of an `AuthSessionStore`: it behaves as a map from session ids to
-- sessions. Repository.Redis.Contract fills it for the Redis store.
use storemesh_user_service.Base.{◌≡◌, ◌≢◌, Option, none, some, if◌then◌else◌}
use storemesh_user_service.Go.Text.{Text, text, ◌==◌}
use storemesh_user_service.Go.Action.{ok}
use storemesh_user_service.Go.Time.{Duration}
use storemesh_user_service.Domain.{AuthSession}
use storemesh_user_service.Domain.Ports.{AuthSessionStore}

-- A map from session ids to sessions, and the abstract operations on it.
abbrev pub Sessions : Type 0
Sessions = Text → Option AuthSession

abbrev pub put : Text → AuthSession → Sessions → Sessions
put id x m j = if j == id then some x else m j

abbrev pub remove : Text → Sessions → Sessions
remove id m j = if j == id then none else m j

-- `live s id` is the session stored under `id` in the state `s`; `Inv` is the store's own
-- consistency, which every operation keeps, whether it succeeds or fails.
pub record SessionLaws {S : Type 0} (store : AuthSessionStore S) : Type 1 where
  pub live : S → Sessions
  pub Inv : S → Type 0
  pub live-id : (s : S) → Inv s → (id : Text) (x : AuthSession) → live s id ≡ some x → x.id ≡ id
  pub get_reads :
      (id : Text) (s : S) (x : AuthSession)
      → (store.get id s).0 ≡ ok x
      → (live s id ≡ some x) × (live (store.get id s).1 ≡ live s)
  pub get-Inv : (id : Text) (s : S) → Inv s → Inv (store.get id s).1
  pub create_puts :
      (x : AuthSession) (ttl : Duration) (s : S)
      → (store.create x ttl s).0 ≡ ok tt
      → live (store.create x ttl s).1 ≡ put x.id x (live s)
  pub create-Inv : (x : AuthSession) (ttl : Duration) (s : S) → Inv s → Inv (store.create x ttl s).1
  pub rotate_replaces :
      (id refresh_id : Text) (next : AuthSession) (ttl : Duration) (s : S)
      → (store.rotate id refresh_id next ttl s).0 ≡ ok tt
      → (current : AuthSession) × (live s id ≡ some current)
        × (current.refresh_token_id ≡ refresh_id)
        × (current.user_id ≡ next.user_id)
        × (next.id ≡ id)
        × (live (store.rotate id refresh_id next ttl s).1 ≡ put id next (live s))
  pub rotate-Inv :
      (id refresh_id : Text) (next : AuthSession) (ttl : Duration) (s : S)
      → Inv s
      → Inv (store.rotate id refresh_id next ttl s).1
  pub delete_removes :
      (id : Text) (s : S)
      → id ≢ text ""
      → (store.delete id s).0 ≡ ok tt
      → live (store.delete id s).1 id ≡ none
  pub delete-Inv : (id : Text) (s : S) → Inv s → Inv (store.delete id s).1
  pub delete_all_removes :
      (user_id : Text) (s : S)
      → Inv s
      → (store.delete_all_for_user user_id s).0 ≡ ok tt
      → (id : Text) (x : AuthSession) → live (store.delete_all_for_user user_id s).1 id ≡ some x
      → x.user_id ≢ user_id
  pub delete_all-Inv :
      (user_id : Text) (s : S) → Inv s → Inv (store.delete_all_for_user user_id s).1
