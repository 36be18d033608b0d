-- ===== src/Repository/Redis/Profiles.antt =====
-- The cached profiles of users: `CacheUserProfile`, `GetCachedUserProfile`, `InvalidateUserProfile`.
use storemesh_user_service.Base.{[], ◌∷◌, Option, none, some}
use storemesh_user_service.Go.Text.{Text, text}
use storemesh_user_service.Go.Errors.{is, err_not_found}
use storemesh_user_service.Go.Action.{Action, pure, raise, lift, on_error, ◌>>=◌}
use storemesh_user_service.Go.Time.{Duration}
use storemesh_user_service.Domain.{User}
use storemesh_user_service.Service.{context, invalid_input}
use storemesh_user_service.Repository.Redis.{
  SessionCache, CachedUserProfile, profile_key, missing_as,
}

module _ {S : Type 0} (c : SessionCache S) where
  abbrev pub profile_of : User → CachedUserProfile
  profile_of user = record {
    id = user.id;
    email = user.email;
    first_name = user.first_name;
    last_name = user.last_name;
    phone = user.phone;
    status = user.status;
    created_at = user.created_at;
    updated_at = user.updated_at;
  }

  abbrev pub user_of : CachedUserProfile → User
  user_of p = record {
    id = p.id;
    email = p.email;
    password_hash = text "";
    first_name = p.first_name;
    last_name = p.last_name;
    phone = p.phone;
    status = p.status;
    roles = [];
    created_at = p.created_at;
    updated_at = p.updated_at;
  }

  pub cache_user_profile : Option User → Duration → Action S (Unit {0})
  cache_user_profile none ttl = raise (invalid_input (text ": user is required"))
  cache_user_profile (some user) ttl = do
    payload ←
        on_error (context (text "marshal user profile: "))
          (lift (c.json.marshal_profile (profile_of user)))
    on_error (context (text "cache user profile: ")) (c.rdb.set (profile_key user.id) payload ttl)

  pub get_cached_user_profile : Text → Action S User
  get_cached_user_profile user_id = do
    payload ←
        on_error (missing_as (is err_not_found) (text "get cached user profile: "))
          (c.rdb.get (profile_key user_id))
    profile ←
        on_error (context (text "unmarshal user profile: "))
          (lift (c.json.unmarshal_profile payload))
    pure (user_of profile)

  pub invalidate_user_profile : Text → Action S (Unit {0})
  invalidate_user_profile user_id =
      on_error (context (text "invalidate user profile: ")) (c.rdb.del (profile_key user_id ∷ []))
