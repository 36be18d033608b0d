-- ===== src/Repository/Users/Identity/Tests.antt =====
-- A role assigned by an id in another form, and by the repository's own, and a user deleted, on
-- the database of Repository.Users.Sample and fixed sessions.
use storemesh_user_service.Base.{◌≡◌, ◌≢◌, refl, [], ◌∷◌, In, some, arith}
use storemesh_user_service.Base.Int.{pos}
use storemesh_user_service.Go.Text.{Text, text, ◌==◌, trim_space, to_lower}
use storemesh_user_service.Go.Action.{ok}
use storemesh_user_service.Domain.{User, TokenClaims, AuthSession}
use storemesh_user_service.Service.Users.{assign_role, delete_user}
use storemesh_user_service.Repository.Models.{to_domain_user, parse_user_id, status_of}
use storemesh_user_service.Repository.Users.{
  get_by_id, delete, ensure_active_user_exists, find_role_by_name, user_repository,
}
use storemesh_user_service.Repository.Users.Tables.{Tables, select}
use storemesh_user_service.Repository.Users.Identity.{with_repository, assign_role_other_form}
use storemesh_user_service.Repository.Users.Sample.{
  memory_users, memory_users_laws, short_uuids, loaded_rows, row_a, row_b, start,
}
use storemesh_user_service.Service.Tokens.{validate_token_as, claims_of}
use storemesh_user_service.Repository.Users.RoleViews.{role_names_of}
use storemesh_user_service.Repository.Users.Assignments.{Assigned}
use storemesh_user_service.Repository.Users.Writing.{Read}
use storemesh_user_service.Repository.Users.Revocation.{assigned_user_revoked, deleted_user_revoked}
use storemesh_user_service.Repository.Users.Identity.Sample.{
  open_session, fixed_store, fixed_store_laws, service, fixed_separate, claims_for,
}

abbrev admin_a : User
admin_a = record (to_domain_user short_uuids row_a) {
  roles =
      record { id = text "uM"; name = text "admin"; description = text "" }
      ∷ record { id = text "uS"; name = text "seller"; description = text "" }
      ∷ [];
}

abbrev after : Tables
after = (assign_role (with_repository service memory_users) (text " UA") (text "admin") start).1

assigns :
    assign_role (with_repository service memory_users) (text " UA") (text "admin") start
    ≡ (ok admin_a, after)
unfolding assign_role user_repository storemesh_user_service.Repository.Users.assign_role
    parse_user_id ensure_active_user_exists find_role_by_name select ◌==◌ get_by_id loaded_rows
    to_domain_user status_of trim_space to_lower
assigns = refl

parses : parse_user_id short_uuids (trim_space (text " UA")) ≡ ok b'A'
unfolding parse_user_id trim_space
parses = refl

other_form : text "uA" ≢ trim_space (text " UA")
unfolding trim_space
other_form h = absurd (ground (arith, h))

spares :
    (k : Text) (y : AuthSession)
    → fixed_store_laws.live start k ≡ some y
    → y.user_id ≢ trim_space (text " UA")
    → fixed_store_laws.live (fixed_store.delete_all_for_user (trim_space (text " UA")) start).1 k
      ≡ some y
unfolding fixed_store_laws
spares k y h apart = h

untouched :
    memory_users_laws.tables (fixed_store.delete_all_for_user (trim_space (text " UA")) start).1
    ≡ memory_users_laws.tables start
unfolding memory_users_laws
untouched = refl

stored : fixed_store_laws.live start (text "s1") ≡ some open_session
unfolding fixed_store_laws ◌==◌
stored = refl

assign_role_other_form_example :
    (admin_a.id ≡ text "uA")
    × Assigned memory_users memory_users_laws
        (trim_space (text " UA"))
        (to_lower service.platform.unicode (trim_space (text "admin")))
        (memory_users_laws.tables start)
        (memory_users_laws.tables after)
    × In (to_lower service.platform.unicode (trim_space (text "admin"))) (role_names_of admin_a)
    × (fixed_store_laws.live after (text "s1") ≡ some open_session)
assign_role_other_form_example =
    assign_role_other_form service memory_users memory_users_laws fixed_store_laws fixed_separate
      (text " UA") (text "admin") b'A' start admin_a after (text "s1") open_session spares untouched
      parses other_form assigns stored refl

-- `uB` becomes a seller, or is deleted, under the text of the repository.
abbrev user_b : User
user_b = to_domain_user short_uuids row_b

abbrev seller_b : User
seller_b = record user_b {
  roles = record { id = text "uS"; name = text "seller"; description = text "" } ∷ [];
}

abbrev with_seller : Tables
with_seller =
    (assign_role (with_repository service memory_users) (text "uB") (text "seller") start).1

sells :
    assign_role (with_repository service memory_users) (text "uB") (text "seller") start
    ≡ (ok seller_b, with_seller)
unfolding assign_role user_repository storemesh_user_service.Repository.Users.assign_role
    parse_user_id ensure_active_user_exists find_role_by_name select ◌==◌ get_by_id loaded_rows
    to_domain_user status_of trim_space to_lower
sells = refl

abbrev without_b : Tables
without_b = (delete_user (with_repository service memory_users) (text "uB") start).1

deletes : delete_user (with_repository service memory_users) (text "uB") start ≡ (ok tt, without_b)
unfolding delete_user user_repository delete parse_user_id select ◌==◌ trim_space
deletes = refl

parses_b : parse_user_id short_uuids (trim_space (text "uB")) ≡ ok b'B'
unfolding parse_user_id trim_space
parses_b = refl

own_form : text "uB" ≡ trim_space (text "uB")
unfolding trim_space
own_form = refl

abbrev claims_b : TokenClaims
claims_b = claims_of (claims_for (text "uB") (text "a1")) (pos 900)

assigned_user_revoked_example :
    (validate_token_as
      (with_repository service memory_users)
      (text "tokB")
      (text "access")
      with_seller).0
    ≢ ok (claims_b, open_session)
unfolding fixed_store_laws to_domain_user
assigned_user_revoked_example =
    assigned_user_revoked service memory_users memory_users_laws fixed_store_laws fixed_separate
      (text "uB") (text "seller") b'B' start seller_b with_seller tt parses_b own_form sells
      with_seller refl (text "tokB") (text "access") claims_b open_session refl

deleted_user_revoked_example :
    ((validate_token_as
        (with_repository service memory_users)
        (text "tokB")
        (text "access")
        without_b).0
      ≢ ok (claims_b, open_session))
    × (¬ (Read memory_users memory_users_laws user_b without_b × (user_b.id ≡ text "uB")))
unfolding fixed_store_laws to_domain_user
deleted_user_revoked_example =
    deleted_user_revoked service memory_users memory_users_laws fixed_store_laws fixed_separate
      (text "uB") b'B' start without_b tt parses_b own_form deletes without_b refl refl
      (text "tokB") (text "access") claims_b open_session refl user_b
