-- ===== src/Repository/Users/Tests.antt =====
-- The user repository at concrete inputs, on the database of Sample.
use storemesh_user_service.Base.{
  ◌≡◌, ◌≢◌, refl, sym, ap, ◌∙◌, [], ◌∷◌, true, some, In, inl, inr, arith, ◌⊎◌, All, length,
}
use storemesh_user_service.Base.Int.{pos, ◌-ℤ◌, ◌*ℤ◌}
use storemesh_user_service.Go.Text.{text, ◌==◌}
use storemesh_user_service.Go.Errors.{Error}
use storemesh_user_service.Go.Action.{ok, err}
use storemesh_user_service.Domain.{User, ListUsersRequest}
use storemesh_user_service.Repository.Models.{
  UserModel, RoleModel, to_user_model, to_domain_user, parse_user_id, status_of,
}
use storemesh_user_service.Repository.Models.Mapper.{to_user_model-to_domain_user}
use storemesh_user_service.Repository.Users.{
  get_by_id, list, update, delete, assign_role, revoke_role, ensure_active_user_exists,
  find_role_by_name,
}
use storemesh_user_service.Repository.Users.Tables.{Tables, select, update_rows}
use storemesh_user_service.Repository.Users.Visible.{Shows, is_asked, list_ok}
use storemesh_user_service.Repository.Users.Writing.{by_id, deleted_user_gone, update_drops_roles}
use storemesh_user_service.Repository.Users.Assignments.{Assigned, assign_role_cases}
use storemesh_user_service.Repository.Users.RoleViews.{
  assign_role_shown, revoke_role_hidden, role_names_of,
}
use storemesh_user_service.Repository.Users.Sample.{
  memory_users, memory_users_laws, short_uuids, short_uuids_laws, loaded_rows, row_a, row_b, start,
}

to_user_model-to_domain_user_example :
    to_user_model short_uuids (some (to_domain_user short_uuids row_a))
    ≡ ok (record row_a { roles = [] })
to_user_model-to_domain_user_example =
    to_user_model-to_domain_user short_uuids short_uuids_laws row_a (λ h. absurd (cc h))

abbrev without_a : Tables
without_a = (delete memory_users (text "UA") start).1

deletes : delete memory_users (text "UA") start ≡ (ok tt, without_a)
unfolding delete parse_user_id select
deletes = refl

abbrev user_b : User
user_b = to_domain_user short_uuids row_b

reads_b : get_by_id memory_users (text "uB") without_a ≡ (ok user_b, without_a)
unfolding delete get_by_id parse_user_id select loaded_rows update_rows
reads_b = refl

b_text : user_b.id ≡ text "uB"
unfolding to_domain_user
b_text = refl

parses : parse_user_id short_uuids (text "UA") ≡ ok b'A'
unfolding parse_user_id
parses = refl

parses_same : parse_user_id short_uuids (text "uA") ≡ ok b'A'
unfolding parse_user_id
parses_same = refl

deleted_user_gone_example : user_b.id ≢ text "uA"
unfolding memory_users_laws
deleted_user_gone_example =
    deleted_user_gone memory_users memory_users_laws (text "UA") b'A' start without_a deletes parses
      without_a refl user_b (by_id (text "uB") without_a reads_b)

abbrev active_page : ListUsersRequest
active_page = record { status = text "active"; page = pos 1; per_page = pos 20 }

abbrev user_a : User
user_a = record (to_domain_user short_uuids row_a) {
  roles = record { id = text "uS"; name = text "seller"; description = text "" } ∷ [];
}

lists : list memory_users active_page start ≡ (ok (user_a ∷ user_b ∷ [], pos 2), start)
unfolding list ◌==◌ select loaded_rows to_domain_user status_of ◌-ℤ◌ ◌*ℤ◌
lists = refl

list_ok_example :
    (pos 2 ≡ pos (length (select (is_asked (text "active")) start.users)))
    × All
        (λ u.
          (row : UserModel) × Shows memory_users start u row
          × (is_asked (text "active") row ≡ true))
        (user_a ∷ user_b ∷ [])
    × (start ≡ start)
unfolding memory_users_laws
list_ok_example =
    list_ok memory_users memory_users_laws active_page start (user_a ∷ user_b ∷ []) (pos 2) start
      lists

abbrev updated : Tables
updated = (update memory_users user_a start).1

abbrev plain_a : User
plain_a = record user_a { roles = []; updated_at = pos 100 }

updates : update memory_users user_a start ≡ (ok plain_a, updated)
unfolding update to_user_model to_domain_user parse_user_id ◌==◌ select status_of
updates = refl

update_drops_roles_example :
    (plain_a.roles ≡ []) × (updated.assigned ≡ start.assigned) × (updated.roles ≡ start.roles)
unfolding memory_users_laws
update_drops_roles_example =
    update_drops_roles memory_users memory_users_laws user_a start plain_a updated updates

abbrev with_admin : Tables
with_admin = record start { assigned = record { user_id = b'A'; role_id = b'M' } ∷ start.assigned }

assigns : assign_role memory_users (text "UA") (text "admin") start ≡ (ok tt, with_admin)
unfolding assign_role parse_user_id ensure_active_user_exists find_role_by_name select ◌==◌
assigns = refl

abbrev admin_a : User
admin_a = record user_a {
  roles = record { id = text "uM"; name = text "admin"; description = text "" } ∷ user_a.roles;
}

reads_admin : get_by_id memory_users (text "uA") with_admin ≡ (ok admin_a, with_admin)
unfolding get_by_id parse_user_id select loaded_rows to_domain_user status_of
reads_admin = refl

assign_role_cases_example :
    ((e : Error) × ((assign_role memory_users (text "UA") (text "admin") start).0 ≡ err e)
      × ((assign_role memory_users (text "UA") (text "admin") start).1 ≡ start))
    ⊎ (((assign_role memory_users (text "UA") (text "admin") start).0 ≡ ok tt)
        × Assigned memory_users memory_users_laws
            (text "UA")
            (text "admin")
            start
            (assign_role memory_users (text "UA") (text "admin") start).1)
unfolding memory_users_laws
assign_role_cases_example =
    assign_role_cases memory_users memory_users_laws (text "UA") (text "admin") start

assign_role_shown_example : In (text "admin") (role_names_of admin_a)
assign_role_shown_example =
    assign_role_shown memory_users memory_users_laws (text "UA") (text "admin") (text "uA") b'A'
      start with_admin with_admin with_admin admin_a assigns parses parses_same refl reads_admin

abbrev no_seller : Tables
no_seller = record start { assigned = [] }

revokes : revoke_role memory_users (text "uA") (text "seller") start ≡ (ok tt, no_seller)
unfolding revoke_role parse_user_id ensure_active_user_exists find_role_by_name select ◌==◌
revokes = refl

abbrev roleless_a : User
roleless_a = record user_a { roles = [] }

reads_roleless : get_by_id memory_users (text "UA") no_seller ≡ (ok roleless_a, no_seller)
unfolding get_by_id parse_user_id select loaded_rows to_domain_user status_of
reads_roleless = refl

distinct_names : (a b : RoleModel) → In a start.roles → In b start.roles → a.name ≡ b.name → a ≡ b
distinct_names a b (inl p) (inl q) e = p ∙ sym q
distinct_names a b (inl p) (inr (inl q)) e =
    absurd (ground (arith, ap (λ (m : RoleModel). m.name) p, ap (λ (m : RoleModel). m.name) q))
distinct_names a b (inr (inl p)) (inl q) e =
    absurd (ground (arith, ap (λ (m : RoleModel). m.name) p, ap (λ (m : RoleModel). m.name) q))
distinct_names a b (inr (inl p)) (inr (inl q)) e = p ∙ sym q
distinct_names a b (inl p) (inr (inr x)) e = elim x [ ]
distinct_names a b (inr (inl p)) (inr (inr x)) e = elim x [ ]
distinct_names a b (inr (inr x)) q e = elim x [ ]

revoke_role_hidden_example : In (text "seller") (role_names_of roleless_a) → ⊥
unfolding memory_users_laws
revoke_role_hidden_example =
    revoke_role_hidden memory_users memory_users_laws (text "uA") (text "seller") (text "UA") b'A'
      start no_seller no_seller no_seller roleless_a distinct_names revokes parses_same parses refl
      reads_roleless
