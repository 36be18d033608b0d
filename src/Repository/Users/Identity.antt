-- ===== src/Repository/Users/Identity.antt =====
-- The service and the repository together: a UUID that is written in another form.
pub mod Sample
mod Tests
use storemesh_user_service.Base.{◌≡◌, refl, subst, In, ◌≢◌, sym, ap, ◌∙◌, inl, inr, some, arith}
use storemesh_user_service.Go.Text.{Text, text, trim_space, to_lower}
use storemesh_user_service.Go.Action.{Result, ok, err}
use storemesh_user_service.Go.Action.Laws.{Result-cases, Returns}
use storemesh_user_service.Domain.{User, AuthSession}
use storemesh_user_service.Domain.Contract.{SessionLaws, Sessions}
use storemesh_user_service.Service.{UserService}
use storemesh_user_service.Service.Contract.{Separate}
use storemesh_user_service.Service.Users.{assign_role}
use storemesh_user_service.Service.Users.Roles.{revoked, assign_role-live}
use storemesh_user_service.Repository.Models.{Uuid, UserModel, parse_user_id, to_domain_user}
use storemesh_user_service.Repository.Users.{Users, get_by_id, user_repository}
use storemesh_user_service.Repository.Users.Tables.{UsersLaws}
use storemesh_user_service.Repository.Users.Visible.{Shows-id, get_by_id_ok}
use storemesh_user_service.Repository.Users.Assignments.{Assigned, assign_role_cases}
use storemesh_user_service.Repository.Users.RoleViews.{role_names_of, assign_role_shown}

-- The service with this repository.
abbrev pub with_repository : {S : Type 0} → UserService S → Users S → UserService S
with_repository svc r = record svc { users = user_repository r }

module _ {S : Type 0} (svc : UserService S) (r : Users S) where
  pub assign_role_reads :
      (id name : Text) (s : S) (u : User) (s' : S)
      → Returns (assign_role (with_repository svc r) id name) s u s'
      → (at : S) × Returns
          (storemesh_user_service.Repository.Users.assign_role r
            (trim_space id)
            (to_lower svc.platform.unicode (trim_space name)))
          (revoked (with_repository svc r) id s)
          tt
          at
        × Returns (get_by_id r (trim_space id)) at u s'
  unfolding assign_role user_repository
  assign_role_reads id name s u s' h =
      let s1 = (svc.sessions.delete_all_for_user (trim_space id) s).1 in
      let name' = to_lower svc.platform.unicode (trim_space name) in
      let s2 = (storemesh_user_service.Repository.Users.assign_role r (trim_space id) name' s1).1 in
      elim (Result-cases (svc.sessions.delete_all_for_user (trim_space id) s).0) [
        | inr (e, p) ↦ absurd (ground arith)
        | inl (v, p) ↦
            elim (Result-cases
              (storemesh_user_service.Repository.Users.assign_role r (trim_space id) name' s1).0) [
                | inr (e, q) ↦ absurd (ground arith)
                | inl (w, q) ↦ (s2, ground arith, ground arith)
              ]
      ]

  assigned :
      (users : UsersLaws r) (id name : Text) (s s' : S)
      → Returns (storemesh_user_service.Repository.Users.assign_role r id name) s tt s'
      → Assigned r users id name (users.tables s) (users.tables s')
  assigned users id name s s' h = elim (assign_role_cases r users id name s) [
    | inl (e, failed, kept) ↦ absurd (ground arith)
    | inr (done, a) ↦ subst (λ q. Assigned r users id name (users.tables s) (users.tables q.1)) h a
  ]

  module _ (users : UsersLaws r) (laws : SessionLaws svc.sessions)
      (sep : Separate (with_repository svc r) laws) where
    -- Where the text of the id is not the one that the repository writes for the UUID (it may have
    -- upper-case letters, say), and the deletion of the sessions under that text leaves, from the
    -- state at the start, the tables and the sessions of other users as they are, `AssignRole` that
    -- succeeds assigns the role to the user and returns it among the roles of the user, while a
    -- session of the user stays open.
    pub assign_role_other_form :
        (id name : Text) (uuid : Uuid) (s : S) (u : User) (s' : S) (j : Text) (x : AuthSession)
        → ((k : Text) (y : AuthSession)
            → laws.live s k ≡ some y
            → y.user_id ≢ trim_space id
            → laws.live (svc.sessions.delete_all_for_user (trim_space id) s).1 k ≡ some y)
        → users.tables (svc.sessions.delete_all_for_user (trim_space id) s).1 ≡ users.tables s
        → parse_user_id r.uuids (trim_space id) ≡ ok uuid
        → r.uuids.to_string uuid ≢ trim_space id
        → Returns (assign_role (with_repository svc r) id name) s u s'
        → laws.live s j ≡ some x
        → x.user_id ≡ r.uuids.to_string uuid
        → (u.id ≡ x.user_id)
          × Assigned r users
              (trim_space id)
              (to_lower svc.platform.unicode (trim_space name))
              (users.tables s)
              (users.tables s')
          × In (to_lower svc.platform.unicode (trim_space name)) (role_names_of u)
          × (laws.live s' j ≡ some x)
    assign_role_other_form id name uuid s u s' j x spares apart p other h stored owner =
        let name' = to_lower svc.platform.unicode (trim_space name) in
        let (at, changed, read) = assign_role_reads id name s u s' h in
        let (row, parsed, shows, same) = get_by_id_ok r users (trim_space id) at u s' read in
        let row_is : row.id ≡ uuid = ground arith in
        let (done, live) = assign_role-live (with_repository svc r) laws sep id name s u s' h in
        (
          Shows-id r _ u row shows ∙ (ap r.uuids.to_string row_is ∙ sym owner),
          subst (λ t. Assigned r users (trim_space id) name' t (users.tables s')) apart
              (subst (Assigned r users (trim_space id) name' _) (sym same)
                (assigned users (trim_space id) name' _ at changed)),
          assign_role_shown r users (trim_space id) name' (trim_space id) uuid _ at at s' u changed
              p p refl read,
          ap (λ (m : Sessions). m j) live ∙ spares j x stored (λ e. other (sym owner ∙ e)),
        )
