-- ===== src/Repository/Users/RoleViews.antt =====
-- The roles that reads show after `AssignRole` and `RevokeRole`.
use storemesh_user_service.Base.{
  ◌≡◌, sym, ap, subst, ◌∙◌, inl, inr, List, ◌∷◌, map, true, false, not, ◌&&◌, arith, any, In,
}
use storemesh_user_service.Go.Text.{Text}
use storemesh_user_service.Go.Action.{ok}
use storemesh_user_service.Go.Action.Laws.{Returns}
use storemesh_user_service.Domain.{User, Role}
use storemesh_user_service.Repository.Models.{
  Uuid, UserModel, RoleModel, parse_user_id, to_domain_role, to_domain_user,
}
use storemesh_user_service.Repository.Users.{Users, assign_role, revoke_role, get_by_id}
use storemesh_user_service.Repository.Users.Tables.{
  Tables, select, same_assignment, is_assigned, UsersLaws,
}
use storemesh_user_service.Repository.Users.Selection.{
  any-select-not, In-select, select-In, In-map, map-In,
}
use storemesh_user_service.Repository.Users.Visible.{Shows, get_by_id_ok}
use storemesh_user_service.Repository.Users.Assignments.{pair, assign_role_cases, revoke_role_cases}

abbrev pub role_names_of : User → List Text
role_names_of u = map (λ (role : Role). role.name) u.roles

assigned_first :
    (i j : Uuid) (role : RoleModel) (t : Tables)
    → i ≡ j
    → is_assigned (pair i role) (record t { assigned = pair j role ∷ t.assigned }) ≡ true
assigned_first i j role t h = ground arith

module _ {S : Type 0} (r : Users S) (laws : UsersLaws r) where
  -- The roles of a user that is shown are those assigned to its row.
  shown_role :
      (t : Tables) (u : User) (row : UserModel) (role : RoleModel)
      → Shows r t u row
      → In role t.roles
      → role.deleted ≡ false
      → is_assigned (pair row.id role) t ≡ true
      → In role.name (role_names_of u)
  unfolding to_domain_user
  shown_role t u row role sh at live h =
      let loaded = λ (m : RoleModel). is_assigned (pair row.id m) t && not m.deleted in
      let there = In-select loaded t.roles role at (ground arith) in
      subst (λ v. In role.name (role_names_of v)) (sym sh.shown)
        (map-In (λ (x : Role). x.name) (map (to_domain_role r.uuids) (select loaded t.roles))
          (to_domain_role r.uuids role)
          (map-In (to_domain_role r.uuids) (select loaded t.roles) role there))

  shown_assigned :
      (t : Tables) (u : User) (row : UserModel) (name : Text)
      → Shows r t u row
      → In name (role_names_of u)
      → (role : RoleModel) × In role t.roles
        × (role.name ≡ name)
        × (is_assigned (pair row.id role) t ≡ true)
  unfolding to_domain_user
  shown_assigned t u row name sh at =
      let loaded = λ (m : RoleModel). is_assigned (pair row.id m) t && not m.deleted in
      let at' = subst (λ v. In name (role_names_of v)) sh.shown at in
      let (x, among, e) =
        In-map (λ (x : Role). x.name) (map (to_domain_role r.uuids) (select loaded t.roles)) name
          at' in
      let (m, selected, f) = In-map (to_domain_role r.uuids) (select loaded t.roles) x among in
      let (stored, h) = select-In loaded t.roles m selected in
      (m, stored, sym (e ∙ ap (λ (y : Role). y.name) f), ground arith)

  -- After `AssignRole` succeeded, `GetByID` of any text for the same UUID that succeeds, on the same
  -- tables, returns a user with the role.
  pub assign_role_shown :
      (id name other : Text) (uuid : Uuid) (s s' s2 s3 : S) (u : User)
      → Returns (assign_role r id name) s tt s'
      → parse_user_id r.uuids id ≡ ok uuid
      → parse_user_id r.uuids other ≡ ok uuid
      → laws.tables s2 ≡ laws.tables s'
      → Returns (get_by_id r other) s2 u s3
      → In name (role_names_of u)
  assign_role_shown id name other uuid s s' s2 s3 u h p q same read =
      elim (assign_role_cases r laws id name s) [
        | inl (e, failed, kept) ↦ absurd (ground arith)
        | inr (done, a) ↦
            let (row, parsed, sh, kept) = get_by_id_ok r laws other s2 u s3 read in
            let end : laws.tables s2 ≡ record (laws.tables s) {
              assigned = pair a.uuid a.role ∷ (laws.tables s).assigned;
            } =
              same ∙ (ap (λ q. laws.tables q.1) (sym h) ∙ a.added) in
            let row_is : row.id ≡ a.uuid = ground (arith, a.parsed) in
            subst (λ n. In n (role_names_of u)) a.named.same_name
              (shown_role (laws.tables s2) u row a.role sh
                (subst (λ (t : Tables). In a.role t.roles) (sym end) a.named.known) a.named.usable
                (subst (λ t. is_assigned (pair row.id a.role) t ≡ true) (sym end)
                  (assigned_first row.id a.uuid a.role (laws.tables s) row_is)))
      ]

  -- After `RevokeRole` succeeded, where the names of the roles are distinct, `GetByID` of any text
  -- for the same UUID that succeeds, on the same tables, returns a user without the role.
  pub revoke_role_hidden :
      (id name other : Text) (uuid : Uuid) (s s' s2 s3 : S) (u : User)
      → ((a b : RoleModel)
          → In a (laws.tables s).roles
          → In b (laws.tables s).roles
          → a.name ≡ b.name
          → a ≡ b)
      → Returns (revoke_role r id name) s tt s'
      → parse_user_id r.uuids id ≡ ok uuid
      → parse_user_id r.uuids other ≡ ok uuid
      → laws.tables s2 ≡ laws.tables s'
      → Returns (get_by_id r other) s2 u s3
      → In name (role_names_of u)
      → ⊥
  revoke_role_hidden id name other uuid s s' s2 s3 u distinct h p q same read at =
      elim (revoke_role_cases r laws id name s) [
        | inl (e, failed, kept) ↦ absurd (ground arith)
        | inr (done, a) ↦
            let (row, parsed, sh, kept) = get_by_id_ok r laws other s2 u s3 read in
            let end : laws.tables s2 ≡ record (laws.tables s) {
              assigned =
                  select (λ b. not (same_assignment (pair a.uuid a.role) b))
                    (laws.tables s).assigned;
            } =
              same ∙ (ap (λ q. laws.tables q.1) (sym h) ∙ a.removed) in
            let row_is : row.id ≡ a.uuid = ground (arith, a.parsed) in
            let (m, stored, named, held) = shown_assigned (laws.tables s2) u row name sh at in
            let one : m ≡ a.role =
              distinct m a.role (subst (λ (t : Tables). In m t.roles) end stored) a.named.known
                (named ∙ sym a.named.same_name) in
            let left = subst (λ (t : Tables). is_assigned (pair row.id m) t ≡ true) end held in
            let none_left =
              any-select-not (same_assignment (pair a.uuid a.role)) (laws.tables s).assigned in
            let same_pair : pair row.id m ≡ pair a.uuid a.role = cc (row_is, one) in
            let still =
              subst
                (λ k.
                  any (same_assignment k) (
                    select (λ b. not (same_assignment (pair a.uuid a.role) b))
                      (laws.tables s).assigned)
                  ≡ true)
                same_pair left in
            cc (still, none_left)
      ]
