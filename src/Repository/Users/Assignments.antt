-- ===== src/Repository/Users/Assignments.antt =====
-- `AssignRole` and `RevokeRole`: what their transactions do to the tables.
use storemesh_user_service.Base.{
  ◌≡◌, ap, subst, ◌∙◌, ◌⊎◌, inl, inr, [], ◌∷◌, true, false, not, arith, In, Bool-cases,
}
use storemesh_user_service.Base.Int.{pos, ltb_ℤ}
use storemesh_user_service.Go.Text.{Text}
use storemesh_user_service.Go.Text.Laws.{eq_iff}
use storemesh_user_service.Go.Errors.{Error}
use storemesh_user_service.Go.Action.{ok, err}
use storemesh_user_service.Go.Action.Laws.{Result-cases}
use storemesh_user_service.Repository.Models.{Uuid, UserModel, RoleModel, UserRole, parse_user_id}
use storemesh_user_service.Repository.Users.{
  id_is, deleted_is, name_is, role_deleted_is, Users, ensure_active_user_exists, find_role_by_name,
  assign_in, assign_role, revoke_in, revoke_role,
}
use storemesh_user_service.Repository.Users.Tables.{
  Tables, holds_all, select, same_assignment, is_assigned, UsersLaws,
}
use storemesh_user_service.Repository.Users.Selection.{
  any-select, select-any, select_some, select-length_zero,
}

abbrev pub pair : Uuid → RoleModel → UserRole
pair id role = record { user_id = id; role_id = role.id }

module _ {S : Type 0} (r : Users S) (laws : UsersLaws r) where
  -- The user is a live row and the role one that is not deleted.
  pub record Named (t : Tables) (id : Uuid) (name : Text) (role : RoleModel) : Type 0 where
    pub row : UserModel
    pub stored : In row t.users
    pub live : row.deleted ≡ false
    pub same_id : row.id ≡ id
    pub known : In role t.roles
    pub usable : role.deleted ≡ false
    pub same_name : role.name ≡ name

  ensure_ok :
      (id : Uuid) (s : S)
      → (ensure_active_user_exists r id s).0 ≡ ok tt
      → (row : UserModel) × In row (laws.tables s).users × (row.deleted ≡ false) × (row.id ≡ id)
  unfolding ensure_active_user_exists
  ensure_ok id s h =
      let cs = id_is id ∷ deleted_is false ∷ [] in
      elim (Result-cases (r.db.count_users cs s).0) [
        | inr (e, p) ↦ absurd (ground arith)
        | inl (n, p) ↦
            let count = laws.count_users_law cs s n p in
            let (row, at, q) = select_some (holds_all cs) (laws.tables s).users (ground arith) in
            (row, at, ground arith, ground arith)
      ]

  ensure_tables :
      (id : Uuid) (s : S) → laws.tables (ensure_active_user_exists r id s).1 ≡ laws.tables s
  unfolding ensure_active_user_exists
  ensure_tables id s =
      let cs = id_is id ∷ deleted_is false ∷ [] in
      elim (Result-cases (r.db.count_users cs s).0) [
        | inr (e, p) ↦ rw p (laws.count_users_tables cs s)
        | inl (n, p) ↦ rw p (laws.count_users_tables cs s)
      ]

  find_role_ok :
      (name : Text) (s : S) (role : RoleModel)
      → (find_role_by_name r name s).0 ≡ ok role
      → In role (laws.tables s).roles × (role.deleted ≡ false) × (role.name ≡ name)
  unfolding find_role_by_name
  find_role_ok name s role h =
      let cs = name_is name ∷ role_deleted_is false ∷ [] in
      elim (Result-cases (r.db.first_role cs s).0) [
        | inr (e, p) ↦ absurd (ground arith)
        | inl (found, p) ↦
            let same : found ≡ role = ground arith in
            let (at, q) = laws.first_role_found cs s found p in
            subst
              (λ (x : RoleModel).
                In x (laws.tables s).roles × (x.deleted ≡ false) × (x.name ≡ name))
              same (at, ground arith, ground (arith, eq_iff found.name name))
      ]

  find_role_tables :
      (name : Text) (s : S) → laws.tables (find_role_by_name r name s).1 ≡ laws.tables s
  unfolding find_role_by_name
  find_role_tables name s = laws.first_role_tables (name_is name ∷ role_deleted_is false ∷ []) s

  -- What `AssignRole` has done when it succeeded: the role was not assigned, and is now.
  pub record Assigned (id name : Text) (before end : Tables) : Type 0 where
    pub uuid : Uuid
    pub parsed : parse_user_id r.uuids id ≡ ok uuid
    pub role : RoleModel
    pub named : Named before uuid name role
    pub new : is_assigned (pair uuid role) before ≡ false
    pub added : end ≡ record before { assigned = pair uuid role ∷ before.assigned }

  -- And `RevokeRole`: the role was assigned, and is no more.
  pub record Revoked (id name : Text) (before end : Tables) : Type 0 where
    pub uuid : Uuid
    pub parsed : parse_user_id r.uuids id ≡ ok uuid
    pub role : RoleModel
    pub named : Named before uuid name role
    pub old : is_assigned (pair uuid role) before ≡ true
    pub removed : end ≡ record before {
      assigned = select (λ b. not (same_assignment (pair uuid role) b)) before.assigned;
    }

  module _ (uuid : Uuid) (name : Text) (s : S) where
    abbrev s1 : S
    s1 = (ensure_active_user_exists r uuid s).1

    abbrev s2 : S
    s2 = (find_role_by_name r name s1).1

    found_tables : laws.tables s2 ≡ laws.tables s
    found_tables = find_role_tables name s1 ∙ ensure_tables uuid s

    both_Named :
        (role : RoleModel)
        → (ensure_active_user_exists r uuid s).0 ≡ ok tt
        → (find_role_by_name r name s1).0 ≡ ok role
        → Named (laws.tables s) uuid name role
    both_Named role h k =
        let (row, stored, live, same_id) = ensure_ok uuid s h in
        let (known, usable, same_name) = find_role_ok name s1 role k in
        record {
          row = row;
          stored = stored;
          live = live;
          same_id = same_id;
          known = subst (λ (t : Tables). In role t.roles) (ensure_tables uuid s) known;
          usable = usable;
          same_name = same_name;
        }

    assign_in_ok :
        (assign_in r uuid name s).0 ≡ ok tt
        → (role : RoleModel) × Named (laws.tables s) uuid name role
          × (is_assigned (pair uuid role) (laws.tables s) ≡ false)
          × (laws.tables (assign_in r uuid name s).1
              ≡ record (laws.tables s) { assigned = pair uuid role ∷ (laws.tables s).assigned })
    assign_in_ok h = elim (Result-cases (ensure_active_user_exists r uuid s).0) [
      | inr (e, p) ↦ absurd (ground arith)
      | inl (w, p) ↦ elim (Result-cases (find_role_by_name r name s1).0) [
        | inr (e, q) ↦ absurd (ground arith)
        | inl (role, q) ↦
            let a = pair uuid role in
            let s3 = (r.db.count_assignments a s2).1 in
            let same = laws.count_assignments_tables a s2 ∙ found_tables in
            elim (Result-cases (r.db.count_assignments a s2).0) [
              | inr (e, k) ↦ absurd (ground arith)
              | inl (n, k) ↦ elim (Bool-cases (ltb_ℤ (pos 0) n)) [
                | inl more ↦ absurd (ground arith)
                | inr none_yet ↦ elim (Result-cases (r.db.create_assignment a s3).0) [
                  | inr (e, l) ↦ absurd (ground arith)
                  | inl (v, l) ↦
                      let zero_rows =
                        select-length_zero (same_assignment a) (laws.tables s2).assigned
                          (ground (arith, laws.count_assignments_law a s2 n k)) in
                      (
                        role,
                        both_Named role p q,
                        subst (λ (t : Tables). is_assigned a t ≡ false) found_tables
                            (any-select (same_assignment a) (laws.tables s2).assigned zero_rows),
                        rw (p, q, k, none_yet)
                            ((laws.create_assignment_law a s3).done v l
                              ∙ ap (λ (t : Tables). record t { assigned = a ∷ t.assigned }) same),
                      )
                ]
              ]
            ]
      ]
    ]

    revoke_in_ok :
        (revoke_in r uuid name s).0 ≡ ok tt
        → (role : RoleModel) × Named (laws.tables s) uuid name role
          × (is_assigned (pair uuid role) (laws.tables s) ≡ true)
          × (laws.tables (revoke_in r uuid name s).1 ≡ record (laws.tables s) {
            assigned =
                select (λ b. not (same_assignment (pair uuid role) b)) (laws.tables s).assigned;
          })
    revoke_in_ok h = elim (Result-cases (ensure_active_user_exists r uuid s).0) [
      | inr (e, p) ↦ absurd (ground arith)
      | inl (w, p) ↦ elim (Result-cases (find_role_by_name r name s1).0) [
        | inr (e, q) ↦ absurd (ground arith)
        | inl (role, q) ↦
            let a = pair uuid role in
            elim (Result-cases (r.db.delete_assignments a s2).0) [
              | inr (e, k) ↦ absurd (ground arith)
              | inl (n, k) ↦
                  let some_rows =
                    select-any (same_assignment a) (laws.tables s2).assigned
                      (ground (arith, laws.delete_assignments_count a s2 n k)) in
                  (
                    role,
                    both_Named role p q,
                    subst (λ (t : Tables). is_assigned a t ≡ true) found_tables some_rows,
                    rw (p, q, k)
                        ((laws.delete_assignments_law a s2).done n k
                          ∙ ap
                              (λ (t : Tables). record t {
                                assigned = select (λ b. not (same_assignment a b)) t.assigned;
                              })
                              found_tables),
                  )
            ]
      ]
    ]

  -- `AssignRole` fails and leaves the tables as they were, or it has assigned a role that is not
  -- deleted and has the name given to a user who is not deleted and did not have it.
  pub assign_role_cases :
      (id name : Text) (s : S)
      → ((e : Error) × ((assign_role r id name s).0 ≡ err e)
          × (laws.tables (assign_role r id name s).1 ≡ laws.tables s))
        ⊎ (((assign_role r id name s).0 ≡ ok tt)
            × Assigned id name (laws.tables s) (laws.tables (assign_role r id name s).1))
  unfolding assign_role
  assign_role_cases id name s = elim (Result-cases (parse_user_id r.uuids id)) [
    | inr (e, p) ↦ inl (e, rw p, rw p)
    | inl (uuid, p) ↦
        let run = laws.transaction_law (assign_in r uuid name) s in
        elim (Result-cases (r.db.transaction_ (assign_in r uuid name) s).0) [
          | inr (e, q) ↦ inl (e, rw p q, rw p (run.rolled_back e q))
          | inl (v, q) ↦
              let (result, state) = run.committed v q in
              let (role, named, new, added) = assign_in_ok uuid name run.begun result in
              inr (
                rw p q,
                record {
                  uuid = uuid;
                  parsed = p;
                  role = role;
                  named = subst (λ t. Named t uuid name role) run.same named;
                  new = subst (λ (t : Tables). is_assigned (pair uuid role) t ≡ false) run.same new;
                  added = rw p (
                      state
                      ∙ (added
                          ∙ ap (λ (t : Tables). record t { assigned = pair uuid role ∷ t.assigned })
                              run.same));
                },
              )
        ]
  ]

  -- `RevokeRole` fails and leaves the tables as they were, or it has removed the assignment of a
  -- role that is not deleted and has the name given from a user who is not deleted and had it.
  pub revoke_role_cases :
      (id name : Text) (s : S)
      → ((e : Error) × ((revoke_role r id name s).0 ≡ err e)
          × (laws.tables (revoke_role r id name s).1 ≡ laws.tables s))
        ⊎ (((revoke_role r id name s).0 ≡ ok tt)
            × Revoked id name (laws.tables s) (laws.tables (revoke_role r id name s).1))
  unfolding revoke_role
  revoke_role_cases id name s = elim (Result-cases (parse_user_id r.uuids id)) [
    | inr (e, p) ↦ inl (e, rw p, rw p)
    | inl (uuid, p) ↦
        let run = laws.transaction_law (revoke_in r uuid name) s in
        elim (Result-cases (r.db.transaction_ (revoke_in r uuid name) s).0) [
          | inr (e, q) ↦ inl (e, rw p q, rw p (run.rolled_back e q))
          | inl (v, q) ↦
              let (result, state) = run.committed v q in
              let (role, named, old, removed) = revoke_in_ok uuid name run.begun result in
              inr (
                rw p q,
                record {
                  uuid = uuid;
                  parsed = p;
                  role = role;
                  named = subst (λ t. Named t uuid name role) run.same named;
                  old = subst (λ (t : Tables). is_assigned (pair uuid role) t ≡ true) run.same old;
                  removed = rw p (
                      state
                      ∙ (removed
                          ∙ ap
                              (λ (t : Tables). record t {
                                assigned =
                                    select (λ b. not (same_assignment (pair uuid role) b))
                                      t.assigned;
                              })
                              run.same));
                },
              )
        ]
  ]
