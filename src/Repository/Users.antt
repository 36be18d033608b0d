-- ===== src/Repository/Users.antt =====
-- internal/repository/user_repository.go: the user repository. `*gorm.DB` is a parameter: one
-- operation for each form of statement that the methods build.
pub mod Tables
pub mod Selection
pub mod Visible
pub mod Writing
pub mod Assignments
pub mod RoleViews
pub mod Identity
pub mod Revocation
pub mod Sample
mod Tests
use storemesh_user_service.Base.{
  ℕ, List, [], ◌∷◌, map, Bool, true, false, not, ◌||◌, Option, none, some, length, eqb,
  if◌then◌else◌,
}
use storemesh_user_service.Base.Int.{ℤ, pos, negsuc, ◌-ℤ◌, ◌*ℤ◌, leb_ℤ, ltb_ℤ, eqb_ℤ, wrap_int64}
use storemesh_user_service.Go.Text.{Text, text, ◌==◌}
use storemesh_user_service.Go.Errors.{
  Error, is, errors_is, err_not_found, err_already_exists, duplicated_key, record_not_found,
}
use storemesh_user_service.Go.Action.{
  Result, ok, err, Action, pure, raise, lift, call, raise_if, on_error, then_result, ◌>>=◌, ◌>>◌,
}
use storemesh_user_service.Go.Time.{Time}
use storemesh_user_service.Domain.{
  User, Role, ListUsersRequest, UserStatus, status_active, status_suspended,
}
use storemesh_user_service.Domain.Ports.{UserRepository}
use storemesh_user_service.Service.{context, invalid_input}
use storemesh_user_service.Service.Users.{page_or_default, per_page_or_default}
use storemesh_user_service.Repository.Models.{
  Uuid, Uuids, UserModel, RoleModel, UserRole, before_create, parse_user_id, to_user_model,
  to_domain_role, to_domain_user,
}

-- The conditions of the `Where` calls, on each of the tables.
pub data UserClause : Type 0 where
  id_is : Uuid → UserClause
  email_is : Text → UserClause
  deleted_is : Bool → UserClause
  active_is : Bool → UserClause

pub data RoleClause : Type 0 where
  name_is : Text → RoleClause
  name_in : List Text → RoleClause
  role_deleted_is : Bool → RoleClause

-- An assignment of `Updates`.
pub data Change : Type 0 where
  set_first_name set_last_name set_email set_phone set_password : Text → Change
  set_active set_deleted : Bool → Change
  set_updated_at : Time → Change

-- `*gorm.DB` with its context. The reads of users preload the roles that are not deleted. `first_`
-- is `First`, `find_users` is `Order("created_at DESC").Limit(l).Offset(o).Find`, `find_roles` is
-- `Order("name ASC").Find`; `update_users` and `delete_assignments` return `RowsAffected`.
-- `transaction` and `transaction_` are `Transaction` for a function that leaves a row behind, and
-- for one that does not.
pub record Database (S : Type 0) : Type 0 where
  pub create_user : UserModel → Action S UserModel
  pub first_user : List UserClause → Action S UserModel
  pub count_users : List UserClause → Action S ℤ
  pub find_users : List UserClause → ℤ → ℤ → Action S (List UserModel)
  pub update_users : List UserClause → List Change → Action S ℤ
  pub first_role : List RoleClause → Action S RoleModel
  pub find_roles : List RoleClause → Action S (List RoleModel)
  pub replace_roles : UserModel → List RoleModel → Action S (Unit {0})
  pub count_assignments : UserRole → Action S ℤ
  pub create_assignment : UserRole → Action S (Unit {0})
  pub delete_assignments : UserRole → Action S ℤ
  pub transaction : Action S UserModel → Action S UserModel
  pub transaction_ : Action S (Unit {0}) → Action S (Unit {0})

-- The struct, with the packages that its methods call.
pub record Users (S : Type 0) : Type 0 where
  pub db : Database S
  pub uuids : Uuids S
  pub now : S → Time × S

-- An error of the database turned into one of the domain, or else put into its context.
abbrev pub missing_as_not_found : Text → Error → Error
missing_as_not_found m e = if errors_is e record_not_found then is err_not_found else context m e

abbrev pub duplicate_as_exists : Text → Error → Error
duplicate_as_exists m e = if errors_is e duplicated_key then is err_already_exists else context m e

abbrev pub create_error : Error → Error
create_error e =
    if errors_is e duplicated_key
    then is err_already_exists
    else if errors_is e err_not_found
    then e
    else context (text "create user: ") e

-- The `switch` of `List` on the status that is asked for.
abbrev pub status_clauses : UserStatus → Result (List UserClause)
status_clauses status =
    if status == text ""
    then ok (deleted_is false ∷ [])
    else if status == status_active
    then ok (deleted_is false ∷ active_is true ∷ [])
    else if status == status_suspended
    then ok (deleted_is false ∷ active_is false ∷ [])
    else err (invalid_input (text ": unsupported user status"))

-- `(page - 1) * perPage` on `int`.
abbrev pub offset_of : ℤ → ℤ → ℤ
offset_of page per_page = wrap_int64 (wrap_int64 (page -ℤ pos 1) *ℤ per_page)

module _ {S : Type 0} (r : Users S) where
  unfoldable pub find_roles_by_name : List Text → Action S (List RoleModel)
  find_roles_by_name [] = pure []
  find_roles_by_name (n ∷ names) = do
    roles ←
        on_error (context (text "find roles: "))
          (r.db.find_roles (name_in (n ∷ names) ∷ role_deleted_is false ∷ []))
    raise_if (not (eqb (length roles) (length (n ∷ names)))) (is err_not_found)
    pure roles

  unfoldable pub find_role_by_name : Text → Action S RoleModel
  find_role_by_name name =
      on_error (missing_as_not_found (text "find role: "))
        (r.db.first_role (name_is name ∷ role_deleted_is false ∷ []))

  unfoldable pub ensure_active_user_exists : Uuid → Action S (Unit {0})
  ensure_active_user_exists user_id = do
    count ←
        on_error (context (text "check user: "))
          (r.db.count_users (id_is user_id ∷ deleted_is false ∷ []))
    raise_if (eqb_ℤ count (pos 0)) (is err_not_found)

  -- The end of the transaction of `Create`: the row with its roles.
  abbrev pub attach_roles : UserModel → List RoleModel → Action S UserModel
  attach_roles row [] = pure row
  attach_roles row (role ∷ roles) = do
    on_error (context (text "persist user roles: ")) (r.db.replace_roles row (role ∷ roles))
    pure (record row { roles = role ∷ roles })

  abbrev pub create_in : UserModel → List Text → Action S UserModel
  create_in row names = do
    hooked ← call (before_create r.uuids row)
    inserted ← r.db.create_user hooked
    roles ← find_roles_by_name names
    attach_roles inserted roles

  unfoldable pub create : User → Action S User
  create user = do
    row ← lift (to_user_model r.uuids (some user))
    created ←
        on_error create_error
          (r.db.transaction (create_in row (map (λ (role : Role). role.name) user.roles)))
    pure (to_domain_user r.uuids created)

  unfoldable pub get_by_id : Text → Action S User
  get_by_id id = do
    parsed_id ← lift (parse_user_id r.uuids id)
    row ←
        on_error (missing_as_not_found (text "get user by id: "))
          (r.db.first_user (id_is parsed_id ∷ deleted_is false ∷ []))
    pure (to_domain_user r.uuids row)

  unfoldable pub get_by_email : Text → Action S User
  get_by_email email = do
    row ←
        on_error (missing_as_not_found (text "get user by email: "))
          (r.db.first_user (email_is email ∷ deleted_is false ∷ []))
    pure (to_domain_user r.uuids row)

  unfoldable pub list : ListUsersRequest → Action S (List User × ℤ)
  list req = do
    let page = page_or_default req.page
    let per_page = per_page_or_default req.per_page
    clauses ← lift (status_clauses req.status)
    total ← on_error (context (text "count users: ")) (r.db.count_users clauses)
    rows ←
        on_error (context (text "list users: "))
          (r.db.find_users clauses per_page (offset_of page per_page))
    pure (map (to_domain_user r.uuids) rows, total)

  -- The columns that `Update` writes.
  abbrev pub changes_of : UserModel → Time → List Change
  changes_of row now =
      set_first_name row.first_name
      ∷ set_last_name row.last_name
      ∷ set_email row.email
      ∷ set_phone row.phone
      ∷ set_password row.password
      ∷ set_active row.is_active
      ∷ set_updated_at now
      ∷ []

  unfoldable pub update : User → Action S User
  update user = do
    row ← lift (to_user_model r.uuids (some user))
    now ← call r.now
    affected ←
        on_error (duplicate_as_exists (text "update user: "))
          (r.db.update_users (id_is row.id ∷ deleted_is false ∷ []) (changes_of row now))
    raise_if (eqb_ℤ affected (pos 0)) (is err_not_found)
    pure (to_domain_user r.uuids (record row { updated_at = now }))

  unfoldable pub delete : Text → Action S (Unit {0})
  delete id = do
    parsed_id ← lift (parse_user_id r.uuids id)
    now ← call r.now
    affected ← on_error (context (text "delete user: ")) (
        r.db.update_users (id_is parsed_id ∷ deleted_is false ∷ [])
          (set_deleted true ∷ set_active false ∷ set_updated_at now ∷ []))
    raise_if (eqb_ℤ affected (pos 0)) (is err_not_found)

  unfoldable pub list_roles : Action S (List Role)
  list_roles = do
    rows ← on_error (context (text "list roles: ")) (r.db.find_roles (role_deleted_is false ∷ []))
    pure (map (to_domain_role r.uuids) rows)

  -- The transaction of `AssignRole`.
  abbrev pub assign_in : Uuid → Text → Action S (Unit {0})
  assign_in user_id role_name = do
    ensure_active_user_exists user_id
    role ← find_role_by_name role_name
    count ←
        on_error (context (text "check user role assignment: "))
          (r.db.count_assignments (record { user_id = user_id; role_id = role.id }))
    raise_if (ltb_ℤ (pos 0) count) (is err_already_exists)
    on_error (duplicate_as_exists (text "assign user role: "))
        (r.db.create_assignment (record { user_id = user_id; role_id = role.id }))

  unfoldable pub assign_role : Text → Text → Action S (Unit {0})
  assign_role user_id role_name = do
    parsed_id ← lift (parse_user_id r.uuids user_id)
    r.db.transaction_ (assign_in parsed_id role_name)

  -- The transaction of `RevokeRole`.
  abbrev pub revoke_in : Uuid → Text → Action S (Unit {0})
  revoke_in user_id role_name = do
    ensure_active_user_exists user_id
    role ← find_role_by_name role_name
    affected ←
        on_error (context (text "revoke user role: "))
          (r.db.delete_assignments (record { user_id = user_id; role_id = role.id }))
    raise_if (eqb_ℤ affected (pos 0)) (is err_not_found)

  unfoldable pub revoke_role : Text → Text → Action S (Unit {0})
  revoke_role user_id role_name = do
    parsed_id ← lift (parse_user_id r.uuids user_id)
    r.db.transaction_ (revoke_in parsed_id role_name)

  -- `NewUserRepository`.
  unfoldable pub user_repository : UserRepository S
  user_repository = record {
    create = create;
    get_by_id = get_by_id;
    get_by_email = get_by_email;
    update = update;
    delete = delete;
    list = list;
    list_roles = list_roles;
    assign_role = assign_role;
    revoke_role = revoke_role;
  }
