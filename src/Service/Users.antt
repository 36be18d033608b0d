-- ===== src/Service/Users.antt =====
-- The methods of `userService` on accounts and roles, in internal/service/user_service.go.
pub mod Roles
pub mod Accounts
pub mod Pages
mod Tests
use storemesh_user_service.Base.{ℕ, List, [], ◌∷◌, Bool, ◌||◌, ltb, if◌then◌else◌}
use storemesh_user_service.Base.Int.{ℤ, pos, leb_ℤ, ltb_ℤ}
use storemesh_user_service.Go.Text.{Text, text, ◌==◌, len, trim_space, to_lower}
use storemesh_user_service.Go.Action.{Action, pure, raise_if, on_error, then_result, ◌>>=◌, ◌>>◌}
use storemesh_user_service.Domain.{
  User, Role, CreateUserRequest, UpdateUserRequest, ListUsersRequest, ListUsersResponse,
  status_active, role_customer,
}
use storemesh_user_service.Service.{UserService, normalize_email, context, invalid_input}

abbrev pub minimum_password_length : ℕ
minimum_password_length = 8

-- `if value := strings.TrimSpace(given); value != "" { field = value }`.
abbrev pub or_kept : Text → Text → Text
or_kept value field = if value == text "" then field else value

-- `float64` with the operations that `ListUsers` uses.
pub record Float64 (F : Type 0) : Type 0 where
  pub of_int : ℤ → F
  pub divide : F → F → F
  pub ceil : F → F
  pub to_int : F → ℤ

-- The two guards of `ListUsers` on the page and its size.
abbrev pub page_or_default : ℤ → ℤ
page_or_default page = if leb_ℤ page (pos 0) then pos 1 else page

abbrev pub per_page_or_default : ℤ → ℤ
per_page_or_default n = if leb_ℤ n (pos 0) || ltb_ℤ (pos 100) n then pos 20 else n

-- The response of `ListUsers` for what the repository returned.
abbrev pub listing : {F : Type 0} → Float64 F → ℤ → ℤ → List User × ℤ → ListUsersResponse
listing float page per_page (users, total) = record {
  users = users;
  total_items = total;
  total_pages =
      float.to_int (float.ceil (float.divide (float.of_int total) (float.of_int per_page)));
  page = page;
  per_page = per_page;
}

module _ {S : Type 0} (s : UserService S) where
  abbrev pub new_user : Text → Text → CreateUserRequest → User
  new_user email hash req = record {
    id = text "";
    email = email;
    password_hash = hash;
    first_name = trim_space req.first_name;
    last_name = trim_space req.last_name;
    phone = trim_space req.phone;
    status = status_active;
    roles = record { id = text ""; name = role_customer; description = text "" } ∷ [];
    created_at = pos 0;
    updated_at = pos 0;
  }

  pub create_user : CreateUserRequest → Action S User
  create_user req = do
    let email = normalize_email s.platform.unicode req.email
    raise_if (email == text "") (invalid_input (text ": email is required"))
    raise_if (ltb (len req.password) minimum_password_length)
        (invalid_input (text ": password must contain at least 8 characters"))
    hash ←
        on_error (context (text "hash password: ")) (s.platform.generate_from_password req.password)
    s.users.create (new_user email hash req)

  pub get_user : Text → Action S User
  get_user id = do
    let trimmed = trim_space id
    raise_if (trimmed == text "") (invalid_input (text ": id is required"))
    s.users.get_by_id trimmed

  pub get_user_by_email : Text → Action S User
  get_user_by_email email = do
    let normalized = normalize_email s.platform.unicode email
    raise_if (normalized == text "") (invalid_input (text ": email is required"))
    s.users.get_by_email normalized

  pub update_user : UpdateUserRequest → Action S User
  update_user req = do
    let id = trim_space req.id
    raise_if (id == text "") (invalid_input (text ": id is required"))
    user ← s.users.get_by_id id
    s.users.update (record user {
      first_name = or_kept (trim_space req.first_name) user.first_name;
      last_name = or_kept (trim_space req.last_name) user.last_name;
      phone = or_kept (trim_space req.phone) user.phone;
    })

  unfoldable pub delete_user : Text → Action S (Unit {0})
  delete_user id = do
    let trimmed = trim_space id
    raise_if (trimmed == text "") (invalid_input (text ": id is required"))
    on_error (context (text "revoke user sessions: ")) (s.sessions.delete_all_for_user trimmed)
    s.users.delete trimmed

  pub list_users : {F : Type 0} → Float64 F → ListUsersRequest → Action S ListUsersResponse
  list_users float req = do
    let page = page_or_default req.page
    let per_page = per_page_or_default req.per_page
    answer ← s.users.list (record { status = req.status; page = page; per_page = per_page })
    pure (listing float page per_page answer)

  pub list_roles : Action S (List Role)
  list_roles = s.users.list_roles

  pub get_user_roles : Text → Action S (List Role)
  get_user_roles user_id = do
    let id = trim_space user_id
    raise_if (id == text "") (invalid_input (text ": user id is required"))
    user ← s.users.get_by_id id
    pure user.roles

  pub normalize_role_operation : Text → Text → Action S (Text × Text)
  normalize_role_operation user_id role_name = do
    let id = trim_space user_id
    let name = to_lower s.platform.unicode (trim_space role_name)
    raise_if (id == text "") (invalid_input (text ": user id is required"))
    raise_if (name == text "") (invalid_input (text ": role name is required"))
    pure (id, name)

  unfoldable pub assign_role : Text → Text → Action S User
  unfolding normalize_role_operation
  assign_role user_id role_name = do
    (id, name) ← normalize_role_operation user_id role_name
    on_error (context (text "revoke user sessions: ")) (s.sessions.delete_all_for_user id)
    s.users.assign_role id name
    s.users.get_by_id id

  pub revoke_role : Text → Text → Action S User
  unfolding normalize_role_operation
  revoke_role user_id role_name = do
    (id, name) ← normalize_role_operation user_id role_name
    on_error (context (text "revoke user sessions: ")) (s.sessions.delete_all_for_user id)
    s.users.revoke_role id name
    s.users.get_by_id id
