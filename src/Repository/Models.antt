-- ===== src/Repository/Models.antt =====
-- internal/models (the rows of the three tables) and internal/repository/user_mapper.go. A UUID is
-- its 128 bits as a number; the uuid package's `Parse`, `String` and `New` are parameters.
pub mod Mapper
use storemesh_user_service.Base.{
  ℕ, ◌≡◌, ◌≢◌, List, [], map, Bool, Option, none, some, eqb, if◌then◌else◌,
}
use storemesh_user_service.Base.Int.{pos}
use storemesh_user_service.Go.Text.{Text, text, ◌==◌}
use storemesh_user_service.Go.Action.{Result, ok, err, Action, map_ok, map_result}
use storemesh_user_service.Go.Time.{Time}
use storemesh_user_service.Domain.{
  User, Role, UserStatus, status_active, status_suspended, status_deleted,
}
use storemesh_user_service.Service.{invalid_input}

abbrev pub Uuid : Type 0
Uuid = ℕ

abbrev pub uuid_nil : Uuid
uuid_nil = 0

-- Package uuid; `new` draws from the state.
pub record Uuids (S : Type 0) : Type 0 where
  pub parse : Text → Result Uuid
  pub to_string : Uuid → Text
  pub new : S → Uuid × S

-- `String` writes a text that is not empty and that `Parse` reads back.
pub record UuidLaws {S : Type 0} (uuids : Uuids S) : Type 0 where
  pub parse_to_string : (id : Uuid) → uuids.parse (uuids.to_string id) ≡ ok id
  pub to_string_given : (id : Uuid) → uuids.to_string id ≢ text ""

-- The column `deleted_at` stays empty in this program.
pub record RoleModel : Type 0 where
  pub id : Uuid
  pub name : Text
  pub description : Text
  pub deleted : Bool
  pub created_at : Time
  pub updated_at : Time

pub record UserModel : Type 0 where
  pub id : Uuid
  pub first_name : Text
  pub last_name : Text
  pub email : Text
  pub phone : Text
  pub password : Text
  pub is_active : Bool
  pub deleted : Bool
  pub roles : List RoleModel
  pub created_at : Time
  pub updated_at : Time

-- The gorm tag of `CreatedAt` lets the database package set it; the program never reads it.
pub record UserRole : Type 0 where
  pub user_id : Uuid
  pub role_id : Uuid

-- The status that `toDomainUser` gives a row.
unfoldable pub status_of : UserModel → UserStatus
status_of m =
    if m.deleted then status_deleted else if m.is_active then status_active else status_suspended

module _ {S : Type 0} (uuids : Uuids S) where
  -- The hook `User.BeforeCreate`.
  unfoldable pub before_create : UserModel → S → UserModel × S
  before_create m s =
      if eqb m.id uuid_nil then (record m { id = (uuids.new s).0 }, (uuids.new s).1) else (m, s)

  unfoldable pub parse_user_id : Text → Result Uuid
  parse_user_id id = map_result (λ e. invalid_input (text ": invalid user id")) (uuids.parse id)

  -- The identifier of `toUserModel`: none is given yet for a new user.
  abbrev pub id_of : Text → Result Uuid
  id_of id = if id == text "" then ok uuid_nil else parse_user_id id

  abbrev pub model_of : User → Uuid → UserModel
  model_of user id = record {
    id = id;
    first_name = user.first_name;
    last_name = user.last_name;
    email = user.email;
    phone = user.phone;
    password = user.password_hash;
    is_active = user.status == status_active;
    deleted = user.status == status_deleted;
    roles = [];
    created_at = user.created_at;
    updated_at = user.updated_at;
  }

  unfoldable pub to_user_model : Option User → Result UserModel
  to_user_model none = err (invalid_input (text ": user is required"))
  to_user_model (some user) = map_ok (model_of user) (id_of user.id)

  abbrev pub to_domain_role : RoleModel → Role
  to_domain_role role = record {
    id = uuids.to_string role.id;
    name = role.name;
    description = role.description;
  }

  unfoldable pub to_domain_user : UserModel → User
  unfolding status_of
  to_domain_user m = record {
    id = uuids.to_string m.id;
    email = m.email;
    password_hash = m.password;
    first_name = m.first_name;
    last_name = m.last_name;
    phone = m.phone;
    status = status_of m;
    roles = map to_domain_role m.roles;
    created_at = m.created_at;
    updated_at = m.updated_at;
  }
