-- ===== src/Domain.antt =====
-- internal/domain/user.go: the entities and requests, and in Ports the two interfaces that the
-- service is written against.
pub mod Contract
pub mod Ports
use storemesh_user_service.Base.{List, [], ◌&&◌, Bool, true, false, Option, none, some}
use storemesh_user_service.Base.Int.{ℤ}
use storemesh_user_service.Go.Text.{Text, text, ◌==◌}
use storemesh_user_service.Go.Time.{Time}

-- `UserStatus` and `TokenType` are string types: any text may come in from outside.
abbrev pub UserStatus : Type 0
UserStatus = Text

abbrev pub status_active : UserStatus
status_active = text "active"

abbrev pub status_suspended : UserStatus
status_suspended = text "suspended"

abbrev pub status_deleted : UserStatus
status_deleted = text "deleted"

abbrev pub TokenType : Type 0
TokenType = Text

abbrev pub token_type_access : TokenType
token_type_access = text "access"

abbrev pub token_type_refresh : TokenType
token_type_refresh = text "refresh"

abbrev pub role_customer : Text
role_customer = text "customer"

abbrev pub role_admin : Text
role_admin = text "admin"

abbrev pub role_seller : Text
role_seller = text "seller"

pub record Role : Type 0 where
  pub id : Text
  pub name : Text
  pub description : Text

pub record User : Type 0 where
  pub id : Text
  pub email : Text
  pub password_hash : Text
  pub first_name : Text
  pub last_name : Text
  pub phone : Text
  pub status : UserStatus
  pub roles : List Role
  pub created_at : Time
  pub updated_at : Time

-- The receiver is a pointer, which may be nil.
unfoldable pub is_active : Option User → Bool
is_active none = false
is_active (some u) = u.status == status_active

pub record TokenPair : Type 0 where
  pub access_token : Text
  pub refresh_token : Text

pub record TokenClaims : Type 0 where
  pub user_id : Text
  pub email : Text
  pub roles : List Text
  pub token_type : TokenType
  pub token_id : Text
  pub session_id : Text
  pub expires_at : Time

pub record AuthSession : Type 0 where
  pub id : Text
  pub user_id : Text
  pub email : Text
  pub roles : List Text
  pub access_token_id : Text
  pub refresh_token_id : Text
  pub created_at : Time
  pub expires_at : Time

pub record CreateUserRequest : Type 0 where
  pub email : Text
  pub password : Text
  pub first_name : Text
  pub last_name : Text
  pub phone : Text

pub record UpdateUserRequest : Type 0 where
  pub id : Text
  pub first_name : Text
  pub last_name : Text
  pub phone : Text

pub record AuthRequest : Type 0 where
  pub email : Text
  pub password : Text

pub record ListUsersRequest : Type 0 where
  pub status : UserStatus
  pub page : ℤ
  pub per_page : ℤ

pub record ListUsersResponse : Type 0 where
  pub users : List User
  pub total_items : ℤ
  pub total_pages : ℤ
  pub page : ℤ
  pub per_page : ℤ
