-- ===== src/Http/Messages.antt =====
-- internal/server/http/handler/user_dto.go and auth_dto.go: the bodies of the HTTP requests and
-- responses. A request type is its fields; how gin decodes it is a parameter of the handlers.
use storemesh_user_service.Base.{List, map, Bool, some}
use storemesh_user_service.Base.Int.{ℤ}
use storemesh_user_service.Go.Text.{Text, text}
use storemesh_user_service.Go.Time.{Time}
use storemesh_user_service.Domain.{
  User, Role, TokenPair, CreateUserRequest, UpdateUserRequest, ListUsersRequest, ListUsersResponse,
  AuthRequest, is_active,
}

pub record CreateUserBody : Type 0 where
  pub email : Text
  pub password : Text
  pub first_name : Text
  pub last_name : Text
  pub phone : Text

abbrev pub create_user_request : CreateUserBody → CreateUserRequest
create_user_request b = record {
  email = b.email;
  password = b.password;
  first_name = b.first_name;
  last_name = b.last_name;
  phone = b.phone;
}

pub record UpdateUserBody : Type 0 where
  pub first_name : Text
  pub last_name : Text
  pub phone : Text

abbrev pub update_user_request : UpdateUserBody → Text → UpdateUserRequest
update_user_request b id = record {
  id = id;
  first_name = b.first_name;
  last_name = b.last_name;
  phone = b.phone;
}

pub record ListUsersQuery : Type 0 where
  pub status : Text
  pub page : ℤ
  pub per_page : ℤ

abbrev pub list_users_request : ListUsersQuery → ListUsersRequest
list_users_request q = record { status = q.status; page = q.page; per_page = q.per_page }

pub record AuthenticateBody : Type 0 where
  pub email : Text
  pub password : Text

abbrev pub auth_request : AuthenticateBody → AuthRequest
auth_request b = record { email = b.email; password = b.password }

pub record UserResponse : Type 0 where
  pub id : Text
  pub email : Text
  pub first_name : Text
  pub last_name : Text
  pub phone : Text
  pub is_active : Bool
  pub roles : List Text
  pub created_at : Time
  pub updated_at : Time

-- The service returns no nil user without an error.
abbrev pub to_user_response : User → UserResponse
to_user_response user = record {
  id = user.id;
  email = user.email;
  first_name = user.first_name;
  last_name = user.last_name;
  phone = user.phone;
  is_active = is_active (some user);
  roles = map (λ (role : Role). role.name) user.roles;
  created_at = user.created_at;
  updated_at = user.updated_at;
}

pub record RoleResponse : Type 0 where
  pub id : Text
  pub name : Text
  pub description : Text

abbrev pub to_role_responses : List Role → List RoleResponse
to_role_responses =
    map (λ (role : Role). record { id = role.id; name = role.name; description = role.description })

pub record PageResponse : Type 0 where
  pub users : List UserResponse
  pub total_items : ℤ
  pub total_pages : ℤ
  pub page : ℤ
  pub per_page : ℤ

abbrev pub to_list_users_response : ListUsersResponse → PageResponse
to_list_users_response r = record {
  users = map to_user_response r.users;
  total_items = r.total_items;
  total_pages = r.total_pages;
  page = r.page;
  per_page = r.per_page;
}

pub record TokenPairResponse : Type 0 where
  pub access_token : Text
  pub refresh_token : Text
  pub token_type : Text

abbrev pub to_token_pair_response : TokenPair → TokenPairResponse
to_token_pair_response pair = record {
  access_token = pair.access_token;
  refresh_token = pair.refresh_token;
  token_type = text "Bearer";
}

pub record AuthenticationResponse : Type 0 where
  pub user : UserResponse
  pub tokens : TokenPairResponse

abbrev pub authentication_response : User × TokenPair → AuthenticationResponse
authentication_response (user, pair) = record {
  user = to_user_response user;
  tokens = to_token_pair_response pair;
}
