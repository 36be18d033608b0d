-- ===== src/Http/Handlers/Tests.antt =====
-- The routes at concrete requests, in the world of Service.Sample.
use storemesh_user_service.Base.{◌≡◌, refl, [], ◌∷◌, false, none, some}
use storemesh_user_service.Go.Text.{Text, text, ◌==◌, trim_space}
use storemesh_user_service.Go.Errors.{message}
use storemesh_user_service.Go.Action.{ok}
use storemesh_user_service.Grpc.{Reply, is_public, public_methods}
use storemesh_user_service.Grpc
use storemesh_user_service.Grpc.Requests.{service_validator}
use storemesh_user_service.Grpc.Server.{
  get_user_call, delete_user_call, get_user_roles_call, assign_role_call, revoke_role_call,
  list_roles_call, logout_call, logout_all_call, authenticate_call, create_user_call,
}
use storemesh_user_service.Http.{Request, error, write_error}
use storemesh_user_service.Http.Messages.{
  CreateUserBody, create_user_request, AuthenticateBody, auth_request,
}
use storemesh_user_service.Http.Handlers.{
  get_user_route, delete_user_route, get_user_roles_route, assign_role_route, revoke_role_route,
  list_roles_route, logout, logout_all, authenticate, create_user, refresh_token,
}
use storemesh_user_service.Http.Handlers.Correspondence.{
  Corresponds, intercepted, routes-Corresponds, open_routes-Corresponds,
}
use storemesh_user_service.Service.Sample.{World, sample_service, sample_world}

abbrev request : Request
request = record {
  context = record { claims = none; incoming = some (λ key. text "Bearer access1" ∷ []) };
  header = λ name. text "Bearer access1";
  param = λ name. text "u1";
}

abbrev get_user_method : Text
get_user_method = text "/user.v1.UserService/GetUser"

is_private : is_public public_methods get_user_method ≡ false
unfolding is_public ◌==◌
is_private = refl

abbrev called : {B : Type 0} → storemesh_user_service.Grpc.Handler World B → Reply B × World
called =
    intercepted sample_service (service_validator sample_service) public_methods get_user_method
      request sample_world

routes-Corresponds_example :
    Corresponds
      (get_user_route sample_service (service_validator sample_service) request sample_world)
      (called (get_user_call sample_service (text "u1")))
    × Corresponds
        (delete_user_route sample_service (service_validator sample_service) request sample_world)
        (called (delete_user_call sample_service (text "u1")))
    × Corresponds
        (get_user_roles_route sample_service
          (service_validator sample_service)
          request
          sample_world)
        (called (get_user_roles_call sample_service (text "u1")))
    × Corresponds
        (assign_role_route sample_service (service_validator sample_service) request sample_world)
        (called (assign_role_call sample_service (text "u1") (text "u1")))
    × Corresponds
        (revoke_role_route sample_service (service_validator sample_service) request sample_world)
        (called (revoke_role_call sample_service (text "u1") (text "u1")))
    × Corresponds
        (list_roles_route sample_service (service_validator sample_service) request sample_world)
        (called (list_roles_call sample_service))
routes-Corresponds_example =
    routes-Corresponds sample_service (service_validator sample_service) public_methods
      get_user_method request sample_world is_private refl

abbrev login : AuthenticateBody
login = record { email = text "a@b.c"; password = text "secret" }

abbrev registration : CreateUserBody
registration = record {
  email = text "n@b.c";
  password = text "long enough";
  first_name = text "N";
  last_name = text "";
  phone = text "";
}

open_routes-Corresponds_example :
    Corresponds
      (logout sample_service request sample_world)
      (storemesh_user_service.Grpc.Server.logout_call sample_service request.context sample_world)
    × Corresponds
        (logout_all sample_service request sample_world)
        (logout_all_call sample_service request.context sample_world)
    × Corresponds
        (authenticate sample_service (λ c. ok login) request sample_world)
        (authenticate_call sample_service (auth_request login) request.context sample_world)
    × Corresponds (create_user sample_service (λ c. ok registration) request sample_world) (
        create_user_call sample_service
          (create_user_request registration)
          request.context
          sample_world)
open_routes-Corresponds_example =
    open_routes-Corresponds sample_service request sample_world (λ c. ok login)
      (λ c. ok registration) login registration refl refl refl

-- A blank refresh token is an invalid request here.
blank_refresh :
    (refresh_token sample_service (λ c. ok (text " ")) request sample_world)
    ≡ (error 400 (text "invalid input: refresh_token is required"), sample_world)
unfolding refresh_token trim_space ◌==◌ write_error message
blank_refresh = refl
