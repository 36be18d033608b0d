-- ===== src/Http/Handlers.antt =====
-- internal/server/http/handler (user_handler_methods.go, auth_handler.go, role_handler.go and the
-- routes of user_handler.go): the methods of `UserHandler`, and each behind the middleware that
-- `RegisterRoutes` puts before it. `bind` stands for gin's decoding of the body or the query.
pub mod Correspondence
mod Tests
use storemesh_user_service.Base.{ℕ, List, [], ◌∷◌, Bool, if◌then◌else◌}
use storemesh_user_service.Go.Text.{Text, text, ◌==◌, trim_space, Unicode}
use storemesh_user_service.Go.Action.{Result, ok, err, Action}
use storemesh_user_service.Domain.{role_admin}
use storemesh_user_service.Auth.{TokenValidator, parse_bearer_token}
use storemesh_user_service.Service.{UserService, invalid_input}
use storemesh_user_service.Service.Tokens
use storemesh_user_service.Service.Users
use storemesh_user_service.Service.Users.{Float64}
use storemesh_user_service.Http.{
  Request, Response, value, error, Handler, write_error, authentication, require_self_or_role,
  require_role,
}
use storemesh_user_service.Http.Messages.{
  CreateUserBody, create_user_request, UpdateUserBody, update_user_request, ListUsersQuery,
  list_users_request, AuthenticateBody, auth_request, UserResponse, to_user_response, RoleResponse,
  to_role_responses, PageResponse, to_list_users_response, TokenPairResponse,
  to_token_pair_response, AuthenticationResponse, authentication_response,
}

-- `if err != nil { h.writeError(c, err); return }`, and the response otherwise.
abbrev pub written : {A B : Type 0} → ℕ → (A → B) → Result A → Response B
written code f (ok a) = value code (f a)
written code f (err e) = write_error e

abbrev pub respond : {S A B : Type 0} → Action S A → ℕ → (A → B) → S → Response B × S
respond m code f s = (written code f (m s).0, (m s).1)

-- A value that may be missing: `writeError` or the rest of the handler.
abbrev pub with_result : {S A B : Type 0} → Result A → (A → S → Response B × S) → S → Response B × S
with_result (ok a) f s = f a s
with_result (err e) f s = (write_error e, s)

-- `writeInvalidRequest` or the rest of the handler.
abbrev pub with_body : {S A B : Type 0} → Result A → (A → S → Response B × S) → S → Response B × S
with_body (ok a) f s = f a s
with_body (err e) f s = (error 400 (text "invalid request"), s)

module _ {S : Type 0} (svc : UserService S) where
  abbrev pub get_user : Handler S UserResponse
  get_user c =
      respond (storemesh_user_service.Service.Users.get_user svc (c.param (text "id"))) 200
        to_user_response

  abbrev pub list_users :
      {F : Type 0} → Float64 F → (Request → Result ListUsersQuery) → Handler S PageResponse
  list_users float bind c = with_body (bind c) (λ query.
      respond (storemesh_user_service.Service.Users.list_users svc float (list_users_request query))
        200 to_list_users_response)

  abbrev pub create_user : (Request → Result CreateUserBody) → Handler S UserResponse
  create_user bind c = with_body (bind c) (λ body.
      respond (storemesh_user_service.Service.Users.create_user svc (create_user_request body)) 201
        to_user_response)

  abbrev pub update_user : (Request → Result UpdateUserBody) → Handler S UserResponse
  update_user bind c = with_body (bind c) (λ body.
      respond
        (storemesh_user_service.Service.Users.update_user svc
          (update_user_request body (c.param (text "id"))))
        200 to_user_response)

  abbrev pub delete_user : Handler S (Unit {0})
  delete_user c =
      respond (storemesh_user_service.Service.Users.delete_user svc (c.param (text "id"))) 204
        (λ _. tt)

  abbrev pub authenticate : (Request → Result AuthenticateBody) → Handler S AuthenticationResponse
  authenticate bind c = with_body (bind c) (λ body.
      respond (storemesh_user_service.Service.Tokens.authenticate svc (auth_request body)) 200
        authentication_response)

  -- The body of `RefreshToken` is its one field.
  unfoldable pub refresh_token : (Request → Result Text) → Handler S TokenPairResponse
  refresh_token bind c = with_body (bind c) (λ token s.
      if trim_space token == text ""
      then (write_error (invalid_input (text ": refresh_token is required")), s)
      else respond (storemesh_user_service.Service.Tokens.refresh svc token) 200
          to_token_pair_response s)

  abbrev pub bearer : Request → Result Text
  bearer c = parse_bearer_token svc.platform.unicode (c.header (text "Authorization"))

  abbrev pub logout : Handler S (Unit {0})
  logout c =
      with_result (bearer c)
        (λ token. respond (storemesh_user_service.Service.Tokens.logout svc token) 204 (λ _. tt))

  abbrev pub logout_all : Handler S (Unit {0})
  logout_all c =
      with_result (bearer c) (λ token.
        respond (storemesh_user_service.Service.Tokens.logout_all svc token) 204 (λ _. tt))

  abbrev pub list_roles : Handler S (List RoleResponse)
  list_roles c = respond (storemesh_user_service.Service.Users.list_roles svc) 200 to_role_responses

  abbrev pub get_user_roles : Handler S (List RoleResponse)
  get_user_roles c =
      respond (storemesh_user_service.Service.Users.get_user_roles svc (c.param (text "id"))) 200
        to_role_responses

  abbrev pub assign_role : Handler S UserResponse
  assign_role c =
      respond
        (storemesh_user_service.Service.Users.assign_role svc (c.param (text "id"))
          (c.param (text "role")))
        200 to_user_response

  abbrev pub revoke_role : Handler S UserResponse
  revoke_role c =
      respond
        (storemesh_user_service.Service.Users.revoke_role svc (c.param (text "id"))
          (c.param (text "role")))
        200 to_user_response

  abbrev unicode : Unicode
  unicode = svc.platform.unicode

  -- The routes of `RegisterRoutes` that are protected: `Authentication` and an access check before
  -- the handler. The service is the validator; the other routes are the bare handlers.
  module _ (v : TokenValidator S) where
    abbrev admin_only : {A : Type 0} → Handler S A → Handler S A
    admin_only h = authentication unicode v (require_role unicode h (role_admin ∷ []))

    abbrev self_or_admin : {A : Type 0} → Handler S A → Handler S A
    self_or_admin h =
        authentication unicode v (require_self_or_role unicode h (text "id") (text "admin" ∷ []))

    unfoldable pub list_users_route :
        {F : Type 0} → Float64 F → (Request → Result ListUsersQuery) → Handler S PageResponse
    list_users_route float bind = admin_only (list_users float bind)

    unfoldable pub get_user_route : Handler S UserResponse
    get_user_route = self_or_admin get_user

    -- `PUT` and `PATCH`.
    unfoldable pub update_user_route : (Request → Result UpdateUserBody) → Handler S UserResponse
    update_user_route bind = self_or_admin (update_user bind)

    unfoldable pub delete_user_route : Handler S (Unit {0})
    delete_user_route = self_or_admin delete_user

    unfoldable pub get_user_roles_route : Handler S (List RoleResponse)
    get_user_roles_route = self_or_admin get_user_roles

    unfoldable pub assign_role_route : Handler S UserResponse
    assign_role_route = admin_only assign_role

    unfoldable pub revoke_role_route : Handler S UserResponse
    revoke_role_route = admin_only revoke_role

    unfoldable pub list_roles_route : Handler S (List RoleResponse)
    list_roles_route = admin_only list_roles
