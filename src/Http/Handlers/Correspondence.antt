-- ===== src/Http/Handlers/Correspondence.antt =====
-- The HTTP routes and the gRPC methods of the same name compared: they leave the same state, and
-- answer with corresponding statuses.
use storemesh_user_service.Base.{
  ℕ, ◌≡◌, ◌⊎◌, inl, inr, refl, List, [], ◌∷◌, false, true, Option, none, some, arith, Bool-cases,
  Option-cases,
}
use storemesh_user_service.Go.Text.{Text, text, Unicode}
use storemesh_user_service.Go.Action.{Result, ok, Action}
use storemesh_user_service.Go.Action.Laws.{Result-cases}
use storemesh_user_service.Domain.{TokenClaims, role_admin}
use storemesh_user_service.Auth.{
  TokenValidator, with_claims, require_claims, has_any_role, parse_bearer_token,
}
use storemesh_user_service.Service.{UserService}
use storemesh_user_service.Service.Tokens
use storemesh_user_service.Service.Users
use storemesh_user_service.Grpc
use storemesh_user_service.Grpc.{
  Status, Reply, reply, fail, panicked, is_public, authorization_of, refuse,
}
use storemesh_user_service.Grpc.Server
use storemesh_user_service.Grpc.Server.{
  fine, bad, checked, serve, or_grpc_error, to_proto, get_user_call, delete_user_call,
  get_user_roles_call, assign_role_call, revoke_role_call, list_roles_call, logout_call,
  logout_all_call, authenticate_call, create_user_call, access_token_from_metadata,
  authentication_required, forbidden,
}
use storemesh_user_service.Http.{
  Request, Response, error, Handler, authentication, require_self_or_role, require_role,
}
use storemesh_user_service.Http.Agreement.{
  http_code, status_of, write_error-to_grpc_error, require_self_or_role-agree, authentication-agree,
}
use storemesh_user_service.Http.Messages.{
  CreateUserBody, create_user_request, AuthenticateBody, auth_request, authentication_response,
  to_user_response,
}
use storemesh_user_service.Http.Handlers.{
  respond, with_result, bearer, get_user_route, delete_user_route, get_user_roles_route,
  assign_role_route, revoke_role_route, list_roles_route, logout, logout_all, authenticate,
  create_user,
}

-- The HTTP status that stands for the status of a reply; a panic is an internal error.
abbrev pub reply_status : {A : Type 0} → Reply A → Option ℕ
reply_status (reply a) = none
reply_status (fail e) = some (http_code e.code)
reply_status (panicked m) = some 500

-- Both succeed, or both fail with corresponding statuses; and the states are the same.
abbrev pub Corresponds : {A B S : Type 0} → Response A × S → Reply B × S → Type 0
Corresponds h g = (status_of h.0 ≡ reply_status g.0) × (h.1 ≡ g.1)

respond-Corresponds :
    {S A B D : Type 0} (m : Action S A) (code : ℕ) (f : A → B) (g : A → D) (s : S)
    → Corresponds (respond m code f s) (serve m g s)
respond-Corresponds {S} {A} {B} m code f g s = elim (Result-cases (m s).0) [
  | inl (a, p) ↦ (rw p, refl)
  | inr (e, p) ↦ (rw p (write_error-to_grpc_error B e), refl)
]

module _ {S A B : Type 0} (u : Unicode) (next : Handler S A) (rest : S → Reply B × S) (c : Request)
    (s : S) (roles : List Text) where
  self_or_role-Corresponds :
      (parameter : Text)
      → Corresponds (next c s) (rest s)
      → Corresponds (require_self_or_role u next parameter roles c s) (
          checked
            (storemesh_user_service.Grpc.Server.require_self_or_role u c.context
              (c.param parameter)
              roles)
            (λ _. rest)
            s)
  self_or_role-Corresponds parameter h =
      elim (require_self_or_role-agree u next parameter roles c s) [
        | inl (p, q) ↦ rw (p, q) h
        | inr (e, m, p, q) ↦ rw (p, q) (refl, refl)
      ]

  require_role-agree :
      ((storemesh_user_service.Grpc.Server.require_role u c.context roles ≡ fine tt)
        × (require_role u next roles c s ≡ next c s))
      ⊎ ((e : Status) × (m : Text) × (storemesh_user_service.Grpc.Server.require_role u c.context
              roles
            ≡ bad e)
          × (require_role u next roles c s ≡ (error (http_code e.code) m, s)))
  unfolding require_role storemesh_user_service.Grpc.Server.require_role require_claims has_any_role
  require_role-agree = elim (Option-cases c.context.claims) [
    | inl p ↦ inr (
      authentication_required,
      text "invalid or expired access token",
      ground arith,
      ground arith,
    )
    | inr (claims, p) ↦ elim (Bool-cases (has_any_role u (some claims) roles)) [
      | inl passes ↦ inl (ground arith, ground arith)
      | inr fails ↦ inr (forbidden, text "forbidden", ground arith, ground arith)
    ]
  ]

  role-Corresponds :
      Corresponds (next c s) (rest s)
      → Corresponds (require_role u next roles c s) (
          checked (storemesh_user_service.Grpc.Server.require_role u c.context roles) (λ _. rest) s)
  role-Corresponds h = elim require_role-agree [
    | inl (p, q) ↦ rw (p, q) h
    | inr (e, m, p, q) ↦ rw (p, q) (refl, refl)
  ]

module _ {S A B : Type 0} (u : Unicode) (v : TokenValidator S) (next : Handler S A)
    (handler : storemesh_user_service.Grpc.Handler S B) where
  authentication-Corresponds :
      (methods : List Text) (method : Text) (c : Request) (s : S)
      → is_public methods method ≡ false
      → authorization_of c.context.incoming ≡ ok (c.header (text "Authorization"))
      → ((claims : TokenClaims) (s' : S)
          → let ctx = with_claims c.context claims in
            Corresponds (next (record c { context = ctx }) s') (handler ctx s'))
      → Corresponds
          (authentication u v next c s)
          (storemesh_user_service.Grpc.authentication u v handler methods method c.context s)
  authentication-Corresponds methods method c s private same h =
      elim (authentication-agree u v next handler methods method c s private same) [
        | inl (claims, s', p, q) ↦ rw (p, q) (h claims s')
        | inr (s', p, q) ↦ rw (p, q) (refl, refl)
      ]

module _ {S : Type 0} (svc : UserService S) where
  abbrev unicode : Unicode
  unicode = svc.platform.unicode

  -- A method behind the interceptor `Authentication`, in the context of the request.
  abbrev pub intercepted :
      {B : Type 0}
      → TokenValidator S
      → List Text
      → Text
      → Request
      → S
      → storemesh_user_service.Grpc.Handler S B
      → Reply B × S
  intercepted v methods method c s h =
      storemesh_user_service.Grpc.authentication unicode v h methods method c.context s

  module _ (v : TokenValidator S) (methods : List Text) (method : Text) (c : Request) (s : S)
      (private : is_public methods method ≡ false)
      (same : authorization_of c.context.incoming ≡ ok (c.header (text "Authorization")))
      {A B D : Type 0} (m : Action S A) (code : ℕ) (f : A → B) (g : A → D) (next : Handler S B)
      (runs : (claims : TokenClaims)
        → next (record c { context = with_claims c.context claims }) ≡ respond m code f) where
    self_route :
        Corresponds
          (authentication unicode v
            (require_self_or_role unicode next (text "id") (text "admin" ∷ []))
            c
            s)
          (intercepted v methods method c s (λ ctx.
            checked
              (storemesh_user_service.Grpc.Server.require_self_or_role unicode ctx
                (c.param (text "id"))
                (text "admin" ∷ []))
              (λ _. serve m g)))
    self_route =
        authentication-Corresponds unicode v
          (require_self_or_role unicode next (text "id") (text "admin" ∷ [])) _ methods method c s
          private same
          (λ claims s'.
            self_or_role-Corresponds unicode next (serve m g)
              (record c { context = with_claims c.context claims }) s' (text "admin" ∷ [])
              (text "id") (rw (runs claims) (respond-Corresponds m code f g s')))

    admin_route :
        Corresponds (authentication unicode v (require_role unicode next (role_admin ∷ [])) c s) (
          intercepted v methods method c s (λ ctx.
            checked
              (storemesh_user_service.Grpc.Server.require_role unicode ctx (role_admin ∷ []))
              (λ _. serve m g)))
    admin_route =
        authentication-Corresponds unicode v (require_role unicode next (role_admin ∷ [])) _ methods
          method c s private same
          (λ claims s'.
            role-Corresponds unicode next (serve m g)
              (record c { context = with_claims c.context claims }) s' (role_admin ∷ [])
              (rw (runs claims) (respond-Corresponds m code f g s')))

  -- On the same `Authorization` value and for the account of the path, each protected HTTP route and
  -- the gRPC method of the same name behind its interceptor leave the same state, and both succeed
  -- or fail with corresponding statuses: `GetUser`, `DeleteUser`, `GetUserRoles`, `AssignRole`,
  -- `RevokeRole` and `ListRoles`, the method being none of the public ones.
  pub routes-Corresponds :
      (v : TokenValidator S) (methods : List Text) (method : Text) (c : Request) (s : S)
      → is_public methods method ≡ false
      → authorization_of c.context.incoming ≡ ok (c.header (text "Authorization"))
      → let id = c.param (text "id") in
        let role = c.param (text "role") in
        Corresponds
          (get_user_route svc v c s)
          (intercepted v methods method c s (get_user_call svc id))
        × Corresponds
            (delete_user_route svc v c s)
            (intercepted v methods method c s (delete_user_call svc id))
        × Corresponds
            (get_user_roles_route svc v c s)
            (intercepted v methods method c s (get_user_roles_call svc id))
        × Corresponds
            (assign_role_route svc v c s)
            (intercepted v methods method c s (assign_role_call svc id role))
        × Corresponds
            (revoke_role_route svc v c s)
            (intercepted v methods method c s (revoke_role_call svc id role))
        × Corresponds
            (list_roles_route svc v c s)
            (intercepted v methods method c s (list_roles_call svc))
  unfolding get_user_route delete_user_route get_user_roles_route assign_role_route
      revoke_role_route list_roles_route get_user_call delete_user_call get_user_roles_call
      assign_role_call revoke_role_call list_roles_call
  routes-Corresponds v methods method c s private same = (
    self_route v methods method c s private same _ 200 _ _ _ (λ claims. refl),
    self_route v methods method c s private same _ 204 _ _ _ (λ claims. refl),
    self_route v methods method c s private same _ 200 _ _ _ (λ claims. refl),
    admin_route v methods method c s private same _ 200 _ _ _ (λ claims. refl),
    admin_route v methods method c s private same _ 200 _ _ _ (λ claims. refl),
    admin_route v methods method c s private same _ 200 _ _ _ (λ claims. refl),
  )

  bearer_route :
      {A B D : Type 0} (c : Request) (s : S)
      → authorization_of c.context.incoming ≡ ok (c.header (text "Authorization"))
      → (m : Text → Action S A) (f : A → B) (g : A → D)
      → Corresponds (with_result (bearer svc c) (λ token. respond (m token) 204 f) s) (
          checked
            (or_grpc_error (access_token_from_metadata unicode c.context))
            (λ token. serve (m token) g)
            s)
  unfolding access_token_from_metadata
  bearer_route {A} {B} c s same m f g =
      elim (Result-cases (parse_bearer_token unicode (c.header (text "Authorization")))) [
        | inl (token, p) ↦ rw (same, p) (respond-Corresponds (m token) 204 f g s)
        | inr (e, p) ↦ rw (same, p) (write_error-to_grpc_error B e, refl)
      ]

  -- The open routes and methods correspond in the same way: `Logout` and `LogoutAll` on the same
  -- `Authorization` value, `Authenticate` and `CreateUser` on bodies that gin has decoded.
  pub open_routes-Corresponds :
      (c : Request) (s : S) (bind_login : Request → Result AuthenticateBody)
      (bind_user : Request → Result CreateUserBody) (login : AuthenticateBody)
      (user : CreateUserBody)
      → authorization_of c.context.incoming ≡ ok (c.header (text "Authorization"))
      → bind_login c ≡ ok login
      → bind_user c ≡ ok user
      → Corresponds (logout svc c s) (logout_call svc c.context s)
        × Corresponds (logout_all svc c s) (logout_all_call svc c.context s)
        × Corresponds
            (authenticate svc bind_login c s)
            (authenticate_call svc (auth_request login) c.context s)
        × Corresponds
            (create_user svc bind_user c s)
            (create_user_call svc (create_user_request user) c.context s)
  unfolding logout_call logout_all_call authenticate_call create_user_call
      access_token_from_metadata
  open_routes-Corresponds c s bind_login bind_user login user same decoded_login decoded_user = (
    bearer_route c s same (storemesh_user_service.Service.Tokens.logout svc) (λ _. tt) (λ _. true),
    bearer_route c s same (storemesh_user_service.Service.Tokens.logout_all svc) (λ _. tt)
        (λ _. true),
    rw decoded_login (
        respond-Corresponds
          (storemesh_user_service.Service.Tokens.authenticate svc (auth_request login)) 200
          authentication_response (λ (u, pair). (to_proto u, pair)) s),
    rw decoded_user (
        respond-Corresponds
          (storemesh_user_service.Service.Users.create_user svc (create_user_request user)) 201
          to_user_response to_proto s),
  )
