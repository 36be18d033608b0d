-- ===== src/Grpc/Server.antt =====
-- internal/server/grpc/user_server.go: the methods of `UserGRPCServer`. The messages of the
-- generated package are records with the fields that the methods read or set.
use storemesh_user_service.Base.{
  List, map, Bool, ◌||◌, ◌^◌, ◌-◌, some, if◌then◌else◌, [], ◌∷◌, true,
}
use storemesh_user_service.Base.Int.{ℤ, pos, negsuc, ltb_ℤ}
use storemesh_user_service.Go.Text.{Text, text, ◌==◌, Unicode}
use storemesh_user_service.Go.Action.{Result, ok, err, Action}
use storemesh_user_service.Domain.{
  User, Role, is_active, TokenPair, CreateUserRequest, AuthRequest, ListUsersRequest,
  ListUsersResponse, role_admin, TokenClaims,
}
use storemesh_user_service.Auth.{Context, require_claims, has_any_role, parse_bearer_token}
use storemesh_user_service.Service.{UserService}
use storemesh_user_service.Service.Tokens.{authenticate, refresh, logout, logout_all}
use storemesh_user_service.Service.Users.{
  Float64, create_user, get_user, delete_user, list_users, list_roles, get_user_roles, assign_role,
  revoke_role,
}
use storemesh_user_service.Grpc.{
  unauthenticated, permission_denied, internal, Status, Reply, reply, fail, Handler,
  authorization_of,
}
use storemesh_user_service.Grpc.Errors.{to_grpc_error}

-- The generated messages `User` and `ListUsersResponse`.
pub record UserMessage : Type 0 where
  pub id : Text
  pub email : Text
  pub first_name : Text
  pub last_name : Text
  pub phone : Text
  pub is_active : Bool
  pub roles : List Text

pub record PageMessage : Type 0 where
  pub users : List UserMessage
  pub total_items : ℤ
  pub total_pages : ℤ
  pub page : ℤ
  pub per_page : ℤ

-- `toProto`; the service returns no nil user without an error.
abbrev pub to_proto : User → UserMessage
to_proto user = record {
  id = user.id;
  email = user.email;
  first_name = user.first_name;
  last_name = user.last_name;
  phone = user.phone;
  is_active = is_active (some user);
  roles = map (λ (r : Role). r.name) user.roles;
}

abbrev pub max_int32 : ℤ
max_int32 = pos (2 ^ 31 - 1)

abbrev pub min_int32 : ℤ
min_int32 = negsuc (2 ^ 31 - 1)

-- A status error or a value.
pub data Checked (A : Type 0) : Type 0 where
  fine : A → Checked A
  bad : Status → Checked A

unfoldable pub int_to_int32 : ℤ → Checked ℤ
int_to_int32 value =
    if ltb_ℤ max_int32 value || ltb_ℤ value min_int32
    then bad (record { code = internal; message = text "pagination value exceeds protobuf range" })
    else fine value

abbrev pub authentication_required : Status
authentication_required = record {
  code = unauthenticated;
  message = text "authentication required";
}

abbrev pub forbidden : Status
forbidden = record { code = permission_denied; message = text "forbidden" }

-- `return nil, err` or the rest of the method.
abbrev pub checked : {S A B : Type 0} → Checked A → (A → S → Reply B × S) → S → Reply B × S
checked (fine a) f s = f a s
checked (bad e) f s = (fail e, s)

-- `if err != nil { return nil, toGRPCError(err) }`, and the response otherwise.
abbrev pub answered : {A B : Type 0} → (A → B) → Result A → Reply B
answered f (ok a) = reply (f a)
answered f (err e) = fail (to_grpc_error e)

abbrev pub serve : {S A B : Type 0} → Action S A → (A → B) → S → Reply B × S
serve m f s = (answered f (m s).0, (m s).1)

abbrev pub or_grpc_error : {A : Type 0} → Result A → Checked A
or_grpc_error (ok a) = fine a
or_grpc_error (err e) = bad (to_grpc_error e)

module _ (u : Unicode) where
  abbrev pub self_or_role : Text → List Text → Result TokenClaims → Checked (Unit {0})
  self_or_role requested roles (err e) = bad authentication_required
  self_or_role requested roles (ok claims) =
      if claims.user_id == requested
      then fine tt
      else if has_any_role u (some claims) roles
      then fine tt
      else bad forbidden

  unfoldable pub require_self_or_role : Context → Text → List Text → Checked (Unit {0})
  require_self_or_role ctx requested roles = self_or_role requested roles (require_claims ctx)

  abbrev pub with_role : List Text → Result TokenClaims → Checked (Unit {0})
  with_role roles (err e) = bad authentication_required
  with_role roles (ok claims) =
      if has_any_role u (some claims) roles then fine tt else bad forbidden

  unfoldable pub require_role : Context → List Text → Checked (Unit {0})
  require_role ctx roles = with_role roles (require_claims ctx)

  -- `ParseBearerToken` on the first value of the metadata.
  abbrev pub parsed_value : Result Text → Result Text
  parsed_value (ok v) = parse_bearer_token u v
  parsed_value (err e) = err e

  unfoldable pub access_token_from_metadata : Context → Result Text
  access_token_from_metadata ctx = parsed_value (authorization_of ctx.incoming)

-- The last steps of `ListUsers`.
abbrev pub page_message : {S : Type 0} → Result ListUsersResponse → S → Reply PageMessage × S
page_message (err e) s = (fail (to_grpc_error e), s)
page_message (ok r) s =
    checked (int_to_int32 r.total_pages)
      (λ total_pages. checked (int_to_int32 r.page) (λ page.
        checked (int_to_int32 r.per_page) (λ per_page s. (
          reply (record {
            users = map to_proto r.users;
            total_items = r.total_items;
            total_pages = total_pages;
            page = page;
            per_page = per_page;
          }),
          s,
        ))))
      s

module _ {S : Type 0} (svc : UserService S) where
  abbrev unicode : Unicode
  unicode = svc.platform.unicode

  unfoldable pub create_user_call : CreateUserRequest → Handler S UserMessage
  create_user_call req ctx = serve (create_user svc req) to_proto

  unfoldable pub get_user_call : Text → Handler S UserMessage
  get_user_call id ctx =
      checked (require_self_or_role unicode ctx id (text "admin" ∷ []))
        (λ _. serve (get_user svc id) to_proto)

  unfoldable pub list_users_call :
      {F : Type 0} → Float64 F → ListUsersRequest → Handler S PageMessage
  list_users_call float req ctx =
      checked (require_role unicode ctx (text "admin" ∷ []))
        (λ _ s. page_message (list_users svc float req s).0 (list_users svc float req s).1)

  unfoldable pub delete_user_call : Text → Handler S Bool
  delete_user_call id ctx =
      checked (require_self_or_role unicode ctx id (text "admin" ∷ []))
        (λ _. serve (delete_user svc id) (λ _. true))

  unfoldable pub authenticate_call : AuthRequest → Handler S (UserMessage × TokenPair)
  authenticate_call req ctx = serve (authenticate svc req) (λ (user, pair). (to_proto user, pair))

  unfoldable pub refresh_token_call : Text → Handler S (TokenPair × Text)
  refresh_token_call token ctx = serve (refresh svc token) (λ pair. (pair, text "Bearer"))

  unfoldable pub logout_call : Handler S Bool
  logout_call ctx =
      checked (or_grpc_error (access_token_from_metadata unicode ctx))
        (λ token. serve (logout svc token) (λ _. true))

  unfoldable pub logout_all_call : Handler S Bool
  logout_all_call ctx =
      checked (or_grpc_error (access_token_from_metadata unicode ctx))
        (λ token. serve (logout_all svc token) (λ _. true))

  unfoldable pub list_roles_call : Handler S (List Role)
  list_roles_call ctx =
      checked (require_role unicode ctx (role_admin ∷ [])) (λ _. serve (list_roles svc) (λ rs. rs))

  unfoldable pub get_user_roles_call : Text → Handler S (List Role)
  get_user_roles_call user_id ctx =
      checked (require_self_or_role unicode ctx user_id (role_admin ∷ []))
        (λ _. serve (get_user_roles svc user_id) (λ rs. rs))

  unfoldable pub assign_role_call : Text → Text → Handler S UserMessage
  assign_role_call user_id role ctx =
      checked (require_role unicode ctx (role_admin ∷ []))
        (λ _. serve (assign_role svc user_id role) to_proto)

  unfoldable pub revoke_role_call : Text → Text → Handler S UserMessage
  revoke_role_call user_id role ctx =
      checked (require_role unicode ctx (role_admin ∷ []))
        (λ _. serve (revoke_role svc user_id role) to_proto)
