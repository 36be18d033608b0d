-- ===== src/Http/Tests.antt =====
-- The HTTP checks at concrete inputs, in the world of Service.Sample.
use storemesh_user_service.Base.{◌≡◌, refl, [], ◌∷◌, false, none, some}
use storemesh_user_service.Go.Text.{Text, text, ◌==◌}
use storemesh_user_service.Go.Errors.{is, wrap, err_not_found}
use storemesh_user_service.Service.Sample.{World}
use storemesh_user_service.Grpc.{Status, Reply, reply, is_public, public_methods, refuse}
use storemesh_user_service.Grpc
use storemesh_user_service.Grpc.Errors.{to_grpc_error}
use storemesh_user_service.Http.{Request, value, Handler, write_error}
use storemesh_user_service.Http.Agreement.{http_code, status_of, write_error-to_grpc_error}

abbrev request : Request
request = record {
  context = record { claims = none; incoming = some (λ key. text "Bearer access1" ∷ []) };
  header = λ name. text "Bearer access1";
  param = λ name. text "u1";
}

abbrev page : Handler World Text
page c s = (value 200 (c.param (text "id")), s)

abbrev call : storemesh_user_service.Grpc.Handler World Text
call ctx s = (reply (text "done"), s)

abbrev missing : storemesh_user_service.Go.Errors.Error
missing = wrap (text "get user: ") (is err_not_found) (text "")

write_error-to_grpc_error_example :
    status_of (write_error {A = Text} missing) ≡ some (http_code (to_grpc_error missing).code)
write_error-to_grpc_error_example = write_error-to_grpc_error Text missing

is_private : is_public public_methods (text "/user.v1.UserService/GetUser") ≡ false
unfolding is_public ◌==◌
is_private = refl
