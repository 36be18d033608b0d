-- ===== src/Grpc/Errors.antt =====
-- `toGRPCError` of internal/server/grpc/user_server.go.
use storemesh_user_service.Base.{if◌then◌else◌}
use storemesh_user_service.Go.Errors.{
  Error, errors_is, message, err_not_found, err_already_exists, err_invalid_password,
  err_invalid_token, err_invalid_input, err_unauthorized, err_forbidden,
}
use storemesh_user_service.Grpc.{
  Code, not_found, already_exists, unauthenticated, permission_denied, invalid_argument, Status,
  internal_error,
}

abbrev pub status_error : Code → Error → Status
status_error c e = record { code = c; message = message e }

unfoldable pub to_grpc_error : Error → Status
to_grpc_error e =
    if errors_is e err_not_found
    then status_error not_found e
    else if errors_is e err_already_exists
    then status_error already_exists e
    else if errors_is e err_invalid_password
    then status_error unauthenticated e
    else if errors_is e err_invalid_token
    then status_error unauthenticated e
    else if errors_is e err_unauthorized
    then status_error unauthenticated e
    else if errors_is e err_forbidden
    then status_error permission_denied e
    else if errors_is e err_invalid_input
    then status_error invalid_argument e
    else internal_error
