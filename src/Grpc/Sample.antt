-- ===== src/Grpc/Sample.antt =====
-- Contexts of calls and a handler, for the tests.
use storemesh_user_service.Base.{◌≡◌, refl, [], ◌∷◌, false, none, some}
use storemesh_user_service.Base.Int.{pos}
use storemesh_user_service.Go.Text.{Text, text, ◌==◌, Unicode}
use storemesh_user_service.Domain.{TokenClaims, role_admin}
use storemesh_user_service.Auth.{Context}
use storemesh_user_service.Service.Sample.{World, sample_service, sample_claims}
use storemesh_user_service.Service.Tokens.{claims_of}
use storemesh_user_service.Grpc.{reply, Handler, is_public, public_methods}

abbrev pub unicode : Unicode
unicode = sample_service.platform.unicode

-- A call with one value of `authorization`, and one with claims.
abbrev pub call_with : Text → Context
call_with v = record { claims = none; incoming = some (λ key. v ∷ []) }

abbrev pub access_claims : TokenClaims
access_claims = claims_of (sample_claims (text "access") (text "a1")) (pos 900)

abbrev pub caller : TokenClaims → Context
caller claims = record { claims = some claims; incoming = none }

abbrev pub admin_claims : TokenClaims
admin_claims = record access_claims { roles = role_admin ∷ [] }

abbrev pub show_caller : Handler World (Context)
show_caller ctx s = (reply ctx, s)

abbrev pub get_user_method : Text
get_user_method = text "/user.v1.UserService/GetUser"

pub is_private : is_public public_methods get_user_method ≡ false
unfolding is_public ◌==◌
is_private = refl
