-- ===== src/Domain/Ports.antt =====
-- The interfaces `UserRepository` and `AuthSessionStore` of internal/domain/user.go: operations on
-- a state `S`, which each implementation chooses. A method that writes through its `*User`
-- argument returns the user that it leaves there.
use storemesh_user_service.Base.{List}
use storemesh_user_service.Base.Int.{ℤ}
use storemesh_user_service.Go.Text.{Text}
use storemesh_user_service.Go.Action.{Action}
use storemesh_user_service.Go.Time.{Duration}
use storemesh_user_service.Domain.{User, Role, AuthSession, ListUsersRequest}

pub record UserRepository (S : Type 0) : Type 0 where
  pub create : User → Action S User
  pub get_by_id : Text → Action S User
  pub get_by_email : Text → Action S User
  pub update : User → Action S User
  pub delete : Text → Action S (Unit {0})
  pub list : ListUsersRequest → Action S (List User × ℤ)
  pub list_roles : Action S (List Role)
  pub assign_role : Text → Text → Action S (Unit {0})
  pub revoke_role : Text → Text → Action S (Unit {0})

pub record AuthSessionStore (S : Type 0) : Type 0 where
  pub create : AuthSession → Duration → Action S (Unit {0})
  pub get : Text → Action S AuthSession
  pub rotate : Text → Text → AuthSession → Duration → Action S (Unit {0})
  pub delete : Text → Action S (Unit {0})
  pub delete_all_for_user : Text → Action S (Unit {0})
