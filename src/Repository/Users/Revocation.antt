-- ===== src/Repository/Users/Revocation.antt =====
-- `AssignRole` and `DeleteUser` of the service with this repository, and the tokens of the user
-- whose UUID the id is, where the id is the text that the repository writes for it.
use storemesh_user_service.Base.{◌≡◌, ◌≢◌, ap, ◌∙◌, inl, inr, arith}
use storemesh_user_service.Go.Text.{Text, trim_space}
use storemesh_user_service.Go.Action.{ok}
use storemesh_user_service.Go.Action.Laws.{Result-cases, Returns}
use storemesh_user_service.Domain.{User, TokenClaims, AuthSession, TokenType}
use storemesh_user_service.Domain.Contract.{SessionLaws}
use storemesh_user_service.Service.{UserService}
use storemesh_user_service.Service.Contract.{Separate}
use storemesh_user_service.Service.Tokens.{validate_token_as}
use storemesh_user_service.Service.Users.{assign_role, delete_user}
use storemesh_user_service.Service.Users.Roles.{revoked, assign_role_revokes, delete_user_revokes}
use storemesh_user_service.Repository.Models.{Uuid, parse_user_id}
use storemesh_user_service.Repository.Users.{Users, delete, user_repository}
use storemesh_user_service.Repository.Users.Tables.{UsersLaws}
use storemesh_user_service.Repository.Users.Visible.{Shows-id, get_by_id_ok}
use storemesh_user_service.Repository.Users.Writing.{Read, deleted_user_gone}
use storemesh_user_service.Repository.Users.Identity.{with_repository, assign_role_reads}

module _ {S : Type 0} (svc : UserService S) (r : Users S) where
  delete_user_deletes :
      (id : Text) (s s' : S)
      → Returns (delete_user (with_repository svc r) id) s tt s'
      → Returns (delete r (trim_space id)) (revoked (with_repository svc r) id s) tt s'
  unfolding delete_user user_repository
  delete_user_deletes id s s' h =
      elim (Result-cases (svc.sessions.delete_all_for_user (trim_space id) s).0) [
        | inr (e, p) ↦ absurd (ground arith)
        | inl (w, p) ↦ ground arith
      ]

  module _ (users : UsersLaws r) where
    -- The user that `AssignRole` returns has the UUID of the id given.
    pub assign_role-id :
        (id name : Text) (uuid : Uuid) (s : S) (u : User) (s' : S)
        → parse_user_id r.uuids (trim_space id) ≡ ok uuid
        → Returns (assign_role (with_repository svc r) id name) s u s'
        → u.id ≡ r.uuids.to_string uuid
    assign_role-id id name uuid s u s' p h =
        let (at, changed, read) = assign_role_reads svc r id name s u s' h in
        let (row, parsed, shows, same) = get_by_id_ok r users (trim_space id) at u s' read in
        let row_is : row.id ≡ uuid = ground arith in
        Shows-id r _ u row shows ∙ ap r.uuids.to_string row_is

    module _ (laws : SessionLaws svc.sessions) (sep : Separate (with_repository svc r) laws) where
      -- Where the id without surrounding space is the text that the repository writes for its UUID,
      -- and the session store is consistent, after `AssignRole` succeeded no token whose user is
      -- the one returned is accepted, in any state with the same stored sessions.
      pub assigned_user_revoked :
          (id name : Text) (uuid : Uuid) (s : S) (u : User) (s' : S)
          → laws.Inv s
          → parse_user_id r.uuids (trim_space id) ≡ ok uuid
          → r.uuids.to_string uuid ≡ trim_space id
          → Returns (assign_role (with_repository svc r) id name) s u s'
          → (s2 : S) → laws.live s2 ≡ laws.live s'
          → (token : Text) (expected : TokenType) (t : TokenClaims) (x : AuthSession)
          → t.user_id ≡ u.id
          → (validate_token_as (with_repository svc r) token expected s2).0 ≢ ok (t, x)
      assigned_user_revoked id name uuid s u s' i p own h s2 live token expected t x user =
          assign_role_revokes (with_repository svc r) laws sep id name s u s' i h s2 live token
            expected t x (user ∙ (assign_role-id id name uuid s u s' p h ∙ own))

      -- Where the id without surrounding space is the text that the repository writes for its UUID,
      -- and the session store is consistent, after `DeleteUser` succeeded, in any state with the
      -- same stored sessions and the same tables, no token of that user is accepted, and no read by
      -- id, by email or of a page returns the user.
      pub deleted_user_revoked :
          (id : Text) (uuid : Uuid) (s s' : S)
          → laws.Inv s
          → parse_user_id r.uuids (trim_space id) ≡ ok uuid
          → r.uuids.to_string uuid ≡ trim_space id
          → Returns (delete_user (with_repository svc r) id) s tt s'
          → (s2 : S) → laws.live s2 ≡ laws.live s'
          → users.tables s2 ≡ users.tables s'
          → (token : Text) (expected : TokenType) (t : TokenClaims) (x : AuthSession)
          → t.user_id ≡ r.uuids.to_string uuid
          → (u : User)
          → ((validate_token_as (with_repository svc r) token expected s2).0 ≢ ok (t, x))
            × (¬ (Read r users u s2 × (u.id ≡ r.uuids.to_string uuid)))
      deleted_user_revoked id uuid s s' i p own h s2 live same token expected t x user u = (
        delete_user_revokes (with_repository svc r) laws sep id s s' i h s2 live token expected t x
            (user ∙ own),
        λ q.
            deleted_user_gone r users (trim_space id) uuid _ s' (delete_user_deletes id s s' h) p s2
              same u q.0 q.1,
      )
