-- ===== src/Service/Users/Roles.antt =====
-- `AssignRole`, `RevokeRole` and `DeleteUser`, and the sessions of the user.
use storemesh_user_service.Base.{◌≡◌, ◌≢◌, sym, ap, ◌∙◌, inl, inr, arith}
use storemesh_user_service.Go.Text.{Text, text, trim_space, to_lower}
use storemesh_user_service.Go.Text.Laws.{eq_iff}
use storemesh_user_service.Go.Errors.{Error}
use storemesh_user_service.Go.Action.{ok, err}
use storemesh_user_service.Go.Action.Laws.{Result-cases, Returns}
use storemesh_user_service.Domain.{User, TokenClaims, AuthSession, TokenType}
use storemesh_user_service.Domain.Contract.{SessionLaws, Sessions}
use storemesh_user_service.Service.{UserService, context}
use storemesh_user_service.Service.Contract.{Separate}
use storemesh_user_service.Service.Tokens.{validate_token_as}
use storemesh_user_service.Service.Tokens.Revocation.{rejected_of_no_sessions}
use storemesh_user_service.Service.Users.{assign_role, revoke_role, delete_user}

module _ {S : Type 0} (svc : UserService S) where
  -- The state after the user's sessions have been deleted.
  abbrev pub revoked : Text → S → S
  revoked id s = (svc.sessions.delete_all_for_user (trim_space id) s).1

  abbrev role_of : Text → Text
  role_of name = to_lower svc.platform.unicode (trim_space name)

  -- Where the ids and the role name are not blank and the sessions cannot be revoked, neither the
  -- roles nor the account change: `AssignRole`, `RevokeRole` and `DeleteUser` return that error in
  -- the state that the revocation left.
  pub revocation_first :
      (id name : Text) (s : S) (e : Error)
      → (svc.sessions.delete_all_for_user (trim_space id) s).0 ≡ err e
      → trim_space id ≢ text ""
      → role_of name ≢ text ""
      → (assign_role svc id name s
          ≡ (err (context (text "revoke user sessions: ") e), revoked id s))
        × (revoke_role svc id name s
            ≡ (err (context (text "revoke user sessions: ") e), revoked id s))
        × (delete_user svc id s ≡ (err (context (text "revoke user sessions: ") e), revoked id s))
  unfolding assign_role revoke_role delete_user
  revocation_first id name s e h p q =
      ground (arith, eq_iff (trim_space id) (text ""), eq_iff (role_of name) (text ""))

  module _ (laws : SessionLaws svc.sessions) (sep : Separate svc laws) where
    -- The operation ended in a state whose sessions are those after the user's were deleted.
    revoked-rejects :
        (id : Text) (s s' : S)
        → laws.Inv s
        → (svc.sessions.delete_all_for_user (trim_space id) s).0 ≡ ok tt
        → laws.live s' ≡ laws.live (revoked id s)
        → (s2 : S) → laws.live s2 ≡ laws.live s'
        → (token : Text) (expected : TokenType) (t : TokenClaims) (x : AuthSession)
        → t.user_id ≡ trim_space id
        → (validate_token_as svc token expected s2).0 ≢ ok (t, x)
    revoked-rejects id s s' i h same s2 live token expected t x user =
        rejected_of_no_sessions svc laws sep (trim_space id) token expected s2 t x
          (λ j y found.
            laws.delete_all_removes (trim_space id) s i h j y
              (ap (λ (m : Sessions). m j) (sym (live ∙ same)) ∙ found))
          user

    pub assign_role-live :
        (id name : Text) (s : S) (u : User) (s' : S)
        → Returns (assign_role svc id name) s u s'
        → ((svc.sessions.delete_all_for_user (trim_space id) s).0 ≡ ok tt)
          × (laws.live s' ≡ laws.live (revoked id s))
    unfolding assign_role
    assign_role-live id name s u s' h =
        let s1 = revoked id s in
        let k1 = (sep.assign_role (trim_space id) (role_of name) s1).live in
        let s2 = (svc.users.assign_role (trim_space id) (role_of name) s1).1 in
        let k2 = (sep.get_by_id (trim_space id) s2).live in
        elim (Result-cases (svc.sessions.delete_all_for_user (trim_space id) s).0) [
          | inr (e, p) ↦ ground arith
          | inl (w, p) ↦ (p, ground arith)
        ]

    revoke_role-live :
        (id name : Text) (s : S) (u : User) (s' : S)
        → Returns (revoke_role svc id name) s u s'
        → ((svc.sessions.delete_all_for_user (trim_space id) s).0 ≡ ok tt)
          × (laws.live s' ≡ laws.live (revoked id s))
    unfolding revoke_role
    revoke_role-live id name s u s' h =
        let s1 = revoked id s in
        let k1 = (sep.revoke_role (trim_space id) (role_of name) s1).live in
        let s2 = (svc.users.revoke_role (trim_space id) (role_of name) s1).1 in
        let k2 = (sep.get_by_id (trim_space id) s2).live in
        elim (Result-cases (svc.sessions.delete_all_for_user (trim_space id) s).0) [
          | inr (e, p) ↦ ground arith
          | inl (w, p) ↦ (p, ground arith)
        ]

    delete_user-live :
        (id : Text) (s s' : S)
        → Returns (delete_user svc id) s tt s'
        → ((svc.sessions.delete_all_for_user (trim_space id) s).0 ≡ ok tt)
          × (laws.live s' ≡ laws.live (revoked id s))
    unfolding delete_user
    delete_user-live id s s' h =
        let k = (sep.delete (trim_space id) (revoked id s)).live in
        elim (Result-cases (svc.sessions.delete_all_for_user (trim_space id) s).0) [
          | inr (e, p) ↦ ground arith
          | inl (w, p) ↦ (p, ground arith)
        ]

    -- After `AssignRole` succeeded, no token is accepted whose user id is the id given without
    -- surrounding space, in any state with the same stored sessions.
    pub assign_role_revokes :
        (id name : Text) (s : S) (u : User) (s' : S)
        → laws.Inv s
        → Returns (assign_role svc id name) s u s'
        → (s2 : S) → laws.live s2 ≡ laws.live s'
        → (token : Text) (expected : TokenType) (t : TokenClaims) (x : AuthSession)
        → t.user_id ≡ trim_space id
        → (validate_token_as svc token expected s2).0 ≢ ok (t, x)
    assign_role_revokes id name s u s' i h =
        let (done, same) = assign_role-live id name s u s' h in revoked-rejects id s s' i done same

    -- After `RevokeRole` succeeded, no token is accepted whose user id is the id given without
    -- surrounding space, in any state with the same stored sessions.
    pub revoke_role_revokes :
        (id name : Text) (s : S) (u : User) (s' : S)
        → laws.Inv s
        → Returns (revoke_role svc id name) s u s'
        → (s2 : S) → laws.live s2 ≡ laws.live s'
        → (token : Text) (expected : TokenType) (t : TokenClaims) (x : AuthSession)
        → t.user_id ≡ trim_space id
        → (validate_token_as svc token expected s2).0 ≢ ok (t, x)
    revoke_role_revokes id name s u s' i h =
        let (done, same) = revoke_role-live id name s u s' h in revoked-rejects id s s' i done same

    -- After `DeleteUser` succeeded, no token is accepted whose user id is the id given without
    -- surrounding space, in any state with the same stored sessions.
    pub delete_user_revokes :
        (id : Text) (s s' : S)
        → laws.Inv s
        → Returns (delete_user svc id) s tt s'
        → (s2 : S) → laws.live s2 ≡ laws.live s'
        → (token : Text) (expected : TokenType) (t : TokenClaims) (x : AuthSession)
        → t.user_id ≡ trim_space id
        → (validate_token_as svc token expected s2).0 ≢ ok (t, x)
    delete_user_revokes id s s' i h =
        let (done, same) = delete_user-live id s s' h in revoked-rejects id s s' i done same
