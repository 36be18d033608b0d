-- ===== src/Service/Contract.antt =====
-- What the service's theorems rely on of its other packages: reading the clock, drawing a UUID,
-- parsing a token and the user repository leave the sessions alone, and a token's text fixes its
-- claims.
use storemesh_user_service.Base.{◌≡◌, some}
use storemesh_user_service.Go.Text.{Text}
use storemesh_user_service.Go.Action.{Result, ok, Action}
use storemesh_user_service.Domain.Contract.{SessionLaws}
use storemesh_user_service.Service.{UserService, JwtToken, ParserOptions}

-- The token text fixes the claims: two runs of the parser on it that return a token return the
-- same claims.
pub record JwtLaws {S : Type 0} (svc : UserService S) : Type 0 where
  pub parse_agrees :
      (token : Text) (key : Text → Result Text) (o : ParserOptions) (s s' : S) (t t' : JwtToken)
      → (svc.platform.jwt.parse_with_claims token key o s).0 ≡ ok (some t)
      → (svc.platform.jwt.parse_with_claims token key o s').0 ≡ ok (some t')
      → t.claims ≡ t'.claims

module _ {S : Type 0} (svc : UserService S) (laws : SessionLaws svc.sessions) where
  -- From `s` to `s'` the stored sessions are the same.
  pub record Keeps (s s' : S) : Type 0 where
    pub live : laws.live s' ≡ laws.live s
    pub inv : laws.Inv s → laws.Inv s'

  abbrev pub KeepsAll : {A : Type 0} → Action S A → Type 0
  KeepsAll m = (s : S) → Keeps s (m s).1

  pub record Separate : Type 0 where
    pub now : (s : S) → Keeps s (svc.platform.now s).1
    pub new_uuid : (s : S) → Keeps s (svc.platform.new_uuid s).1
    pub parse :
        (token : Text) (key : Text → Result Text) (o : ParserOptions)
        → KeepsAll (svc.platform.jwt.parse_with_claims token key o)
    pub get_by_id : (id : Text) → KeepsAll (svc.users.get_by_id id)
    pub get_by_email : (email : Text) → KeepsAll (svc.users.get_by_email email)
    pub assign_role : (id name : Text) → KeepsAll (svc.users.assign_role id name)
    pub revoke_role : (id name : Text) → KeepsAll (svc.users.revoke_role id name)
    pub delete : (id : Text) → KeepsAll (svc.users.delete id)
