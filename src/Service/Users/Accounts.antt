-- ===== src/Service/Users/Accounts.antt =====
-- `CreateUser`, `UpdateUser` and `normalizeEmail`.
use storemesh_user_service.Base.{
  ◌+◌, ◌≡◌, ◌↔◌, ◌≢◌, ◌≤◌, ◌⊎◌, refl, inl, inr, [], ◌∷◌, arith, length, All,
}
use storemesh_user_service.Base.Int.{pos}
use storemesh_user_service.Go.Text.{Text, text, len, trim_space, to_lower, Unicode}
use storemesh_user_service.Go.Text.Laws.{eq_iff, UnicodeLaws, lower_trim_idem}
use storemesh_user_service.Go.Errors.{Error}
use storemesh_user_service.Go.Action.{ok, err}
use storemesh_user_service.Go.Action.Laws.{Result-cases, Returns}
use storemesh_user_service.Domain.{User, CreateUserRequest, UpdateUserRequest}
use storemesh_user_service.Service.{UserService, normalize_email, context}
use storemesh_user_service.Service.Users.{create_user, update_user, new_user, or_kept}

-- Normalising an email twice changes nothing more.
pub normalize_email_idem :
    (u : Unicode)
    → UnicodeLaws u
    → (email : Text) → normalize_email u (normalize_email u email) ≡ normalize_email u email
unfolding normalize_email
normalize_email_idem u l email = lower_trim_idem u l email

module _ {S : Type 0} (svc : UserService S) where
  -- The repository has stored a new user without an id: the email trimmed and in lower case, the
  -- hash of the password, trimmed names and phone, active, and with the role `customer` alone.
  pub record Created (req : CreateUserRequest) (s : S) (u : User) (s' : S) : Type 0 where
    pub email_given : to_lower svc.platform.unicode (trim_space req.email) ≢ text ""
    pub long_enough : 8 ≤ len req.password
    pub hash : Text
    pub hashed : (svc.platform.generate_from_password req.password s).0 ≡ ok hash
    pub stored :
        svc.users.create
          (record {
            id = text "";
            email = to_lower svc.platform.unicode (trim_space req.email);
            password_hash = hash;
            first_name = trim_space req.first_name;
            last_name = trim_space req.last_name;
            phone = trim_space req.phone;
            status = text "active";
            roles = record { id = text ""; name = text "customer"; description = text "" } ∷ [];
            created_at = pos 0;
            updated_at = pos 0;
          })
          (svc.platform.generate_from_password req.password s).1
        ≡ (ok u, s')

  -- `CreateUser` succeeds exactly when the email is not empty once it is trimmed and in lower case,
  -- the password has at least eight bytes, it can be hashed, and the repository stores the new user:
  -- without an id, active, with the role `customer` alone, that email, the hash, trimmed names and a
  -- trimmed phone.
  pub create_user_iff :
      (req : CreateUserRequest) (s : S) (u : User) (s' : S)
      → (create_user svc req s ≡ (ok u, s')) ↔ Created req s u s'
  unfolding create_user normalize_email
  create_user_iff req s u s' =
      let email = normalize_email svc.platform.unicode req.email in
      (
        λ h. elim (Result-cases (svc.platform.generate_from_password req.password s).0) [
          | inr (e, p) ↦ ground arith
          | inl (hash, p) ↦ record {
            email_given = ground (arith, eq_iff email (text ""));
            long_enough = ground arith;
            hash = hash;
            hashed = p;
            stored = ground arith;
          }
        ],
        λ c.
            ground
              (arith, eq_iff email (text ""), c.email_given, c.long_enough, c.hashed, c.stored),
      )

  -- The change of `UpdateUser` to the stored user: a field that is blank in the request keeps its
  -- value, and nothing but the names and the phone changes.
  pub record Updated (req : UpdateUserRequest) (s : S) (u : User) (s' : S) : Type 0 where
    pub id_given : trim_space req.id ≢ text ""
    pub before : User
    pub found : (svc.users.get_by_id (trim_space req.id) s).0 ≡ ok before
    pub after : User
    pub kept :
        (after.id ≡ before.id)
        × (after.email ≡ before.email)
        × (after.password_hash ≡ before.password_hash)
        × (after.status ≡ before.status)
        × (after.roles ≡ before.roles)
        × (after.created_at ≡ before.created_at)
    pub first_name : after.first_name ≡ or_kept (trim_space req.first_name) before.first_name
    pub last_name : after.last_name ≡ or_kept (trim_space req.last_name) before.last_name
    pub phone : after.phone ≡ or_kept (trim_space req.phone) before.phone
    pub stored : svc.users.update after (svc.users.get_by_id (trim_space req.id) s).1 ≡ (ok u, s')

  -- `UpdateUser` that succeeds has read the user of the trimmed id and handed the repository that
  -- user with the names and the phone of the request where these are not blank, and its id, email,
  -- password hash, status, roles and creation time as they were.
  pub update_user_ok :
      (req : UpdateUserRequest) (s : S) (u : User) (s' : S)
      → Returns (update_user svc req) s u s'
      → Updated req s u s'
  unfolding update_user
  update_user_ok req s u s' h = elim (Result-cases (svc.users.get_by_id (trim_space req.id) s).0) [
    | inr (e, p) ↦ ground arith
    | inl (b, p) ↦ record {
      id_given = ground (arith, eq_iff (trim_space req.id) (text ""));
      before = b;
      found = p;
      after = record b {
        first_name = or_kept (trim_space req.first_name) b.first_name;
        last_name = or_kept (trim_space req.last_name) b.last_name;
        phone = or_kept (trim_space req.phone) b.phone;
      };
      kept = (refl, refl, refl, refl, refl, refl);
      first_name = refl;
      last_name = refl;
      phone = refl;
      stored = ground (arith, eq_iff (trim_space req.id) (text ""));
    }
  ]

len-two_bytes : (p : Text) → All (λ c. 0x80 ≤ c) p → length p + length p ≤ len p
unfolding len
len-two_bytes [] h = omega arith
len-two_bytes (c ∷ p) h = ground (arith, len-two_bytes p h.1)

-- The limit on passwords counts bytes, not characters: for an email that is not empty and a password
-- of at least four characters, all outside ASCII, `CreateUser` hashes the password, and then returns
-- what the repository's `Create` does for the new user with that hash, or the error of the hashing.
pub create_user_four_characters :
    {S : Type 0} (svc : UserService S) (req : CreateUserRequest) (s : S)
    → normalize_email svc.platform.unicode req.email ≢ text ""
    → All (λ c. 0x80 ≤ c) req.password
    → 4 ≤ length req.password
    → let hashing = svc.platform.generate_from_password req.password s in
      ((hash : Text) × (hashing.0 ≡ ok hash)
        × (create_user svc req s
            ≡ svc.users.create
                (new_user svc (normalize_email svc.platform.unicode req.email) hash req)
                hashing.1))
      ⊎ ((e : Error) × (hashing.0 ≡ err e)
          × (create_user svc req s ≡ (err (context (text "hash password: ") e), hashing.1)))
unfolding create_user
create_user_four_characters svc req s given high four =
    let hashing = svc.platform.generate_from_password req.password s in
    let enough = len-two_bytes req.password high in
    let email = eq_iff (normalize_email svc.platform.unicode req.email) (text "") in
    elim (Result-cases hashing.0) [
      | inl (hash, p) ↦ inl (hash, p, ground (arith, email, enough))
      | inr (e, p) ↦ inr (e, p, ground (arith, email, enough))
    ]
