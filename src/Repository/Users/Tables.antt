-- ===== src/Repository/Users/Tables.antt =====
-- What gorm and SQL document of the statements of the user repository, on three tables: the
-- hypotheses on the database.
use storemesh_user_service.Base.{
  ◌≡◌, List, [], ◌∷◌, Bool, true, false, not, ◌&&◌, length, eqb, any, In, All, if◌then◌else◌,
}
use storemesh_user_service.Base.Int.{ℤ, pos}
use storemesh_user_service.Go.Text.{◌==◌}
use storemesh_user_service.Go.Errors.{Error, errors_is, record_not_found}
use storemesh_user_service.Go.Action.{Result, ok, err, Action}
use storemesh_user_service.Repository.Models.{UuidLaws, UserModel, RoleModel, UserRole}
use storemesh_user_service.Repository.Users.{
  UserClause, id_is, email_is, deleted_is, active_is, RoleClause, name_is, name_in, role_deleted_is,
  Change, set_first_name, set_last_name, set_email, set_phone, set_password, set_active,
  set_deleted, set_updated_at, Users,
}

pub record Tables : Type 0 where
  pub users : List UserModel
  pub roles : List RoleModel
  pub assigned : List UserRole

abbrev pub same_bool : Bool → Bool → Bool
same_bool true b = b
same_bool false b = not b

abbrev pub holds : UserClause → UserModel → Bool
holds (id_is id) u = eqb u.id id
holds (email_is email) u = u.email == email
holds (deleted_is b) u = same_bool u.deleted b
holds (active_is b) u = same_bool u.is_active b

abbrev pub holds_all : List UserClause → UserModel → Bool
holds_all [] u = true
holds_all (c ∷ cs) u = holds c u && holds_all cs u

abbrev pub role_holds : RoleClause → RoleModel → Bool
role_holds (name_is name) r = r.name == name
role_holds (name_in names) r = any (λ n. r.name == n) names
role_holds (role_deleted_is b) r = same_bool r.deleted b

abbrev pub role_holds_all : List RoleClause → RoleModel → Bool
role_holds_all [] r = true
role_holds_all (c ∷ cs) r = role_holds c r && role_holds_all cs r

abbrev pub same_assignment : UserRole → UserRole → Bool
same_assignment a b = eqb a.user_id b.user_id && eqb a.role_id b.role_id

abbrev pub is_assigned : UserRole → Tables → Bool
is_assigned a t = any (same_assignment a) t.assigned

unfoldable pub select {ℓ} : {A : Type ℓ} → (A → Bool) → List A → List A
select p [] = []
select p (x ∷ xs) = if p x then x ∷ select p xs else select p xs

-- `Preload("Roles", "deleted = ?", false)`.
abbrev pub preload : Tables → UserModel → UserModel
preload t u = record u {
  roles =
      select (λ r. is_assigned (record { user_id = u.id; role_id = r.id }) t && not r.deleted)
        t.roles;
}

abbrev pub change : Change → UserModel → UserModel
change (set_first_name v) u = record u { first_name = v }
change (set_last_name v) u = record u { last_name = v }
change (set_email v) u = record u { email = v }
change (set_phone v) u = record u { phone = v }
change (set_password v) u = record u { password = v }
change (set_active v) u = record u { is_active = v }
change (set_deleted v) u = record u { deleted = v }
change (set_updated_at v) u = record u { updated_at = v }

abbrev pub change_all : List Change → UserModel → UserModel
change_all [] u = u
change_all (c ∷ cs) u = change_all cs (change c u)

unfoldable pub update_rows : List UserClause → List Change → List UserModel → List UserModel
update_rows cs changes [] = []
update_rows cs changes (u ∷ us) =
    (if holds_all cs u then change_all changes u else u) ∷ update_rows cs changes us

-- A statement that writes: it turns the tables into `after`, or it fails and changes nothing.
pub record Writes {A : Type 0} (before after end : Tables) (r : Result A) : Type 0 where
  pub done : (a : A) → r ≡ ok a → end ≡ after
  pub failed : (e : Error) → r ≡ err e → end ≡ before

-- A row that a query of users returns.
pub record Loaded (t : Tables) (cs : List UserClause) (u : UserModel) : Type 0 where
  pub row : UserModel
  pub stored : In row t.users
  pub selected : holds_all cs row ≡ true
  pub loaded : u ≡ preload t row

-- A transaction runs the function on the same tables; it commits if the function succeeds, and
-- leaves the tables as they were if the function or the commit fails.
pub record Transacted {S A : Type 0} (tables : S → Tables) (body : Action S A) (s : S)
    (r : Result A) (s' : S) : Type 0 where
  pub begun : S
  pub same : tables begun ≡ tables s
  pub committed : (a : A) → r ≡ ok a → ((body begun).0 ≡ ok a) × (tables s' ≡ tables (body begun).1)
  pub rolled_back : (e : Error) → r ≡ err e → tables s' ≡ tables s

pub record UsersLaws {S : Type 0} (r : Users S) : Type 0 where
  pub tables : S → Tables
  pub now_tables : (s : S) → tables (r.now s).1 ≡ tables s
  pub uuids : UuidLaws r.uuids
  pub first_user_tables :
      (cs : List UserClause) (s : S) → tables (r.db.first_user cs s).1 ≡ tables s
  pub first_user_found :
      (cs : List UserClause) (s : S) (u : UserModel)
      → (r.db.first_user cs s).0 ≡ ok u
      → Loaded (tables s) cs u
  pub first_user_missing :
      (cs : List UserClause) (s : S) (e : Error)
      → (r.db.first_user cs s).0 ≡ err e
      → errors_is e record_not_found ≡ true
      → select (holds_all cs) (tables s).users ≡ []
  pub count_users_tables :
      (cs : List UserClause) (s : S) → tables (r.db.count_users cs s).1 ≡ tables s
  pub count_users_law :
      (cs : List UserClause) (s : S) (n : ℤ)
      → (r.db.count_users cs s).0 ≡ ok n
      → n ≡ pos (length (select (holds_all cs) (tables s).users))
  pub find_users_tables :
      (cs : List UserClause) (l o : ℤ) (s : S) → tables (r.db.find_users cs l o s).1 ≡ tables s
  pub find_users_found :
      (cs : List UserClause) (l o : ℤ) (s : S) (us : List UserModel)
      → (r.db.find_users cs l o s).0 ≡ ok us
      → All (Loaded (tables s) cs) us
  pub update_users_law :
      (cs : List UserClause) (changes : List Change) (s : S)
      → Writes
          (tables s)
          (record (tables s) { users = update_rows cs changes (tables s).users })
          (tables (r.db.update_users cs changes s).1)
          (r.db.update_users cs changes s).0
  pub update_users_count :
      (cs : List UserClause) (changes : List Change) (s : S) (n : ℤ)
      → (r.db.update_users cs changes s).0 ≡ ok n
      → n ≡ pos (length (select (holds_all cs) (tables s).users))
  pub first_role_tables :
      (cs : List RoleClause) (s : S) → tables (r.db.first_role cs s).1 ≡ tables s
  pub first_role_found :
      (cs : List RoleClause) (s : S) (role : RoleModel)
      → (r.db.first_role cs s).0 ≡ ok role
      → In role (tables s).roles × (role_holds_all cs role ≡ true)
  pub count_assignments_tables :
      (a : UserRole) (s : S) → tables (r.db.count_assignments a s).1 ≡ tables s
  pub count_assignments_law :
      (a : UserRole) (s : S) (n : ℤ)
      → (r.db.count_assignments a s).0 ≡ ok n
      → n ≡ pos (length (select (same_assignment a) (tables s).assigned))
  pub create_assignment_law :
      (a : UserRole) (s : S)
      → Writes
          (tables s)
          (record (tables s) { assigned = a ∷ (tables s).assigned })
          (tables (r.db.create_assignment a s).1)
          (r.db.create_assignment a s).0
  pub delete_assignments_law :
      (a : UserRole) (s : S)
      → Writes
          (tables s)
          (record (tables s) {
            assigned = select (λ b. not (same_assignment a b)) (tables s).assigned;
          })
          (tables (r.db.delete_assignments a s).1)
          (r.db.delete_assignments a s).0
  pub delete_assignments_count :
      (a : UserRole) (s : S) (n : ℤ)
      → (r.db.delete_assignments a s).0 ≡ ok n
      → n ≡ pos (length (select (same_assignment a) (tables s).assigned))
  pub transaction_law :
      (body : Action S (Unit {0})) (s : S)
      → Transacted tables body s (r.db.transaction_ body s).0 (r.db.transaction_ body s).1
