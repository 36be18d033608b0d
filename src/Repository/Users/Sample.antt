-- ===== src/Repository/Users/Sample.antt =====
-- A database in memory that never fails, with two users and a role, for the tests. It meets the
-- hypotheses on the database.
use storemesh_user_service.Base.{
  ◌≡◌, refl, subst, List, [], ◌∷◌, Bool, true, false, not, ◌||◌, length, All, In, inl, inr, eqb,
  if◌then◌else◌,
}
use storemesh_user_service.Base.Int.{ℤ, pos}
use storemesh_user_service.Go.Text.{Text, text}
use storemesh_user_service.Go.Errors.{Error, is, other, record_not_found}
use storemesh_user_service.Go.Action.{Result, ok, err, Action}
use storemesh_user_service.Repository.Models.{Uuid, Uuids, UuidLaws, UserModel, RoleModel}
use storemesh_user_service.Repository.Users.{UserClause, RoleClause, Database, Users}
use storemesh_user_service.Repository.Users.Tables.{
  Tables, holds_all, role_holds_all, select, preload, update_rows, same_assignment, Loaded,
  Transacted, UsersLaws,
}
use storemesh_user_service.Repository.Users.Selection.{select-In}

abbrev parse : Text → Result Uuid
parse (c ∷ n ∷ []) =
    if eqb c b'u' || eqb c b'U' then ok n else err (other (text "invalid UUID format"))
parse t = err (other (text "invalid UUID length"))

-- A UUID is written as `u` and its number as a code point; `U` is read too.
abbrev pub short_uuids : Uuids Tables
short_uuids = record { parse = parse; to_string = λ id. b'u' ∷ id ∷ []; new = λ t. (7, t) }

pub short_uuids_laws : UuidLaws short_uuids
short_uuids_laws = record { parse_to_string = λ id. refl; to_string_given = λ id h. cc h }

abbrev pub first_of : {A : Type 0} → List A → Result A
first_of [] = err (is record_not_found)
first_of (x ∷ xs) = ok x

unfoldable pub loaded_rows : Tables → List UserModel → List UserModel
loaded_rows t [] = []
loaded_rows t (u ∷ us) = preload t u ∷ loaded_rows t us

abbrev pub in_transaction : {A : Type 0} → Result A × Tables → Tables → Result A × Tables
in_transaction (ok a, after) before = (ok a, after)
in_transaction (err e, after) before = (err e, before)

abbrev pub memory_db : Database Tables
memory_db = record {
  create_user = λ u t. (ok u, record t { users = u ∷ t.users });
  first_user = λ cs t. (first_of (loaded_rows t (select (holds_all cs) t.users)), t);
  count_users = λ cs t. (ok (pos (length (select (holds_all cs) t.users))), t);
  find_users = λ cs l o t. (ok (loaded_rows t (select (holds_all cs) t.users)), t);
  update_users = λ cs changes t. (
    ok (pos (length (select (holds_all cs) t.users))),
    record t { users = update_rows cs changes t.users },
  );
  first_role = λ cs t. (first_of (select (role_holds_all cs) t.roles), t);
  find_roles = λ cs t. (ok (select (role_holds_all cs) t.roles), t);
  replace_roles = λ u roles t. (ok tt, t);
  count_assignments = λ a t. (ok (pos (length (select (same_assignment a) t.assigned))), t);
  create_assignment = λ a t. (ok tt, record t { assigned = a ∷ t.assigned });
  delete_assignments = λ a t. (
    ok (pos (length (select (same_assignment a) t.assigned))),
    record t { assigned = select (λ b. not (same_assignment a b)) t.assigned },
  );
  transaction = λ body t. in_transaction (body t) t;
  transaction_ = λ body t. in_transaction (body t) t;
}

abbrev pub memory_users : Users Tables
memory_users = record { db = memory_db; uuids = short_uuids; now = λ t. (pos 100, t) }

pub rows_found :
    (t : Tables) (cs : List UserClause) (us : List UserModel)
    → All (λ u. In u t.users × (holds_all cs u ≡ true)) us
    → All (Loaded t cs) (loaded_rows t us)
unfolding loaded_rows
rows_found t cs [] h = _
rows_found t cs (u ∷ us) ((at, q), h) =
    (record { row = u; stored = at; selected = q; loaded = refl }, rows_found t cs us h)

pub selected_rows :
    (p : UserModel → Bool) (us vs : List UserModel)
    → ((u : UserModel) → In u vs → In u us × (p u ≡ true))
    → All (λ u. In u us × (p u ≡ true)) vs
selected_rows p us [] h = _
selected_rows p us (v ∷ vs) h = (h v (inl refl), selected_rows p us vs (λ u at. h u (inr at)))

pub found_rows :
    (t : Tables) (cs : List UserClause)
    → All (Loaded t cs) (loaded_rows t (select (holds_all cs) t.users))
found_rows t cs =
    rows_found t cs (select (holds_all cs) t.users)
      (selected_rows (holds_all cs) t.users _ (λ u at. select-In (holds_all cs) t.users u at))

pub first_Loaded :
    (t : Tables) (cs : List UserClause) (us : List UserModel) (u : UserModel)
    → All (Loaded t cs) us
    → first_of us ≡ ok u
    → Loaded t cs u
first_Loaded t cs [] u h e = absurd (cc e)
first_Loaded t cs (v ∷ us) u (l, h) e = let same : v ≡ u = cc e in subst (Loaded t cs) same l

pub first_missing :
    (t : Tables) (us : List UserModel) (e : Error) → first_of (loaded_rows t us) ≡ err e → us ≡ []
unfolding loaded_rows
first_missing t [] e h = refl
first_missing t (u ∷ us) e h = absurd (cc h)

pub first_role_In :
    (cs : List RoleClause) (roles selected : List RoleModel) (role : RoleModel)
    → ((m : RoleModel) → In m selected → In m roles × (role_holds_all cs m ≡ true))
    → first_of selected ≡ ok role
    → In role roles × (role_holds_all cs role ≡ true)
first_role_In cs roles [] role h e = absurd (cc e)
first_role_In cs roles (m ∷ selected) role h e =
    let same : m ≡ role = cc e in
    subst (λ x. In x roles × (role_holds_all cs x ≡ true)) same (h m (inl refl))

pub committed :
    (r : Result (Unit {0})) (after before : Tables) (a : Unit {0})
    → (in_transaction (r, after) before).0 ≡ ok a
    → (r ≡ ok a) × ((in_transaction (r, after) before).1 ≡ after)
committed (ok b) after before a h = (h, refl)
committed (err e) after before a h = absurd (cc h)

pub rolled_back :
    (r : Result (Unit {0})) (after before : Tables) (e : Error)
    → (in_transaction (r, after) before).0 ≡ err e
    → (in_transaction (r, after) before).1 ≡ before
rolled_back (ok b) after before e h = absurd (cc h)
rolled_back (err f) after before e h = refl

pub transaction-Transacted :
    (body : Action Tables (Unit {0})) (t : Tables)
    → Transacted (λ u. u) body t (in_transaction (body t) t).0 (in_transaction (body t) t).1
transaction-Transacted body t = record {
  begun = t;
  same = refl;
  committed = committed (body t).0 (body t).1 t;
  rolled_back = rolled_back (body t).0 (body t).1 t;
}

pub counted : (m n : ℤ) → ◌≡◌ {A = Result ℤ} (ok m) (ok n) → n ≡ m
counted m n h = cc h

unfoldable pub memory_users_laws : UsersLaws memory_users
memory_users_laws = record {
  tables = λ t. t;
  now_tables = λ t. refl;
  uuids = short_uuids_laws;
  first_user_tables = λ cs t. refl;
  first_user_found = λ cs t u h. first_Loaded t cs _ u (found_rows t cs) h;
  first_user_missing = λ cs t e h m. first_missing t _ e h;
  count_users_tables = λ cs t. refl;
  count_users_law = λ cs t n h. counted _ n h;
  find_users_tables = λ cs l o t. refl;
  find_users_found = λ cs l o t us h.
      let same : loaded_rows t (select (holds_all cs) t.users) ≡ us = cc h in
      subst (All (Loaded t cs)) same (found_rows t cs);
  update_users_law = λ cs changes t. record { done = λ a h. refl; failed = λ e h. absurd (cc h) };
  update_users_count = λ cs changes t n h. counted _ n h;
  first_role_tables = λ cs t. refl;
  first_role_found = λ cs t role h.
      first_role_In cs t.roles _ role (λ m at. select-In (role_holds_all cs) t.roles m at) h;
  count_assignments_tables = λ a t. refl;
  count_assignments_law = λ a t n h. counted _ n h;
  create_assignment_law = λ a t. record { done = λ v h. refl; failed = λ e h. absurd (cc h) };
  delete_assignments_law = λ a t. record { done = λ v h. refl; failed = λ e h. absurd (cc h) };
  delete_assignments_count = λ a t n h. counted _ n h;
  transaction_law = transaction-Transacted;
}

-- Two users, `uA` and `uB`, and two roles; `uA` is a seller.
abbrev pub row_a : UserModel
row_a = record {
  id = b'A';
  first_name = text "Ada";
  last_name = text "A";
  email = text "a@b.c";
  phone = text "";
  password = text "#pw";
  is_active = true;
  deleted = false;
  roles = [];
  created_at = pos 5;
  updated_at = pos 5;
}

abbrev pub row_b : UserModel
row_b = record row_a { id = b'B'; email = text "b@b.c" }

abbrev pub seller : RoleModel
seller = record {
  id = b'S';
  name = text "seller";
  description = text "";
  deleted = false;
  created_at = pos 1;
  updated_at = pos 1;
}

abbrev pub admin : RoleModel
admin = record seller { id = b'M'; name = text "admin" }

abbrev pub start : Tables
start = record {
  users = row_a ∷ row_b ∷ [];
  roles = admin ∷ seller ∷ [];
  assigned = record { user_id = b'A'; role_id = b'S' } ∷ [];
}
