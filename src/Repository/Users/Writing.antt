-- ===== src/Repository/Users/Writing.antt =====
-- `Delete` and `Update`: what they do to the tables and what is visible afterwards.
use storemesh_user_service.Base.{
  ◌≡◌, ◌≢◌, sym, ap, subst, ◌∙◌, inl, inr, List, [], ◌∷◌, true, false, arith, In, Bool-cases,
}
use storemesh_user_service.Base.Int.{ℤ}
use storemesh_user_service.Go.Text.{Text}
use storemesh_user_service.Go.Action.{ok}
use storemesh_user_service.Go.Action.Laws.{Result-cases, Returns}
use storemesh_user_service.Go.Time.{Time}
use storemesh_user_service.Domain.{User, ListUsersRequest}
use storemesh_user_service.Repository.Models.{
  Uuid, UserModel, parse_user_id, to_user_model, to_domain_user, id_of, model_of,
}
use storemesh_user_service.Repository.Users.{
  UserClause, id_is, deleted_is, Change, set_active, set_deleted, set_updated_at, Users, get_by_id,
  get_by_email, list, delete, update, changes_of,
}
use storemesh_user_service.Repository.Users.Tables.{Tables, holds_all, update_rows, UsersLaws}
use storemesh_user_service.Repository.Users.Visible.{
  Shows, Shows-id, get_by_id_ok, get_by_email_ok, list_ok,
}
use storemesh_user_service.Repository.Users.Selection.{select_some, All-In}

abbrev clauses_of : Uuid → List UserClause
clauses_of id = id_is id ∷ deleted_is false ∷ []

abbrev deletion : Time → List Change
deletion now = set_deleted true ∷ set_active false ∷ set_updated_at now ∷ []

-- No row of the UUID that is not deleted is left.
no_live_row :
    (id : Uuid) (now : Time) (us : List UserModel) (row : UserModel)
    → In row (update_rows (clauses_of id) (deletion now) us)
    → row.deleted ≡ false
    → row.id ≢ id
unfolding update_rows
no_live_row id now [] row at live = absurd at
no_live_row id now (u ∷ us) row (inl e) live = elim (Bool-cases (holds_all (clauses_of id) u)) [
  | inl hit ↦ absurd (ground arith)
  | inr miss ↦ ground arith
]
no_live_row id now (u ∷ us) row (inr at) live = no_live_row id now us row at live

module _ {S : Type 0} (r : Users S) (laws : UsersLaws r) where
  -- A deletion that succeeded found a live row of the UUID and marked it deleted.
  pub record Deleted (id : Text) (s s' : S) : Type 0 where
    pub uuid : Uuid
    pub parsed : parse_user_id r.uuids id ≡ ok uuid
    pub row : UserModel
    pub stored : In row (laws.tables s).users
    pub live : row.deleted ≡ false
    pub same_id : row.id ≡ uuid
    pub now : Time
    pub marked : laws.tables s' ≡ record (laws.tables s) {
      users = update_rows (clauses_of uuid) (deletion now) (laws.tables s).users;
    }

  pub delete_ok : (id : Text) (s s' : S) → Returns (delete r id) s tt s' → Deleted id s s'
  unfolding delete
  delete_ok id s s' h = elim (Result-cases (parse_user_id r.uuids id)) [
    | inr (e, p) ↦ absurd (ground arith)
    | inl (uuid, p) ↦
        let now = (r.now s).0 in
        let s1 = (r.now s).1 in
        let cs = clauses_of uuid in
        let same = laws.now_tables s in
        elim (Result-cases (r.db.update_users cs (deletion now) s1).0) [
          | inr (e, q) ↦ absurd (ground arith)
          | inl (n, q) ↦
              let end : s' ≡ (r.db.update_users cs (deletion now) s1).1 = ground arith in
              let count = laws.update_users_count cs (deletion now) s1 n q in
              let some_row = select_some (holds_all cs) (laws.tables s1).users (ground arith) in
              let selected = some_row.2 in
              record {
                uuid = uuid;
                parsed = p;
                row = some_row.0;
                stored = subst (λ (t : Tables). In some_row.0 t.users) same some_row.1;
                live = ground arith;
                same_id = ground arith;
                now = now;
                marked =
                    ap laws.tables end
                    ∙ ((laws.update_users_law cs (deletion now) s1).done n q
                        ∙ ap
                            (λ (t : Tables). record t {
                              users = update_rows cs (deletion now) t.users;
                            })
                            same);
              }
        ]
  ]

  -- One of the reads of the repository returned the user in the state `s`.
  pub data Read (u : User) (s : S) : Type 0 where
    by_id : (id : Text) (s' : S) → Returns (get_by_id r id) s u s' → Read u s
    by_email : (email : Text) (s' : S) → Returns (get_by_email r email) s u s' → Read u s
    listed :
        (req : ListUsersRequest) (us : List User) (total : ℤ) (s' : S)
        → Returns (list r req) s (us, total) s'
        → In u us
        → Read u s

  Read-Shows : (u : User) (s : S) → Read u s → (row : UserModel) × Shows r (laws.tables s) u row
  Read-Shows u s (by_id id s' h) =
      let (row, p, shows, same) = get_by_id_ok r laws id s u s' h in (row, shows)
  Read-Shows u s (by_email email s' h) =
      let (row, p, shows, same) = get_by_email_ok r laws email s u s' h in (row, shows)
  Read-Shows u s (listed req us total s' h at) =
      let (count, shown, same) = list_ok r laws req s us total s' h in
      let (row, shows, asked) = All-In _ us u shown at in (row, shows)

  to_string_injective : (a b : Uuid) → r.uuids.to_string a ≡ r.uuids.to_string b → a ≡ b
  to_string_injective a b h =
      ground (arith, laws.uuids.parse_to_string a, laws.uuids.parse_to_string b, ap r.uuids.parse h)

  -- After a user was deleted, no read returns a user of that UUID, by whatever text, by email or in
  -- a list, in any state with the same tables.
  pub deleted_user_gone :
      (id : Text) (uuid : Uuid) (s s' : S)
      → Returns (delete r id) s tt s'
      → parse_user_id r.uuids id ≡ ok uuid
      → (s2 : S) → laws.tables s2 ≡ laws.tables s'
      → (u : User) → Read u s2
      → u.id ≢ r.uuids.to_string uuid
  deleted_user_gone id uuid s s' h p s2 same u read e =
      let d = delete_ok id s s' h in
      let (row, shows) = Read-Shows u s2 read in
      let one : d.uuid ≡ uuid = ground (arith, d.parsed) in
      let at = subst (λ (t : Tables). In row t.users) (same ∙ d.marked) shows.stored in
      no_live_row d.uuid d.now (laws.tables s).users row at shows.live (
        to_string_injective row.id d.uuid
          (sym (Shows-id r (laws.tables s2) u row shows) ∙ (e ∙ ap r.uuids.to_string (sym one))))

  -- `Update` that succeeded returns a user without roles, although it leaves every assignment of
  -- roles as it was.
  pub update_drops_roles :
      (user : User) (s : S) (u : User) (s' : S)
      → Returns (update r user) s u s'
      → (u.roles ≡ [])
        × ((laws.tables s').assigned ≡ (laws.tables s).assigned)
        × ((laws.tables s').roles ≡ (laws.tables s).roles)
  unfolding update to_user_model to_domain_user
  update_drops_roles user s u s' h = elim (Result-cases (id_of r.uuids user.id)) [
    | inr (e, p) ↦ absurd (ground arith)
    | inl (uuid, p) ↦
        let row = model_of r.uuids user uuid in
        let now = (r.now s).0 in
        let s1 = (r.now s).1 in
        let changes = changes_of r row now in
        let same = laws.now_tables s in
        elim (Result-cases (r.db.update_users (clauses_of uuid) changes s1).0) [
          | inr (e, q) ↦ absurd (ground arith)
          | inl (n, q) ↦
              let end : s' ≡ (r.db.update_users (clauses_of uuid) changes s1).1 = ground arith in
              let written = (laws.update_users_law (clauses_of uuid) changes s1).done n q in
              let after = ap laws.tables end ∙ written in
              (
                ground arith,
                ap (λ (t : Tables). t.assigned) after ∙ ap (λ (t : Tables). t.assigned) same,
                ap (λ (t : Tables). t.roles) after ∙ ap (λ (t : Tables). t.roles) same,
              )
        ]
  ]
