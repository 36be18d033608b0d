-- ===== src/Repository/Users/Visible.antt =====
-- The rows that the reads of the repository return, and those that a deletion leaves visible.
use storemesh_user_service.Base.{
  ◌≡◌, sym, ap, subst, ◌∙◌, inl, inr, List, [], ◌∷◌, map, Bool, true, false, not, ◌&&◌, ◌||◌,
  fun_ext, arith, length, In, All,
}
use storemesh_user_service.Base.Int.{ℤ, pos}
use storemesh_user_service.Go.Text.{Text, text, ◌==◌}
use storemesh_user_service.Go.Text.Laws.{eq_iff}
use storemesh_user_service.Go.Action.{ok}
use storemesh_user_service.Go.Action.Laws.{Result-cases, Returns}
use storemesh_user_service.Domain.{
  User, ListUsersRequest, UserStatus, status_active, status_suspended, status_deleted,
}
use storemesh_user_service.Service.Users.{page_or_default, per_page_or_default}
use storemesh_user_service.Repository.Models.{UserModel, to_domain_user, parse_user_id, status_of}
use storemesh_user_service.Repository.Users.{
  UserClause, id_is, email_is, deleted_is, Users, get_by_id, get_by_email, list, status_clauses,
  offset_of,
}
use storemesh_user_service.Repository.Users.Selection.{All-map}
use storemesh_user_service.Repository.Users.Tables.{
  Tables, holds_all, select, preload, Loaded, UsersLaws,
}

-- The rows that a listing is for: not deleted, and of the status that is asked for, if one is.
abbrev pub is_asked : UserStatus → UserModel → Bool
is_asked status row = not row.deleted && (status == text "" || status_of row == status)

status_clauses-is_asked :
    (status : UserStatus) (cs : List UserClause) (row : UserModel)
    → status_clauses status ≡ ok cs
    → holds_all cs row ≡ is_asked status row
unfolding status_of
status_clauses-is_asked status cs row h = ground (
  arith,
  eq_iff status (text ""),
  eq_iff status status_active,
  eq_iff status status_suspended,
  eq_iff status_active status,
  eq_iff status_suspended status,
  eq_iff status_deleted status,
)

not_deleted :
    (status : UserStatus) (row : UserModel) → is_asked status row ≡ true → row.deleted ≡ false
not_deleted status row h = ground arith

module _ {S : Type 0} (r : Users S) where
  -- The user is the row, which is stored and not deleted, with the roles assigned to it.
  pub record Shows (t : Tables) (u : User) (row : UserModel) : Type 0 where
    pub stored : In row t.users
    pub live : row.deleted ≡ false
    pub shown : u ≡ to_domain_user r.uuids (preload t row)

  pub Shows-id :
      (t : Tables) (u : User) (row : UserModel) → Shows t u row → u.id ≡ r.uuids.to_string row.id
  unfolding to_domain_user
  Shows-id t u row sh = ap (λ (v : User). v.id) sh.shown

  module _ (laws : UsersLaws r) where
    Loaded-Shows :
        (t : Tables) (c : UserClause) (m : UserModel) (u : User)
        → (l : Loaded t (c ∷ deleted_is false ∷ []) m) → u ≡ to_domain_user r.uuids m
        → Shows t u l.row
    Loaded-Shows t c m u l e = record {
      stored = l.stored;
      live = ground (arith, l.selected);
      shown = e ∙ ap (to_domain_user r.uuids) l.loaded;
    }

    -- `GetByID` that succeeds returns the row of the UUID that the text parses to.
    pub get_by_id_ok :
        (id : Text) (s : S) (u : User) (s' : S)
        → Returns (get_by_id r id) s u s'
        → (row : UserModel) × (parse_user_id r.uuids id ≡ ok row.id)
          × Shows (laws.tables s) u row
          × (laws.tables s' ≡ laws.tables s)
    unfolding get_by_id
    get_by_id_ok id s u s' h = elim (Result-cases (parse_user_id r.uuids id)) [
      | inr (e, p) ↦ absurd (ground arith)
      | inl (parsed, p) ↦
          let cs = id_is parsed ∷ deleted_is false ∷ [] in
          elim (Result-cases (r.db.first_user cs s).0) [
            | inr (e, q) ↦ absurd (ground arith)
            | inl (m, q) ↦
                let l = laws.first_user_found cs s m q in
                let same : parsed ≡ l.row.id = ground (arith, l.selected) in
                let end : s' ≡ (r.db.first_user cs s).1 = ground arith in
                (
                  l.row,
                  p ∙ ap ok same,
                  Loaded-Shows (laws.tables s) (id_is parsed) m u l (ground arith),
                  ap laws.tables end ∙ laws.first_user_tables cs s,
                )
          ]
    ]

    pub get_by_email_ok :
        (email : Text) (s : S) (u : User) (s' : S)
        → Returns (get_by_email r email) s u s'
        → (row : UserModel) × (row.email ≡ email)
          × Shows (laws.tables s) u row
          × (laws.tables s' ≡ laws.tables s)
    unfolding get_by_email
    get_by_email_ok email s u s' h =
        let cs = email_is email ∷ deleted_is false ∷ [] in
        elim (Result-cases (r.db.first_user cs s).0) [
          | inr (e, q) ↦ absurd (ground arith)
          | inl (m, q) ↦
              let l = laws.first_user_found cs s m q in
              let end : s' ≡ (r.db.first_user cs s).1 = ground arith in
              (
                l.row,
                ground (arith, l.selected, eq_iff l.row.email email),
                Loaded-Shows (laws.tables s) (email_is email) m u l (ground arith),
                ap laws.tables end ∙ laws.first_user_tables cs s,
              )
        ]

    -- `List` that succeeds counts the rows that are not deleted and have the status asked for, if
    -- one is, and every user that it returns is such a row.
    pub list_ok :
        (req : ListUsersRequest) (s : S) (us : List User) (total : ℤ) (s' : S)
        → Returns (list r req) s (us, total) s'
        → (total ≡ pos (length (select (is_asked req.status) (laws.tables s).users)))
          × All
              (λ u.
                (row : UserModel) × Shows (laws.tables s) u row × (is_asked req.status row ≡ true))
              us
          × (laws.tables s' ≡ laws.tables s)
    unfolding list
    list_ok req s us total s' h = elim (Result-cases (status_clauses req.status)) [
      | inr (e, p) ↦ absurd (ground arith)
      | inl (cs, p) ↦
          let l = per_page_or_default req.per_page in
          let o = offset_of (page_or_default req.page) l in
          let s1 = (r.db.count_users cs s).1 in
          let asked = status_clauses-is_asked req.status cs in
          elim (Result-cases (r.db.count_users cs s).0) [
            | inr (e, q) ↦ absurd (ground arith)
            | inl (n, q) ↦ elim (Result-cases (r.db.find_users cs l o s1).0) [
              | inr (e, k) ↦ absurd (ground arith)
              | inl (rows, k) ↦
                  let same = laws.count_users_tables cs s in
                  let end : s' ≡ (r.db.find_users cs l o s1).1 = ground arith in
                  let rows_of : map (to_domain_user r.uuids) rows ≡ us = ground arith in
                  let counted : n ≡ total = ground arith in
                  (
                    sym counted
                        ∙ (laws.count_users_law cs s n q
                            ∙ ap (λ f. pos (length (select f (laws.tables s).users)))
                                (fun_ext (λ row. asked row p))),
                    subst (All _) rows_of (
                        All-map (Loaded (laws.tables s) cs) _ (to_domain_user r.uuids) rows
                          (λ m l. (
                            l.row,
                            record {
                              stored = l.stored;
                              live =
                                  not_deleted req.status l.row (sym (asked l.row p) ∙ l.selected);
                              shown = ap (to_domain_user r.uuids) l.loaded;
                            },
                            sym (asked l.row p) ∙ l.selected,
                          ))
                          (subst (λ t. All (Loaded t cs) rows) same
                            (laws.find_users_found cs l o s1 rows k))),
                    ap laws.tables end ∙ (laws.find_users_tables cs l o s1 ∙ same),
                  )
            ]
          ]
    ]
