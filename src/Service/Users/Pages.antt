-- ===== src/Service/Users/Pages.antt =====
-- `ListUsers`: the page, its size and the number of pages.
use storemesh_user_service.Base.{
  ℕ, ◌≡◌, ◌⊎◌, ◌≤◌, ◌<◌, ◌+◌, ◌-◌, ◌*◌, ◌/◌, ◌^◌, refl, ap, subst, ◌∙◌, arith,
}
use storemesh_user_service.Base.Int.{ℤ, pos, negsuc, ◌≤ℤ◌}
use storemesh_user_service.Go.Action.{ok, pure}
use storemesh_user_service.Go.Action.Laws.{bind_ok, Returns}
use storemesh_user_service.Domain.{ListUsersRequest, ListUsersResponse}
use storemesh_user_service.Service.{UserService}
use storemesh_user_service.Service.Users.{
  Float64, list_users, page_or_default, per_page_or_default, listing,
}

-- `float64` division rounds to nearest, so up to 2 ^ 53 the quotient by a page size of at most 100
-- does not cross an integer and its ceiling is exact.
pub record FloatLaws {F : Type 0} (f : Float64 F) : Type 0 where
  pub ceil_exact :
      (a b : ℕ)
      → a ≤ 2 ^ 53
      → 1 ≤ b
      → b ≤ 100
      → f.to_int (f.ceil (f.divide (f.of_int (pos a)) (f.of_int (pos b)))) ≡ pos ((a + b - 1) / b)

-- The page that was listed: its number is at least 1, its size between 1 and 100, and both are
-- those of the request where these are in range, and otherwise 1 and 20.
pub record IsPaged (req : ListUsersRequest) (page per_page : ℤ) : Type 0 where
  pub page_positive : pos 1 ≤ℤ page
  pub per_page_positive : pos 1 ≤ℤ per_page
  pub per_page_small : per_page ≤ℤ pos 100
  pub page_kept : pos 1 ≤ℤ req.page → page ≡ req.page
  pub page_default : req.page ≤ℤ pos 0 → page ≡ pos 1
  pub per_page_default : (req.per_page ≤ℤ pos 0) ⊎ (pos 101 ≤ℤ req.per_page) → per_page ≡ pos 20
  pub per_page_kept : pos 1 ≤ℤ req.per_page → req.per_page ≤ℤ pos 100 → per_page ≡ req.per_page

pub defaults-IsPaged :
    (req : ListUsersRequest)
    → IsPaged req (page_or_default req.page) (per_page_or_default req.per_page)
defaults-IsPaged req = record {
  page_positive = ground arith;
  per_page_positive = ground arith;
  per_page_small = ground arith;
  page_kept = λ h. ground arith;
  page_default = λ h. ground arith;
  per_page_default = λ h. ground arith;
  per_page_kept = λ h k. ground arith;
}

ceil_bounds : (a b : ℕ) → 1 ≤ b → (a ≤ ((a + b - 1) / b) * b) × (((a + b - 1) / b) * b < a + b)
ceil_bounds a b h = grind arith

positive_part : (z : ℤ) → pos 1 ≤ℤ z → z ≤ℤ pos 100 → (n : ℕ) × (z ≡ pos n) × (1 ≤ n) × (n ≤ 100)
positive_part (pos n) h k = (n, refl, omega arith, omega arith)
positive_part (negsuc n) h k = absurd (omega arith)

module _ {S F : Type 0} (svc : UserService S) (float : Float64 F) where
  -- A listing that succeeded is the repository's for the page and size that it reports, and these
  -- are in range.
  pub list_users_ok :
      (req : ListUsersRequest) (s : S) (r : ListUsersResponse) (s' : S)
      → Returns (list_users svc float req) s r s'
      → IsPaged req r.page r.per_page
        × (svc.users.list (record { status = req.status; page = r.page; per_page = r.per_page }) s
            ≡ (ok (r.users, r.total_items), s'))
        × (r.total_pages
            ≡ float.to_int
                (float.ceil (float.divide (float.of_int r.total_items) (float.of_int r.per_page))))
  unfolding list_users
  list_users_ok req s r s' h =
      let page = page_or_default req.page in
      let per_page = per_page_or_default req.per_page in
      let asked : ListUsersRequest = record {
        status = req.status;
        page = page;
        per_page = per_page;
      } in
      let ((users, total), found, answered) =
        bind_ok (svc.users.list asked) (λ answer. pure (listing float page per_page answer)) s r s'
          h in
      let same : listing float page per_page (users, total) ≡ r = cc answered in
      let state : (svc.users.list asked s).1 ≡ s' = ap (λ q. q.1) answered in
      subst
        (λ r.
          IsPaged req r.page r.per_page
          × (svc.users.list (record { status = req.status; page = r.page; per_page = r.per_page }) s
              ≡ (ok (r.users, r.total_items), s'))
          × (r.total_pages
              ≡ float.to_int (
                  float.ceil
                    (float.divide (float.of_int r.total_items) (float.of_int r.per_page)))))
        same (defaults-IsPaged req, (λ i. (found i, state i)), refl)

  -- `ListUsers` that succeeds lists the page and size that it reports, which are those asked for
  -- where they are in range, and otherwise page 1 and size 20; and up to 2 ^ 53 users it reports
  -- the least number of pages that holds them all.
  pub list_users_pages :
      FloatLaws float
      → (req : ListUsersRequest) (s : S) (r : ListUsersResponse) (s' : S) (total : ℕ)
      → Returns (list_users svc float req) s r s'
      → r.total_items ≡ pos total
      → total ≤ 2 ^ 53
      → IsPaged req r.page r.per_page
        × (svc.users.list (record { status = req.status; page = r.page; per_page = r.per_page }) s
            ≡ (ok (r.users, r.total_items), s'))
        × (pages : ℕ) × (size : ℕ) × (r.total_pages ≡ pos pages)
        × (r.per_page ≡ pos size)
        × (total ≤ pages * size)
        × (pages * size < total + size)
  list_users_pages laws req s r s' total h items small =
      let (paged, listed, count) = list_users_ok req s r s' h in
      let (size, is_size, low, high) =
        positive_part r.per_page paged.per_page_positive paged.per_page_small in
      let exact = laws.ceil_exact total size small low high in
      let (enough, least) = ceil_bounds total size low in
      (
        paged,
        listed,
        (total + size - 1) / size,
        size,
        count
            ∙ ((λ i.
                  float.to_int
                    (float.ceil (float.divide (float.of_int (items i)) (float.of_int (is_size i)))))
                ∙ exact),
        is_size,
        enough,
        least,
      )
