-- ===== src/Health/Answers.antt =====
-- What `Check` reports, by the events that it receives.
use storemesh_user_service.Base.{
  ℕ, zero, suc, ◌≡◌, ◌≢◌, ◌⊎◌, inl, inr, refl, sym, subst, ◌∙◌, ◌↔◌, List, [], ◌∷◌, Bool, true,
  false, ◌||◌, Option, none, some, length, any, In, arith, Bool-cases,
}
use storemesh_user_service.Go.Text.{Text, ◌==◌}
use storemesh_user_service.Go.Text.Laws.{eq_iff}
use storemesh_user_service.Go.Errors.{Error}
use storemesh_user_service.Health.{
  Report, Event, answered, deadline, is_ready, check, collect, without, with_answer, empty_report,
  status_up, status_down,
}

-- Among the first events, as many as there are dependencies, or up to the deadline: there are
-- enough of them to end the wait,
unfoldable pub enough : ℕ → List Event → Bool
enough zero es = true
enough (suc n) [] = false
enough (suc n) (answered m e ∷ es) = enough n es
enough (suc n) (deadline ∷ es) = true

-- the dependency has answered, or the deadline has come,
unfoldable pub settled : ℕ → Text → List Event → Bool
settled zero name es = false
settled (suc n) name [] = false
settled (suc n) name (answered m e ∷ es) = name == m || settled n name es
settled (suc n) name (deadline ∷ es) = true

-- and all are answers without an error.
unfoldable pub all_well : ℕ → List Event → Bool
all_well zero es = true
all_well (suc n) [] = false
all_well (suc n) (answered m none ∷ es) = all_well n es
all_well (suc n) (answered m (some e) ∷ es) = false
all_well (suc n) (deadline ∷ es) = false

some_injective : {A : Type 0} {a b : A} → some a ≡ some b → a ≡ b
some_injective h = cc h

empty_ready : is_ready empty_report ≡ true
unfolding is_ready ◌==◌
empty_ready = refl

collect_returns :
    (n : ℕ) (pending : List Text) (r : Report) (es : List Event)
    → enough n es ≡ true
    → (r' : Report) × (collect n pending r es ≡ some r')
unfolding collect enough
collect_returns zero pending r es h = (r, refl)
collect_returns (suc n) pending r [] h = absurd (ground arith)
collect_returns (suc n) pending r (answered m e ∷ es) h =
    collect_returns n (without m pending) (with_answer m e r) es h
collect_returns (suc n) pending r (deadline ∷ es) h = (_, refl)

-- A report that is not ready stays so.
not_ready_stays :
    (n : ℕ) (pending : List Text) (r : Report) (es : List Event) (r' : Report)
    → collect n pending r es ≡ some r'
    → is_ready r ≡ false
    → is_ready r' ≡ false
unfolding collect is_ready ◌==◌
not_ready_stays zero pending r es r' h k = ground arith
not_ready_stays (suc n) pending r [] r' h k = absurd (ground arith)
not_ready_stays (suc n) pending r (answered m none ∷ es) r' h k =
    not_ready_stays n (without m pending) (with_answer m none r) es r' h k
not_ready_stays (suc n) pending r (answered m (some e) ∷ es) r' h k =
    not_ready_stays n (without m pending) (with_answer m (some e) r) es r' h refl
not_ready_stays (suc n) pending r (deadline ∷ es) r' h k = ground arith

collect_ready :
    (n : ℕ) (pending : List Text) (r : Report) (es : List Event) (r' : Report)
    → collect n pending r es ≡ some r'
    → is_ready r ≡ true
    → is_ready r' ≡ all_well n es
unfolding collect is_ready ◌==◌ all_well
collect_ready zero pending r es r' h k = ground arith
collect_ready (suc n) pending r [] r' h k = absurd (ground arith)
collect_ready (suc n) pending r (answered m none ∷ es) r' h k =
    collect_ready n (without m pending) (with_answer m none r) es r' h k
collect_ready (suc n) pending r (answered m (some e) ∷ es) r' h k =
    not_ready_stays n (without m pending) (with_answer m (some e) r) es r' h refl
collect_ready (suc n) pending r (deadline ∷ es) r' h k = ground arith

any-without :
    (name m : Text) (pending : List Text)
    → (name == m) ≡ false
    → any (λ p. name == p) (without m pending) ≡ any (λ p. name == p) pending
unfolding without
any-without name m [] h = refl
any-without name m (p ∷ ps) h = ground (arith, eq_iff p m, any-without name m ps h)

-- The dependency has a status in the report.
abbrev Reported : Text → Report → Type 0
Reported name r = (status : Text) × (r.dependencies name ≡ some status)

answer-Reported :
    (name m : Text) (e : Option Error) (r : Report)
    → Reported name r
    → Reported name (with_answer m e r)
answer-Reported name m none r (t, h) = elim (Bool-cases (name == m)) [
  | inl p ↦ (status_up, rw p)
  | inr p ↦ (t, rw p h)
]
answer-Reported name m (some e) r (t, h) = elim (Bool-cases (name == m)) [
  | inl p ↦ (status_down, rw p)
  | inr p ↦ (t, rw p h)
]

own-Reported :
    (name m : Text) (e : Option Error) (r : Report)
    → (name == m) ≡ true
    → Reported name (with_answer m e r)
own-Reported name m none r p = (status_up, rw p)
own-Reported name m (some e) r p = (status_down, rw p)

collect-Reported :
    (name : Text) (n : ℕ) (pending : List Text) (r : Report) (es : List Event) (r' : Report)
    → collect n pending r es ≡ some r'
    → Reported name r ⊎ ((any (λ p. name == p) pending ≡ true) × (settled n name es ≡ true))
    → Reported name r'
unfolding collect settled
collect-Reported name zero pending r es r' h (inl k) = subst (Reported name) (some_injective h) k
collect-Reported name zero pending r es r' h (inr (k, l)) = absurd (ground arith)
collect-Reported name (suc n) pending r [] r' h k = absurd (ground arith)
collect-Reported name (suc n) pending r (answered m e ∷ es) r' h (inl k) =
    collect-Reported name n (without m pending) (with_answer m e r) es r' h
      (inl (answer-Reported name m e r k))
collect-Reported name (suc n) pending r (answered m e ∷ es) r' h (inr (k, l)) =
    collect-Reported name n (without m pending) (with_answer m e r) es r' h
      (elim (Bool-cases (name == m)) [
        | inl p ↦ inl (own-Reported name m e r p)
        | inr p ↦ inr (any-without name m pending p ∙ k, ground arith)
      ])
collect-Reported name (suc n) pending r (deadline ∷ es) r' h (inl (t, k)) =
    subst (Reported name) (some_injective h) (elim (Bool-cases (any (λ p. name == p) pending)) [
      | inl p ↦ (status_down, rw p)
      | inr p ↦ (t, rw p k)
    ])
collect-Reported name (suc n) pending r (deadline ∷ es) r' h (inr (k, l)) =
    subst (Reported name) (some_injective h) (status_down, rw k)

-- If all answers are without an error, a dependency that has answered is up.
collect-up :
    (name : Text) (n : ℕ) (pending : List Text) (r : Report) (es : List Event) (r' : Report)
    → collect n pending r es ≡ some r'
    → all_well n es ≡ true
    → (r.dependencies name ≡ some status_up) ⊎ (settled n name es ≡ true)
    → r'.dependencies name ≡ some status_up
unfolding collect settled all_well
collect-up name zero pending r es r' h w (inl k) =
    subst (λ (q : Report). q.dependencies name ≡ some status_up) (some_injective h) k
collect-up name zero pending r es r' h w (inr k) = absurd (ground arith)
collect-up name (suc n) pending r [] r' h w k = absurd (ground arith)
collect-up name (suc n) pending r (answered m none ∷ es) r' h w k =
    collect-up name n (without m pending) (with_answer m none r) es r' h w
      (elim (Bool-cases (name == m)) [
        | inl p ↦ inl (rw p)
        | inr p ↦ elim k [ inl up ↦ inl (rw p up) | inr later ↦ inr (ground arith) ]
      ])
collect-up name (suc n) pending r (answered m (some e) ∷ es) r' h w k = absurd (ground arith)
collect-up name (suc n) pending r (deadline ∷ es) r' h w k = absurd (ground arith)

any-In : (name : Text) (names : List Text) → In name names → any (λ p. name == p) names ≡ true
any-In name [] i = absurd i
any-In name (p ∷ ps) (inl e) = ground (arith, eq_iff name p)
any-In name (p ∷ ps) (inr i) = ground (arith, any-In name ps i)

check_collects :
    (names : List Text) (es : List Event)
    → check names es ≡ collect (length names) names empty_report es
unfolding check collect
check_collects [] es = refl
check_collects (name ∷ names) es = refl

-- `Check` ends with a report as soon as as many dependencies have answered as there are, or the
-- deadline has come. Where by then each dependency has answered, or the deadline has come, the
-- report gives every dependency a status; it is ready exactly if all answers were without an error
-- and came before the deadline, and then every dependency is up.
pub check_reports :
    (names : List Text) (es : List Event)
    → enough (length names) es ≡ true
    → ((name : Text) → In name names → settled (length names) name es ≡ true)
    → (r : Report) × (check names es ≡ some r)
      × ((is_ready r ≡ true) ↔ (all_well (length names) es ≡ true))
      × ((name : Text) → In name names → r.dependencies name ≢ none)
      × ((name : Text) → In name names → is_ready r ≡ true → r.dependencies name ≡ some status_up)
check_reports names es enough_events each =
    let n = length names in
    let (r, h) = collect_returns n names empty_report es enough_events in
    let ready = collect_ready n names empty_report es r h empty_ready in
    (
      r,
      check_collects names es ∙ h,
      (λ k. sym ready ∙ k, λ k. ready ∙ k),
      λ name i gone.
          let (t, k) =
            collect-Reported name n names empty_report es r h
              (inr (any-In name names i, each name i)) in
          cc (k, gone),
      λ name i k. collect-up name n names empty_report es r h (sym ready ∙ k) (inr (each name i)),
    )
