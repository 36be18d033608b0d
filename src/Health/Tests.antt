-- ===== src/Health/Tests.antt =====
-- Two dependencies, of which one is slow.
use storemesh_user_service.Base.{◌≡◌, ◌≢◌, ◌↔◌, inl, inr, refl, [], ◌∷◌, List, true, none, some, In}
use storemesh_user_service.Go.Text.{Text, text, ◌==◌}
use storemesh_user_service.Health.{Report, Event, answered, deadline, is_ready, check, status_up}
use storemesh_user_service.Health.Answers.{enough, settled, all_well, check_reports}

abbrev names : List Text
names = text "postgres" ∷ text "redis" ∷ []

abbrev slow : List Event
slow = answered (text "redis") none ∷ deadline ∷ []

slow-enough : enough 2 slow ≡ true
unfolding enough
slow-enough = refl

slow-settled : (name : Text) → In name names → settled 2 name slow ≡ true
unfolding settled ◌==◌
slow-settled name (inl e) = rw e refl
slow-settled name (inr (inl e)) = rw e refl
slow-settled name (inr (inr none_left)) = absurd none_left

check_reports_example :
    (r : Report) × (check names slow ≡ some r)
    × ((is_ready r ≡ true) ↔ (all_well 2 slow ≡ true))
    × ((name : Text) → In name names → r.dependencies name ≢ none)
    × ((name : Text) → In name names → is_ready r ≡ true → r.dependencies name ≡ some status_up)
check_reports_example = check_reports names slow slow-enough slow-settled
