-- ===== src/Health.antt =====
-- internal/health/checker.go: `Check` asks every dependency at once and collects the answers. The
-- goroutines, the clock and the choice of `select` are the order of the events that it receives.
pub mod Answers
mod Tests
use storemesh_user_service.Base.{
  ℕ, zero, suc, List, [], ◌∷◌, Bool, true, false, ◌||◌, Option, none, some, if◌then◌else◌, map,
  length, any,
}
use storemesh_user_service.Go.Text.{Text, text, ◌==◌}
use storemesh_user_service.Go.Errors.{Error}

abbrev pub status_ready : Text
status_ready = text "ready"

abbrev pub status_not_ready : Text
status_not_ready = text "not_ready"

abbrev pub status_up : Text
status_up = text "up"

abbrev pub status_down : Text
status_down = text "down"

-- The map is a function: `none` for a key that it does not have.
pub record Report : Type 0 where
  pub status : Text
  pub dependencies : Text → Option Text

unfoldable pub is_ready : Report → Bool
is_ready r = r.status == status_ready

-- An answer of the dependency with the name, with the error of its check, or the end of the
-- timeout. A dependency without a check answers with `context.Canceled`.
pub data Event : Type 0 where
  answered : Text → Option Error → Event
  deadline : Event

abbrev pub set_status : Text → Text → (Text → Option Text) → Text → Option Text
set_status name status m j = if j == name then some status else m j

-- `delete(pending, name)`.
unfoldable pub without : Text → List Text → List Text
without name [] = []
without name (p ∷ ps) = if p == name then without name ps else p ∷ without name ps

-- The loop over `pending` at the deadline.
abbrev pub all_down : List Text → (Text → Option Text) → Text → Option Text
all_down pending m j = if any (λ p. j == p) pending then some status_down else m j

abbrev pub with_answer : Text → Option Error → Report → Report
with_answer name none r = record r { dependencies = set_status name status_up r.dependencies }
with_answer name (some e) r = record {
  status = status_not_ready;
  dependencies = set_status name status_down r.dependencies;
}

-- The loop, with the answers still to come; without a further event it waits.
unfoldable pub collect : ℕ → List Text → Report → List Event → Option Report
collect zero pending r events = some r
collect (suc n) pending r [] = none
collect (suc n) pending r (answered name e ∷ events) =
    collect n (without name pending) (with_answer name e r) events
collect (suc n) pending r (deadline ∷ events) =
    some (record { status = status_not_ready; dependencies = all_down pending r.dependencies })

abbrev pub empty_report : Report
empty_report = record { status = status_ready; dependencies = λ name. none }

-- `Check`, by the names of the dependencies.
unfoldable pub check : List Text → List Event → Option Report
check [] events = some empty_report
check (name ∷ names) events = collect (length (name ∷ names)) (name ∷ names) empty_report events
