-- ===== src/Plans.antt =====
-- The status commands of a plan over its records, from src/plan_cmd/status.rs: what each hands to
-- `write_through`, or none where it stops with an error.
pub mod Mark
pub mod Complete
pub mod Examples
use apg.Prelude.{
  ℕ, Bool, true, false, not, ◌&&◌, ◌||◌, List, [], ◌∷◌, ◌++◌, Option, none, some, map, any, filter,
  filter_map, contains, is_empty, if◌then◌else◌, ltb, ◌==◌, nat_eq, list_eq,
}
use apg.Text.{Text, codes}
use apg.Text.Decimal.{decimal}
use apg.Schema.{Record}

-- `matches!(r, Record::Task { fqn, .. } if fqn == t)`
unfoldable pub is_task : Text → Record → Bool
is_task t (Record.task fqn title status) = fqn == t
is_task t _ = false

-- the arm of `for r in &mut records`
unfoldable pub set_status : Text → Text → Record → Record
set_status status t (Record.task fqn title old) =
    if fqn == t then Record.task fqn title status else Record.task fqn title old
set_status status t r = r

-- the loop of `plan_done_at` and `plan_undone_at`, with `found`
unfoldable pub set_task : Text → List Record → Text → Option (List Record)
set_task status records t =
    if any (is_task t) records then some (map (set_status status t) records) else none

unfoldable pub plan_done : List Record → Text → Option (List Record)
plan_done records t = set_task (codes "done") records t

unfoldable pub plan_undone : List Record → Text → Option (List Record)
plan_undone records t = set_task (codes "pending") records t

-- `format!("{phase:02}")`
unfoldable pub two_digits : ℕ → Text
two_digits n = if ltb n 10 then b'0' ∷ decimal n else decimal n

unfoldable pub phase_fqn : Text → ℕ → Text
phase_fqn project phase = project ++ codes "/plan.phase-" ++ two_digits phase

-- `Record::Contains { from, to, .. } if from == &phase_fqn => Some(to)`
unfoldable pub child_of : Text → Record → Option Text
child_of phase (Record.contains from to _) = if from == phase then some to else none
child_of phase _ = none

unfoldable pub phase_tasks : Text → List Record → List Text
phase_tasks phase records =
    filter (λ t. any (is_task t) records) (filter_map (child_of phase) records)

abbrev pub first_status : Option Text → Option Text → Option Text
first_status (some s) later = some s
first_status none later = later

-- `Record::Task { fqn, status, .. } if fqn == t => Some(status)`
unfoldable pub status_in : Text → Record → Option Text
status_in t (Record.task fqn _ status) = if fqn == t then some status else none
status_in t _ = none

-- `records.iter().find_map(…)`
unfoldable pub task_status : Text → List Record → Option Text
task_status t [] = none
task_status t (r ∷ rs) = first_status (status_in t r) (task_status t rs)

-- `status.unwrap_or_default() != "done"`
unfoldable pub is_not_done : Option Text → Bool
is_not_done none = true
is_not_done (some status) = not (status == codes "done")

unfoldable pub not_done : List Text → List Record → List Text
not_done tasks records = filter (λ t. is_not_done (task_status t records)) tasks

-- `Record::Reviews { from, to }`
unfoldable pub review : Record → Option (Text × Text)
review (Record.reviews from to) = some (from, to)
review _ = none

abbrev pub from_of : (Text → Bool) → Option (Text × Text) → Option Text
from_of target none = none
from_of target (some (from, to)) = if target to then some from else none

-- `matches!(r, Record::Feedback { fqn, status, .. } if fqn == f && status != "resolved")`
unfoldable pub is_unresolved : Text → Record → Bool
is_unresolved f (Record.feedback fqn _ status _) = fqn == f && not (status == codes "resolved")
is_unresolved f _ = false

abbrev pub is_target : Text → List Text → Text → Bool
is_target phase tasks t = phase == t || contains tasks t

unfoldable pub unresolved : Text → List Text → List Record → List Text
unresolved phase tasks records =
    filter (λ f. any (is_unresolved f) records)
      (filter_map (λ r. from_of (is_target phase tasks) (review r)) records)

-- the arm of the last loop of `plan_complete_at`
unfoldable pub complete_phase : ℕ → Record → Record
complete_phase phase (Record.plan_phase fqn number title deliverable status) =
    if number == phase
    then Record.plan_phase fqn number title deliverable (codes "done")
    else Record.plan_phase fqn number title deliverable status
complete_phase phase r = r

-- `marked`, which a debug build asserts
unfoldable pub is_phase : ℕ → Record → Bool
is_phase phase (Record.plan_phase _ number _ _ _) = number == phase
is_phase phase _ = false

pub data Completion : Type 0 where
  tasks_not_done : List Text → Completion
  unresolved_feedback : List Text → Completion
  completed : (records : List Record) (marked : Bool) → Completion

unfoldable pub plan_complete : Text → ℕ → List Record → Completion
plan_complete project phase records =
    let fqn = phase_fqn project phase in
    let tasks = phase_tasks fqn records in
    if not (is_empty (not_done tasks records))
    then Completion.tasks_not_done (not_done tasks records)
    else if not (is_empty (unresolved fqn tasks records))
    then Completion.unresolved_feedback (unresolved fqn tasks records)
    else Completion.completed (map (complete_phase phase) records) (any (is_phase phase) records)
