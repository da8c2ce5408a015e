-- ===== src/Plans/Examples.antt =====
-- A plan with one phase and one task, and the theorems about plans on it.
use apg.Prelude.{
  ◌≡◌, ◌↔◌, ◌⊎◌, refl, true, false, List, [], ◌∷◌, some, any, if◌then◌else◌, Member, ◌==◌, nat_eq,
  list_eq,
}
use apg.Text.{Text, codes}
use apg.Text.Decimal.{decimal, decimal_digits}
use apg.Schema.{Record}
use apg.Plans.{
  is_task, set_status, set_task, plan_done, task_status, review, is_unresolved, phase_fqn,
  two_digits, is_phase, Completion, plan_complete,
}
use apg.Plans.Mark.{set_task-task_status}
use apg.Plans.Complete.{AllMarked, TaskOf, plan_complete_iff}

abbrev phase_one : Text
phase_one = codes "p/plan.phase-01"

abbrev task_one : Text
task_one = codes "p/plan.phase-01.task-1"

abbrev with_task : Text → List Record
with_task status =
    Record.plan_phase phase_one 1 (codes "Build") [] (codes "pending")
    ∷ Record.task task_one (codes "Write") status
    ∷ Record.contains phase_one task_one []
    ∷ Record.feedback (codes "f") (codes "no") (codes "resolved") []
    ∷ Record.reviews (codes "f") task_one
    ∷ []

numbered : phase_fqn (codes "p") 1 ≡ phase_one
unfolding phase_fqn two_digits decimal decimal_digits
numbered = refl

marked_done : plan_done (with_task (codes "pending")) task_one ≡ some (with_task (codes "done"))
unfolding plan_done set_task set_status is_task
marked_done = refl

set_task-task_status_example : task_status task_one (with_task (codes "done")) ≡ (
    if task_one == task_one
    then some (codes "done")
    else task_status task_one (with_task (codes "pending")))
unfolding plan_done
set_task-task_status_example =
    set_task-task_status (codes "done") task_one task_one (with_task (codes "pending"))
      (with_task (codes "done")) marked_done

plan_complete_iff_example :
    ((after : List Record) × (plan_complete (codes "p") 1 (with_task (codes "done"))
        ≡ Completion.completed after true)
      × AllMarked 1 (with_task (codes "done")) after)
    ↔ (((t : Text)
          → TaskOf (phase_fqn (codes "p") 1) (with_task (codes "done")) t
          → task_status t (with_task (codes "done")) ≡ some (codes "done"))
        × ((r : Record) (f t : Text)
            → Member r (with_task (codes "done"))
            → review r ≡ some (f, t)
            → (t ≡ phase_fqn (codes "p") 1)
              ⊎ TaskOf (phase_fqn (codes "p") 1) (with_task (codes "done")) t
            → any (is_unresolved f) (with_task (codes "done")) ≡ false))
unfolding is_phase
plan_complete_iff_example = plan_complete_iff (codes "p") 1 (with_task (codes "done")) refl
