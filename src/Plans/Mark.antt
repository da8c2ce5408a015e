-- ===== src/Plans/Mark.antt =====
-- What marking a task changes.
use apg.Prelude.{
  ◌≡◌, refl, ap, ap₂, Bool, true, ◌&&◌, ◌||◌, subst, List, [], ◌∷◌, Option, none, some, is_some,
  map, any, arith, if◌then◌else◌, Bool-cases, inl, inr, ◌==◌, ==_iff, nat_eq, list_eq,
}
use apg.Text.{Text, codes}
use apg.Schema.{Record}
use apg.Plans.{
  is_task, set_status, set_task, plan_done, plan_undone, status_in, first_status, task_status,
}

module _ (status t : Text) where
  set_status-is_task : (u : Text) (r : Record) → is_task u (set_status status t r) ≡ is_task u r
  unfolding is_task set_status
  set_status-is_task u (Record.task fqn title old) = ground arith
  set_status-is_task u (Record.module_ _) = refl
  set_status-is_task u _ = refl

  set_status-status_in :
      (u : Text) (r : Record)
      → status_in u (set_status status t r)
        ≡ (if is_task u r && t == u then some status else status_in u r)
  unfolding is_task set_status status_in
  set_status-status_in u (Record.task fqn title old) =
      ground (arith, ==_iff fqn t, ==_iff fqn u, ==_iff t u)
  set_status-status_in u (Record.module_ _) = refl
  set_status-status_in u _ = refl

  set_status_again :
      (other : Text) (r : Record)
      → set_status status t (set_status other t r) ≡ set_status status t r
  unfolding set_status
  set_status_again other (Record.task fqn title old) = ground arith
  set_status_again other (Record.module_ _) = refl
  set_status_again other _ = refl

  set_status-any :
      (u : Text) (rs : List Record)
      → any (is_task u) (map (set_status status t) rs) ≡ any (is_task u) rs
  set_status-any u [] = refl
  set_status-any u (r ∷ rs) = ground (arith, set_status-is_task u r, set_status-any u rs)

  set_status_all_again :
      (other : Text) (rs : List Record)
      → map (set_status status t) (map (set_status other t) rs) ≡ map (set_status status t) rs
  set_status_all_again other [] = refl
  set_status_all_again other (r ∷ rs) =
      ap₂ (λ x xs. x ∷ xs) (set_status_again other r) (set_status_all_again other rs)

status_in-is_task : (u : Text) (r : Record) → is_some (status_in u r) ≡ is_task u r
unfolding is_task status_in
status_in-is_task u (Record.task fqn title old) = ground arith
status_in-is_task u (Record.module_ _) = refl
status_in-is_task u _ = refl

-- The first of two statuses, after a mark.
first_marked :
    (status : Text) (marks task rest : Bool) (old new later later' : Option Text)
    → is_some old ≡ task
    → new ≡ (if task && marks then some status else old)
    → later' ≡ (if marks && rest then some status else later)
    → first_status new later'
      ≡ (if marks && (task || rest) then some status else first_status old later)
first_marked status marks task rest none new later later' a b c = ground arith
first_marked status marks task rest (some s) new later later' a b c = ground arith

task_status-map :
    (status t u : Text) (rs : List Record)
    → task_status u (map (set_status status t) rs)
      ≡ (if t == u && any (is_task u) rs then some status else task_status u rs)
unfolding task_status
task_status-map status t u [] = ground arith
task_status-map status t u (r ∷ rs) =
    first_marked status (t == u) (is_task u r) (any (is_task u) rs) (status_in u r)
      (status_in u (set_status status t r)) (task_status u rs)
      (task_status u (map (set_status status t) rs)) (status_in-is_task u r)
      (set_status-status_in status t u r) (task_status-map status t u rs)

-- Marking a task sets the status of this task and of no other.
pub set_task-task_status :
    (status t u : Text) (records marked : List Record)
    → set_task status records t ≡ some marked
    → task_status u marked ≡ (if t == u then some status else task_status u records)
unfolding set_task
set_task-task_status status t u records marked h = elim (Bool-cases (any (is_task t) records)) [
  | inl e ↦
      let same : map (set_status status t) records ≡ marked = cc (rw e at h) in
      let moved = task_status-map status t u records in
      elim (Bool-cases (t == u)) [
        | inl k ↦
            let e' = subst (λ x. any (is_task x) records ≡ true) ((==_iff t u).0 k) e in
            ground (arith, moved, ap (task_status u) same, e')
        | inr k ↦ ground (arith, moved, ap (task_status u) same)
      ]
  | inr e ↦ cc (rw e at h)
]

-- Undoing a task that was just marked done is undoing it at once, with the same records.
pub plan_done-plan_undone :
    (records done : List Record) (t : Text)
    → plan_done records t ≡ some done
    → plan_undone done t ≡ plan_undone records t
unfolding plan_done plan_undone set_task
plan_done-plan_undone records done t h = elim (Bool-cases (any (is_task t) records)) [
  | inl e ↦
      let same : map (set_status (codes "done") t) records ≡ done = cc (rw e at h) in
      subst
        (λ x.
          (if any (is_task t) x then some (map (set_status (codes "pending") t) x) else none) ≡ (
            if any (is_task t) records
            then some (map (set_status (codes "pending") t) records)
            else none))
        same
        (rw
          (
            set_status-any (codes "done") t t records,
            set_status_all_again (codes "pending") t (codes "done") records,
          )
          refl)
  | inr e ↦ cc (rw e at h)
]
