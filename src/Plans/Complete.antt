-- ===== src/Plans/Complete.antt =====
-- When a phase completes.
use apg.Prelude.{
  ℕ, ◌≡◌, ◌↔◌, ◌⊎◌, refl, ap, sym, map, Bool, true, false, List, [], ◌∷◌, Option, none, some, any,
  arith, filter, filter_map, filter_map-from, filter_map-contains, contains, contains-filter,
  is_empty, Member, Bool-cases, inl, inr, ◌==◌, ==_iff, ==_refl, nat_eq, list_eq,
}
use apg.Text.{Text, codes}
use apg.Schema.{Record}
use apg.Plans.{
  is_task, child_of, phase_tasks, phase_fqn, task_status, is_not_done, not_done, review, from_of,
  is_target, is_unresolved, unresolved, complete_phase, is_phase, Completion, plan_complete,
}

-- The record of the phase with the status `done`, or another record as it was.
abbrev pub IsMarked : ℕ → Record → Record → Type 0
IsMarked phase r r' =
    ((fqn : Text) × (title : Text) × (deliverable : Text) × (status : Text) × (r
        ≡ Record.plan_phase fqn phase title deliverable status)
      × (r' ≡ Record.plan_phase fqn phase title deliverable (codes "done")))
    ⊎ ((is_phase phase r ≡ false) × (r' ≡ r))

-- The same for each record, in their order.
abbrev pub AllMarked : ℕ → List Record → List Record → Type 0
AllMarked phase [] [] = Unit
AllMarked phase (r ∷ rs) (r' ∷ rs') = IsMarked phase r r' × AllMarked phase rs rs'
AllMarked phase _ _ = ⊥

is_empty_iff : (xs : List Text) → (is_empty xs ≡ true) ↔ ((a : Text) → contains xs a ≡ false)
is_empty_iff [] = (λ h a. refl, λ h. refl)
is_empty_iff (x ∷ xs) = (λ h. cc, λ h. let differs = h x in ground (arith, differs, ==_refl x))

is_not_done_iff : (o : Option Text) → (is_not_done o ≡ false) ↔ (o ≡ some (codes "done"))
unfolding is_not_done
is_not_done_iff none = (λ h. cc, λ h. cc)
is_not_done_iff (some s) = (
  λ h. ap some ((==_iff s (codes "done")).0 (ground arith)),
  λ h. ground (arith, ==_iff s (codes "done")),
)

from_of-some :
    (target : Text → Bool) (o : Option (Text × Text)) (f : Text)
    → from_of target o ≡ some f
    → (t : Text) × (o ≡ some (f, t)) × (target t ≡ true)
from_of-some target none f h = cc
from_of-some target (some (from, to)) f h = elim (Bool-cases (target to)) [
  | inl e ↦
      let inner : some from ≡ some f = rw e at h in
      let same : from ≡ f = cc in (to, ap (λ x. some (x, to)) same, e)
  | inr e ↦ cc (rw e at h)
]

module _ (phase : Text) (records : List Record) where
  -- A task of the records that the phase contains.
  abbrev pub TaskOf : Text → Type 0
  TaskOf t =
      ((r : Record) × Member r records × (child_of phase r ≡ some t))
      × (any (is_task t) records ≡ true)

  phase_tasks_iff : (t : Text) → (contains (phase_tasks phase records) t ≡ true) ↔ TaskOf t
  unfolding phase_tasks
  phase_tasks_iff t =
      let found =
        contains-filter (λ x. any (is_task x) records) (filter_map (child_of phase) records) t in
      (
        λ h. (
          filter_map-from (child_of phase) records t (ground (arith, found)),
          ground (arith, found),
        ),
        λ ((r, m, q), k).
            ground (arith, found, filter_map-contains (child_of phase) records t r m q),
      )

  not_done_iff :
      (tasks : List Text)
      → (is_empty (not_done tasks records) ≡ true)
        ↔ ((t : Text) → contains tasks t ≡ true → task_status t records ≡ some (codes "done"))
  unfolding not_done
  not_done_iff tasks =
      let open_task = λ (t : Text). is_not_done (task_status t records) in
      let found = contains-filter open_task tasks in
      let (none_left, all_done) = is_empty_iff (filter open_task tasks) in
      (
        λ h t m.
            (is_not_done_iff (task_status t records)).0 (ground (arith, found t, none_left h t)),
        λ h. all_done (λ t. elim (Bool-cases (contains tasks t)) [
          | inl m ↦ ground (arith, found t, (is_not_done_iff (task_status t records)).1 (h t m))
          | inr m ↦ ground (arith, found t)
        ]),
      )

  unresolved_iff :
      (tasks : List Text)
      → (is_empty (unresolved phase tasks records) ≡ true) ↔ (
          (r : Record) (f t : Text)
          → Member r records
          → review r ≡ some (f, t)
          → is_target phase tasks t ≡ true
          → any (is_unresolved f) records ≡ false)
  unfolding unresolved
  unresolved_iff tasks =
      let reviewer = λ (r : Record). from_of (is_target phase tasks) (review r) in
      let reviews = filter_map reviewer records in
      let open_one = λ (f : Text). any (is_unresolved f) records in
      let found = contains-filter open_one reviews in
      let (none_left, all_closed) = is_empty_iff (filter open_one reviews) in
      (
        λ h r f t m q k.
            let listed = filter_map-contains reviewer records f r m (rw (q, k) refl) in
            ground (arith, found f, none_left h f, listed),
        λ h. all_closed (λ f. elim (Bool-cases (contains reviews f)) [
          | inl m ↦
              let (r, m', q) = filter_map-from reviewer records f m in
              let (t, q', k) = from_of-some (is_target phase tasks) (review r) f q in
              ground (arith, found f, h r f t m' q' k)
          | inr m ↦ ground (arith, found f)
        ]),
      )

  is_target_iff :
      (t : Text) → (is_target phase (phase_tasks phase records) t ≡ true) ↔ ((t ≡ phase) ⊎ TaskOf t)
  is_target_iff t =
      let (there, back) = phase_tasks_iff t in
      (
        λ h. elim (Bool-cases (phase == t)) [
          | inl e ↦ inl (sym ((==_iff phase t).0 e))
          | inr e ↦ inr (there (ground arith))
        ],
        λ h. elim h [
          | inl e ↦ ground (arith, (==_iff phase t).1 (sym e))
          | inr k ↦ ground (arith, back k)
        ],
      )

complete_phase-IsMarked : (phase : ℕ) (r : Record) → IsMarked phase r (complete_phase phase r)
unfolding complete_phase is_phase
complete_phase-IsMarked phase (Record.plan_phase fqn number title deliverable status) =
    elim (Bool-cases (number == phase)) [
      | inl e ↦
          let same : number ≡ phase = (==_iff number phase).0 e in
          inl (
            fqn,
            title,
            deliverable,
            status,
            ap (λ n. Record.plan_phase fqn n title deliverable status) same,
            rw e (ap (λ n. Record.plan_phase fqn n title deliverable (codes "done")) same),
          )
      | inr e ↦ inr (e, rw e refl)
    ]
complete_phase-IsMarked phase _ = inr (refl, refl)

complete_phase-AllMarked :
    (phase : ℕ) (rs : List Record) → AllMarked phase rs (map (complete_phase phase) rs)
complete_phase-AllMarked phase [] = tt
complete_phase-AllMarked phase (r ∷ rs) =
    (complete_phase-IsMarked phase r, complete_phase-AllMarked phase rs)

-- A phase that the plan has completes exactly if each task that it contains is done, by the first
-- record of the task, and each feedback that reviews the phase or such a task is resolved. To
-- complete is to write the records back with the status `done` on the phase, and all else as it was.
pub plan_complete_iff :
    (project : Text) (phase : ℕ) (records : List Record)
    → any (is_phase phase) records ≡ true
    → ((after : List Record) × (plan_complete project phase records
          ≡ Completion.completed after true)
        × AllMarked phase records after)
      ↔ (((t : Text)
            → TaskOf (phase_fqn project phase) records t
            → task_status t records ≡ some (codes "done"))
          × ((r : Record) (f t : Text)
              → Member r records
              → review r ≡ some (f, t)
              → (t ≡ phase_fqn project phase) ⊎ TaskOf (phase_fqn project phase) records t
              → any (is_unresolved f) records ≡ false))
unfolding plan_complete
plan_complete_iff project phase records present =
    let fqn = phase_fqn project phase in
    let tasks = phase_tasks fqn records in
    let (done, all_done) = not_done_iff fqn records tasks in
    let (closed, all_closed) = unresolved_iff fqn records tasks in
    (
      λ (after, e, _). (
        λ t k. done (ground (arith, e)) t ((phase_tasks_iff fqn records t).1 k),
        λ r f t m q k. closed (ground (arith, e)) r f t m q ((is_target_iff fqn records t).1 k),
      ),
      λ (h, g). (
        map (complete_phase phase) records,
        ground (
          arith,
          present,
          all_done (λ t k. h t ((phase_tasks_iff fqn records t).0 k)),
          all_closed (λ r f t m q k. g r f t m q ((is_target_iff fqn records t).0 k)),
        ),
        complete_phase-AllMarked phase records,
      ),
    )
