-- ===== src/Ingest/Admit/Converge.antt =====
-- What `insert_node` leaves at each name.
use apg.Prelude.{
  ◌≡◌, ◌⊎◌, refl, subst, true, false, ◌&&◌, [], ◌∷◌, Option, none, some, Map, lookup, put,
  lookup-put, ◌==◌, ==_iff, nat_eq, list_eq, arith, if◌then◌else◌, Bool-cases, inl, inr,
}
use apg.Text.{Text}
use apg.Ingest.Outcome.{Outcome, panic, ok, ◌>>=◌, ok_inj}
use apg.Ingest.Assembly.{GraphNode, Assembly}
use apg.Ingest.Admit.{
  has_planned_status, has_no_status, is_unresolved_kind, remove, add_node, insert_over, insert_node,
}

-- A scanned node, and the placeholder that a plan writes.
pub record IsReal (n : GraphNode) : Type 0 where
  pub known : is_unresolved_kind n.kind ≡ false
  pub unplanned : has_no_status n ≡ true

pub record IsPlaceholder (n : GraphNode) : Type 0 where
  pub known : is_unresolved_kind n.kind ≡ false
  pub planned : has_planned_status n ≡ true

lookup-remove :
    (k f : Text) (m : Map Text GraphNode)
    → lookup f (remove k m) ≡ (if k == f then none else lookup f m)
lookup-remove k f [] = ground arith
lookup-remove k f ((j, v) ∷ m) =
    ground (arith, lookup-remove k f m, ==_iff j k, ==_iff j f, ==_iff k f)

real_not_planned : (n : GraphNode) → has_no_status n ≡ true → has_planned_status n ≡ false
real_not_planned n h = ground (arith, h)

absent_step :
    (fqn : Text) (node : GraphNode) (g : Assembly)
    → lookup fqn g.nodes ≡ none
    → insert_node fqn node g ≡ ok (add_node fqn node g)
unfolding insert_node
absent_step fqn node g h = rw (h, insert_node)

present_step :
    (fqn : Text) (old node : GraphNode) (g : Assembly)
    → lookup fqn g.nodes ≡ some old
    → insert_node fqn node g ≡ insert_over old fqn node g
unfolding insert_node
present_step fqn old node g h = rw (h, insert_node)

replaces :
    (fqn : Text) (old node : GraphNode) (g : Assembly)
    → IsPlaceholder old
    → IsReal node
    → insert_over old fqn node g ≡ ok (add_node fqn node (record g { nodes = remove fqn g.nodes }))
unfolding insert_over
replaces fqn old node g p r = ground (arith, p.known, p.planned, r.unplanned)

drops :
    (fqn : Text) (old node : GraphNode) (g : Assembly)
    → IsReal old
    → IsPlaceholder node
    → insert_over old fqn node g ≡ ok g
unfolding insert_over
drops fqn old node g r p = ground (arith, r.known, p.planned, real_not_planned old r.unplanned)

-- A scanned node and a plan's placeholder of the same name, admitted in either order to a graph
-- without the name, leave the scanned node there, every other node as it was, and no panic.
pub insert_node-converges :
    (fqn : Text) (scanned placeholder : GraphNode) (g : Assembly)
    → IsReal scanned
    → IsPlaceholder placeholder
    → lookup fqn g.nodes ≡ none
    → (g1 g2 : Assembly) × ((insert_node fqn placeholder g >>= insert_node fqn scanned) ≡ ok g1)
      × ((insert_node fqn scanned g >>= insert_node fqn placeholder) ≡ ok g2)
      × ((f : Text)
          → (lookup f g1.nodes ≡ (if fqn == f then some scanned else lookup f g.nodes))
            × (lookup f g2.nodes ≡ lookup f g1.nodes))
insert_node-converges fqn scanned placeholder g real p absent =
    let planned = add_node fqn placeholder g in
    let swapped = add_node fqn scanned (record planned { nodes = remove fqn planned.nodes }) in
    let direct = add_node fqn scanned g in
    (
      swapped,
      direct,
      rw (
        absent_step fqn placeholder g absent,
        present_step fqn placeholder scanned planned (here fqn placeholder g),
        replaces fqn placeholder scanned planned p real,
      ),
      rw (
        absent_step fqn scanned g absent,
        present_step fqn scanned placeholder direct (here fqn scanned g),
        drops fqn scanned placeholder direct real p,
      ),
      λ f. ground (
        arith,
        lookup-put fqn f scanned (remove fqn planned.nodes),
        lookup-remove fqn f planned.nodes,
        lookup-put fqn f placeholder g.nodes,
        lookup-put fqn f scanned g.nodes,
      ),
    )
  where
    here : (k : Text) (n : GraphNode) (h : Assembly) → lookup k (put k n h.nodes) ≡ some n
    here k n h = ground (arith, lookup-put k k n h.nodes, ==_iff k k)

Holds : Text → GraphNode → Assembly → Type 0
Holds f old g = lookup f g.nodes ≡ some old

over_keeps :
    (existing : GraphNode) (fqn f : Text) (old node : GraphNode) (g t : Assembly)
    → lookup fqn g.nodes ≡ some existing
    → lookup f g.nodes ≡ some old
    → IsReal old
    → insert_over existing fqn node g ≡ ok t
    → lookup f t.nodes ≡ some old
unfolding insert_over Holds
over_keeps existing fqn f old node g t at_fqn at_f r h =
    elim (Bool-cases (is_unresolved_kind existing.kind)) [
      | inl u ↦
          subst (Holds f old) (ok_inj (rw u at h))
            (ground (arith, u, at_fqn, at_f, r.known, lookup-put fqn f node g.nodes, ==_iff fqn f))
      | inr u ↦ elim (Bool-cases (has_planned_status existing && has_no_status node)) [
        | inl p ↦ subst (Holds f old) (ok_inj (rw (u, p) at h)) (
            ground (
              arith,
              p,
              at_fqn,
              at_f,
              real_not_planned old r.unplanned,
              lookup-put fqn f node (remove fqn g.nodes),
              lookup-remove fqn f g.nodes,
              ==_iff fqn f,
            ))
        | inr p ↦ elim (Bool-cases (has_planned_status node)) [
          | inl q ↦ subst (Holds f old) (ok_inj (rw (u, p, q) at h)) at_f
          | inr q ↦ absurd (ground (arith, u, p, q, h))
        ]
      ]
    ]

step_keeps :
    (o : Option GraphNode) (fqn f : Text) (old node : GraphNode) (g t : Assembly)
    → lookup fqn g.nodes ≡ o
    → lookup f g.nodes ≡ some old
    → IsReal old
    → insert_node fqn node g ≡ ok t
    → lookup f t.nodes ≡ some old
unfolding Holds
step_keeps none fqn f old node g t at_fqn at_f r h =
    subst (Holds f old) (ok_inj (rw (absent_step fqn node g at_fqn) at h))
      (ground (arith, at_fqn, at_f, lookup-put fqn f node g.nodes, ==_iff fqn f))
step_keeps (some existing) fqn f old node g t at_fqn at_f r h =
    over_keeps existing fqn f old node g t at_fqn at_f r
      (rw (present_step fqn existing node g at_fqn) at h)

duplicate :
    (f : Text) (old node : GraphNode) (g : Assembly)
    → lookup f g.nodes ≡ some old
    → IsReal old
    → insert_node f node g ≡ (if has_planned_status node then ok g else panic)
unfolding insert_node insert_over
duplicate f old node g e r = ground (arith, e, r.known, real_not_planned old r.unplanned)

-- A scanned node is at a name. At this name, a node with the status `planned` is dropped and leaves
-- the graph as it is, and any other node panics. At any name, an admission panics or leaves the
-- scanned node where it is.
pub insert_node-keeps :
    (fqn f : Text) (old node : GraphNode) (g : Assembly)
    → lookup f g.nodes ≡ some old
    → IsReal old
    → (insert_node f node g ≡ (if has_planned_status node then ok g else panic))
      × ((insert_node fqn node g ≡ panic)
          ⊎ ((t : Assembly) × (insert_node fqn node g ≡ ok t) × (lookup f t.nodes ≡ some old)))
insert_node-keeps fqn f old node g e r =
    (duplicate f old node g e r, kept (insert_node fqn node g) refl)
  where
    kept :
        (o : Outcome Assembly)
        → insert_node fqn node g ≡ o
        → (o ≡ panic) ⊎ ((t : Assembly) × (o ≡ ok t) × (lookup f t.nodes ≡ some old))
    kept panic h = inl refl
    kept (ok t) h = inr (t, refl, step_keeps (lookup fqn g.nodes) fqn f old node g t refl e r h)
