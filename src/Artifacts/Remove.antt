-- ===== src/Artifacts/Remove.antt =====
-- `remove_node` of src/artifacts/merge.rs.
use apg.Prelude.{
  ◌≡◌, ◌⊎◌, ◌↔◌, Bool, true, false, not, ◌&&◌, List, Option, none, some, arith, filter, is_some,
  Member, Member-filter, Bool-cases, inl, inr, ap, ◌==◌, ==_iff, nat_eq, list_eq,
}
use apg.Text.{Text}
use apg.Schema.{Record}
use apg.Artifacts.Edges.{edge_endpoints, node_fqn}
use apg.Artifacts.Edges.Agree.{node_or_edge}

-- the arms of the `match` in `retain`
unfoldable pub stays : Text → Option Text → Option (Text × Text) → Bool
stays fqn (some n) _ = not (n == fqn)
stays fqn none (some (a, b)) = not (a == fqn) && not (b == fqn)
stays fqn none none = true

unfoldable pub remove_node : List Record → Text → List Record
remove_node records fqn = filter (λ r. stays fqn (node_fqn r) (edge_endpoints r)) records

-- A name or a pair of endpoints that is about the node.
abbrev pub Touched : Text → Option Text → Option (Text × Text) → Type 0
Touched fqn n e =
    (n ≡ some fqn) ⊎ ((other : Text) × ((e ≡ some (fqn, other)) ⊎ (e ≡ some (other, fqn))))

-- The record is the node, or an edge that starts or ends at it.
abbrev pub Touches : Text → Record → Type 0
Touches fqn r = Touched fqn (node_fqn r) (edge_endpoints r)

stays-false :
    (fqn : Text) (n : Option Text) (e : Option (Text × Text))
    → stays fqn n e ≡ false
    → Touched fqn n e
unfolding stays
stays-false fqn (some n) e h = inl (ap some ((==_iff n fqn).0 (ground arith)))
stays-false fqn none (some (a, b)) h = elim (Bool-cases (a == fqn)) [
  | inl l ↦ inr (b, inl (ap (λ x. some (x, b)) ((==_iff a fqn).0 l)))
  | inr differs ↦ inr (a, inr (ap (λ x. some (a, x)) ((==_iff b fqn).0 (ground arith))))
]
stays-false fqn none none h = cc

stays-true :
    (fqn : Text) (n : Option Text) (e : Option (Text × Text))
    → (is_some n && is_some e) ≡ false
    → Touched fqn n e
    → stays fqn n e ≡ false
unfolding stays
stays-true fqn (some n) (some e) x t = cc
stays-true fqn (some n) none x (inl t) = ground (arith, ==_iff n fqn)
stays-true fqn (some n) none x (inr (o, inl t)) = cc
stays-true fqn (some n) none x (inr (o, inr t)) = cc
stays-true fqn none e x (inl t) = cc
stays-true fqn none (some (a, b)) x (inr (o, inl t)) = ground (arith, ==_iff a fqn)
stays-true fqn none (some (a, b)) x (inr (o, inr t)) = ground (arith, ==_iff b fqn)
stays-true fqn none none x (inr (o, inl t)) = cc
stays-true fqn none none x (inr (o, inr t)) = cc

-- `remove_node` keeps exactly the records that are neither the node nor an edge that starts or
-- ends at it.
pub remove_node_iff :
    (records : List Record) (fqn : Text) (r : Record)
    → Member r (remove_node records fqn) ↔ (Member r records × (Touches fqn r → ⊥))
unfolding remove_node
remove_node_iff records fqn r =
    let keep = λ (x : Record). stays fqn (node_fqn x) (edge_endpoints x) in
    let (there, back) = Member-filter keep records r in
    (
      λ m.
          let (m', h) = there m in
          (
            m',
            λ t.
                absurd (
                  ground
                    (arith, stays-true fqn (node_fqn r) (edge_endpoints r) (node_or_edge r) t)),
          ),
      λ (m, apart). back (
        m,
        elim (Bool-cases (keep r)) [
          | inl e ↦ e
          | inr e ↦ absurd (apart (stays-false fqn (node_fqn r) (edge_endpoints r) e))
        ],
      ),
    )
