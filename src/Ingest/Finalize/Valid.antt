-- ===== src/Ingest/Finalize/Valid.antt =====
-- What the edges of a finalized graph run between.
use apg.Prelude.{
  ◌≡◌, refl, true, Option, none, some, lookup, ◌==◌, ◌||◌, Map, contains, contains-filter, filter,
  arith, nat_eq, list_eq, pair_eq, triple_eq,
}
use apg.Text.{Text}
use apg.Graph.{NodeKind}
use apg.Ingest.Kinds.{kind_eq}
use apg.Ingest.Assembly.{GraphNode, EdgeSet, Assembly}
use apg.Ingest.Finalize.{
  kind_is, kind_among, callers, keep_edge, keep_unresolved_call, keep_unresolved_use,
  finalize_graph,
}
use apg.Ingest.Finalize.Schema.{Permitted}
use apg.Ingest.Finalize.Schema.Kept.{implies, implied, keep_edge-Permitted}

-- Each edge runs between nodes of the graph, of kinds that its table is declared for, with the
-- exceptions of Permitted; an unresolved edge starts at a function, or a use at a type, and ends at an
-- unresolved target.
pub record IsClosed (g : Assembly) : Type 0 where
  pub allowed :
      (s : EdgeSet) (a b : Text) → contains (g.edges s) (a, b) ≡ true → Permitted s g.nodes a b
  pub call_ends :
      (a b t : Text)
      → contains g.unresolved_calls (a, b, t) ≡ true
      → (kind_is g.nodes a NodeKind.function ≡ true)
        × (kind_is g.nodes b NodeKind.unresolved_target ≡ true)
  pub use_ends :
      (a b : Text)
      → contains g.unresolved_uses (a, b) ≡ true
      → ((kind_is g.nodes a NodeKind.function || kind_is g.nodes a NodeKind.struct) ≡ true)
        × (kind_is g.nodes b NodeKind.unresolved_target ≡ true)

kept_edge :
    (g : Assembly) (s : EdgeSet) (a b : Text)
    → contains (filter (λ e. keep_edge s g.nodes e.0 e.1) (g.edges s)) (a, b) ≡ true
    → Permitted s g.nodes a b
kept_edge g s a b h =
    let found = contains-filter (λ e. keep_edge s g.nodes e.0 e.1) (g.edges s) (a, b) in
    keep_edge-Permitted s g.nodes a b (ground (arith, h, found))

kept_call :
    (g : Assembly) (a b t : Text)
    → contains (filter (keep_unresolved_call g.nodes) g.unresolved_calls) (a, b, t) ≡ true
    → (kind_is g.nodes a NodeKind.function ≡ true)
      × (kind_is g.nodes b NodeKind.unresolved_target ≡ true)
unfolding keep_unresolved_call
kept_call g a b t h =
    ground (arith, h, contains-filter (keep_unresolved_call g.nodes) g.unresolved_calls (a, b, t))

is_caller :
    (k : NodeKind)
    → implies (contains callers k) (k == NodeKind.function || k == NodeKind.struct) ≡ true
is_caller NodeKind.function = refl
is_caller NodeKind.struct = refl
is_caller _ = refl

caller_at :
    (nodes : Map Text GraphNode) (a : Text) (o : Option GraphNode)
    → lookup a nodes ≡ o
    → kind_among nodes a callers ≡ true
    → (kind_is nodes a NodeKind.function || kind_is nodes a NodeKind.struct) ≡ true
unfolding kind_among kind_is
caller_at nodes a none e h = ground (arith, e, h)
caller_at nodes a (some n) e h = ground (
  arith,
  e,
  h,
  implied (contains callers n.kind) (n.kind == NodeKind.function || n.kind == NodeKind.struct)
      (is_caller n.kind),
)

caller_kinds :
    (nodes : Map Text GraphNode) (a : Text)
    → kind_among nodes a callers ≡ true
    → (kind_is nodes a NodeKind.function || kind_is nodes a NodeKind.struct) ≡ true
caller_kinds nodes a h = caller_at nodes a (lookup a nodes) refl h

kept_use :
    (g : Assembly) (a b : Text)
    → contains (filter (keep_unresolved_use g.nodes) g.unresolved_uses) (a, b) ≡ true
    → ((kind_is g.nodes a NodeKind.function || kind_is g.nodes a NodeKind.struct) ≡ true)
      × (kind_is g.nodes b NodeKind.unresolved_target ≡ true)
unfolding keep_unresolved_use
kept_use g a b h = ground (
  arith,
  h,
  contains-filter (keep_unresolved_use g.nodes) g.unresolved_uses (a, b),
  caller_kinds g.nodes a,
)

pub finalize_graph-IsClosed : (g : Assembly) → IsClosed (finalize_graph g)
unfolding finalize_graph
finalize_graph-IsClosed g = record {
  allowed = kept_edge g;
  call_ends = kept_call g;
  use_ends = kept_use g;
}
