-- ===== src/Ingest/Resolve.antt =====
-- `resolve_unresolved_edges` of src/ingest/mod.rs: what a cached declaration resolves.
pub mod Loops
pub mod Settled
use apg.Prelude.{
  Bool, true, false, not, ◌&&◌, ◌||◌, List, [], ◌∷◌, ◌++◌, map, filter, contains, insert, Map, ◌==◌,
  nat_eq, list_eq, pair_eq, triple_eq,
}
use apg.Text.{Text}
use apg.Graph.{NodeKind}
use apg.Ingest.Assembly.{GraphNode, EdgeSet, set_eq, Assembly}
use apg.Ingest.Admit.{add_edge, is_unresolved_kind}
use apg.Ingest.Finalize.{kind_is}

-- An unresolved call between functions, and an unresolved use of a type.
abbrev pub call_resolves : Map Text GraphNode → Text × Text × Text → Bool
call_resolves nodes (from, to, _) =
    kind_is nodes from NodeKind.function && kind_is nodes to NodeKind.function

abbrev pub use_resolves : Map Text GraphNode → Text × Text → Bool
use_resolves nodes (from, to) =
    (kind_is nodes from NodeKind.function || kind_is nodes from NodeKind.struct)
    && kind_is nodes to NodeKind.struct

abbrev pub ends_of : Text × Text × Text → Text × Text
ends_of (from, to, _) = (from, to)

-- The two loops over what resolves.
unfoldable pub resolve_calls : List (Text × Text) → Assembly → Assembly
resolve_calls [] g = g
resolve_calls (pair ∷ pairs) g = resolve_calls pairs (
    add_edge EdgeSet.calls pair
      (record g { unresolved_calls = filter (λ u. not (ends_of u == pair)) g.unresolved_calls }))

unfoldable pub resolve_uses : List (Text × Text) → Assembly → Assembly
resolve_uses [] g = g
resolve_uses (pair ∷ pairs) g = resolve_uses pairs (
    add_edge EdgeSet.uses pair
      (record g { unresolved_uses = filter (λ u. not (u == pair)) g.unresolved_uses }))

-- The targets that some unresolved edge still names.
abbrev pub referenced : Assembly → List Text
referenced g = map (λ u. u.1) g.unresolved_calls ++ map (λ u. u.1) g.unresolved_uses

abbrev pub keep_target : List Text → Text × GraphNode → Bool
keep_target names (fqn, node) = not (is_unresolved_kind node.kind) || contains names fqn

unfoldable pub resolve_unresolved_edges : Assembly → Assembly
resolve_unresolved_edges g =
    let calls = map ends_of (filter (call_resolves g.nodes) g.unresolved_calls) in
    let after_calls = resolve_calls calls g in
    let uses = filter (use_resolves after_calls.nodes) after_calls.unresolved_uses in
    let resolved = resolve_uses uses after_calls in
    record resolved { nodes = filter (keep_target (referenced resolved)) resolved.nodes }
