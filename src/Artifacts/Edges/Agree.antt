-- ===== src/Artifacts/Edges/Agree.antt =====
-- `edge_merge`, `edge_endpoints` and `node_fqn` on one record.
use mathlib.Core.Option
use apg.Prelude.{◌≡◌, refl, false, ◌&&◌, is_some}
use apg.Text.{Text}
use apg.Schema.{Record}
use apg.Artifacts.Edges.{EdgeRow, edge_merge, edge_endpoints, node_fqn}

abbrev pub ends : EdgeRow → Text × Text
ends row = (row.from, row.to)

-- `edge_merge` and `edge_endpoints` tell the same records for edges, with the same endpoints.
pub edge_merge-ends : (r : Record) → Option.map ends (edge_merge r) ≡ edge_endpoints r
unfolding edge_merge edge_endpoints
edge_merge-ends (Record.module_ _) = refl
edge_merge-ends _ = refl

-- No record has both a name and endpoints.
pub node_or_edge : (r : Record) → (is_some (node_fqn r) && is_some (edge_endpoints r)) ≡ false
unfolding node_fqn edge_endpoints
node_or_edge (Record.module_ _) = refl
node_or_edge _ = refl
