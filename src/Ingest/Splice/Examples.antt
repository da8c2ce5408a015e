-- ===== src/Ingest/Splice/Examples.antt =====
-- A visited file that calls into a file that is reused.
use apg.Prelude.{◌≡◌, [], ◌∷◌, none, some, nat_eq, list_eq, ◌==◌, if◌then◌else◌}
use apg.Text.{codes}
use apg.Graph.{NodeKind}
use apg.Cache.Fragment.{FileFragment, stored_node}
use apg.Ingest.Outcome.{ok}
use apg.Ingest.Assembly.{default_node, Assembly}
use apg.Ingest.Finalize.Valid.{IsClosed}
use apg.Ingest.Splice.{Reuse, merge_reuse}
use apg.Ingest.Splice.Returns.{merge_reuse-IsClosed}

-- `m`, which is planned, gets the function `m.f` of the file that is reused, and `n.g` waits for it.
abbrev visited : Assembly
visited = record {
  nodes =
      (codes "n.g", default_node NodeKind.function)
      ∷ (codes "m.f", default_node NodeKind.unresolved_target)
      ∷ (codes "m", record (default_node NodeKind.module_) { status = some (codes "planned") })
      ∷ [];
  edges = λ s. [];
  unresolved_calls = (codes "n.g", codes "m.f", codes "function") ∷ [];
  unresolved_uses = [];
  edge_properties = [];
}

abbrev unit : FileFragment
unit = record {
  rel_path = codes "m.rs";
  blob_oid = codes "0f";
  lang = codes "rust";
  modules = codes "m" ∷ [];
  nodes =
      stored_node (codes "m.rs") (default_node NodeKind.file)
      ∷ stored_node (codes "m.f") (default_node NodeKind.function)
      ∷ [];
  edges =
      record { kind = codes "contains"; from = codes "m"; to = codes "m.rs"; target_type = [] }
      ∷ record { kind = codes "contains"; from = codes "m.rs"; to = codes "m.f"; target_type = [] }
      ∷ [];
  inputs = codes "m" ∷ [];
}

abbrev sample_reuse : Reuse
sample_reuse = record {
  files = (codes "m.rs", codes "rust", codes "0f") ∷ (codes "o.rs", codes "rust", codes "1f") ∷ [];
  load_reusable = λ lang rel oid. if rel == codes "m.rs" then some (unit, codes "/a") else none;
  skipped_langs = codes "py" ∷ [];
  scaffolding = λ lang. some (record {
    modules = codes "m" ∷ codes "p" ∷ [];
    edges = [];
    languages = codes "py" ∷ [];
    language_edges = (codes "py", codes "p") ∷ [];
  });
  reader_root = codes "/b";
}

merge_reuse-IsClosed_example :
    (h : Assembly) × (merge_reuse (some sample_reuse) visited ≡ ok h) × IsClosed h
merge_reuse-IsClosed_example = merge_reuse-IsClosed sample_reuse visited
