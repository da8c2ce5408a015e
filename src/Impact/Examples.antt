-- ===== src/Impact/Examples.antt =====
-- A graph of three files: `b.rs` calls into `a.rs`, and `c.rs` into `b.rs`.
use apg.Prelude.{
  List, ◌≡◌, refl, ◌↔◌, ◌⊎◌, true, false, [], ◌∷◌, some, contains, any, intersection, entry, lookup,
  nat_eq, list_eq,
}
use apg.Text.{Text, codes}
use apg.Graph.{Graph, Node, NodeKind}
use apg.Impact.DepIndex.{DepIndex, from_graph, file_of, references, dep_index_rel}
use apg.Impact.Closure.{reverse_closure}
use apg.Impact.Closure.Correct.{Depends, reverse_closure_iff}
use apg.Impact.Edges.{edge_linked, from_graph-entry}
use apg.Impact.Signature.{signature_eq, signature_unchanged, SignatureMap, signature_changed_files}
use apg.Impact.Signature.Declared.{DeclaresFunction, DeclaresStruct, signature_unchanged_iff}
use apg.Impact.Signature.Delta.{entry_changed, signature_changed_files-contains}
use apg.Impact.TargetSet.{target_set}
use apg.Impact.TargetSet.Correct.{IsPeer, target_set_iff, target_set-dependents}

abbrev function_in : Text → Node
function_in file = record {
  kind = NodeKind.function;
  location = some (record { path = file; start = 0; end = 9; start_line = 1; end_line = 2 });
  params = [];
}

abbrev a_rs : Text
a_rs = codes "a.rs"

abbrev b_rs : Text
b_rs = codes "b.rs"

abbrev c_rs : Text
c_rs = codes "c.rs"

abbrev sample : Graph
sample = record {
  nodes =
      (codes "rust.a.f", function_in a_rs)
      ∷ (codes "rust.b.g", function_in b_rs)
      ∷ (codes "rust.c.h", function_in c_rs)
      ∷ [];
  calls = (codes "rust.b.g", codes "rust.a.f") ∷ (codes "rust.c.h", codes "rust.b.g") ∷ [];
  uses = [];
  unresolved_calls = (codes "rust.a.f", codes "println", []) ∷ [];
  unresolved_uses = [];
}

abbrev index : DepIndex
index = dep_index_rel ((b_rs, a_rs) ∷ (c_rs, b_rs) ∷ [])

reverse_closure_iff_example :
    (contains (reverse_closure index (a_rs ∷ [])) c_rs ≡ true) ↔ ∥ Depends index (a_rs ∷ []) c_rs ∥₁
reverse_closure_iff_example = reverse_closure_iff index (a_rs ∷ []) c_rs

from_graph-entry_example :
    (contains (entry b_rs (from_graph sample).forward) a_rs
      ≡ any (edge_linked (file_of sample.nodes) b_rs a_rs) (references sample))
    × (contains (entry a_rs (from_graph sample).reverse) b_rs
        ≡ contains (entry b_rs (from_graph sample).forward) a_rs)
from_graph-entry_example = from_graph-entry sample b_rs a_rs

signature_unchanged_iff_example : (signature_unchanged sample sample a_rs ≡ true) ↔ (
    ((fqn : Text) (params : List Text)
      → DeclaresFunction sample a_rs fqn params ↔ DeclaresFunction sample a_rs fqn params)
    × ((fqn : Text) → DeclaresStruct sample a_rs fqn ↔ DeclaresStruct sample a_rs fqn))
signature_unchanged_iff_example = signature_unchanged_iff sample sample a_rs

abbrev old_map : SignatureMap
old_map = (a_rs, []) ∷ (b_rs, []) ∷ []

abbrev new_map : SignatureMap
new_map = (b_rs, []) ∷ (c_rs, []) ∷ []

signature_changed_files-contains_example :
    contains (signature_changed_files old_map new_map) c_rs
    ≡ entry_changed (lookup c_rs old_map) (lookup c_rs new_map)
signature_changed_files-contains_example =
    signature_changed_files-contains old_map new_map c_rs (refl, (refl, tt))

target_set_iff_example :
    (contains (target_set (a_rs ∷ []) (a_rs ∷ []) index sample).files c_rs ≡ true)
    ↔ ∥ (contains (a_rs ∷ []) c_rs ≡ true)
        ⊎ Depends index (intersection (a_rs ∷ []) (a_rs ∷ [])) c_rs
        ⊎ IsPeer sample (a_rs ∷ []) c_rs ∥₁
target_set_iff_example = target_set_iff (a_rs ∷ []) (a_rs ∷ []) index sample c_rs

target_set-dependents_example :
    (contains (target_set (a_rs ∷ []) (a_rs ∷ []) index sample).dependents c_rs ≡ true)
    ↔ ∥ Depends index (intersection (a_rs ∷ []) (a_rs ∷ [])) c_rs
        × (contains (a_rs ∷ []) c_rs ≡ false) ∥₁
target_set-dependents_example = target_set-dependents (a_rs ∷ []) (a_rs ∷ []) index sample c_rs
