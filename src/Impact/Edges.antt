-- ===== src/Impact/Edges.antt =====
-- What the dependency index records: the two maps are each other's transpose, and hold the edges
-- between files and no others.
use apg.Prelude.{
  ◌≡◌, refl, Bool, false, not, ◌&&◌, ◌||◌, List, [], ◌∷◌, ◌++◌, Option, none, some, arith, map,
  contains, any, any-append, is_empty, Map, lookup, entry, entry_insert, contains-entry_insert,
  IsMap, IsMap-entry_insert, linked, linked-entry, ==_iff, nat_eq, list_eq, ◌==◌,
}
use apg.Text.{Text}
use apg.Graph.{Graph}
use apg.Impact.DepIndex.{
  DepIndex, empty_index, file_of, edge_of_files, edge_files, edges_files, drop_type,
  reverse_of_file, reverse_of, references, from_graph, rel_edges, dep_index_rel,
}

-- The endpoints' files are `f` and `d`, and these are two files.
abbrev pub files_linked : Text → Text → Option Text → Option Text → Bool
files_linked f d (some fa) (some fb) =
    fa == f && fb == d && not (fa == fb) && not (is_empty fa) && not (is_empty fb)
files_linked f d _ _ = false

abbrev pub edge_linked : Map Text Text → Text → Text → Text × Text → Bool
edge_linked files f d (a, b) = files_linked f d (lookup a files) (lookup b files)

module _ (f d : Text) where
  edge_files-entry :
      (files : Map Text Text) (a b : Text) (m : Map Text (List Text))
      → contains (entry f (edge_files files a b m)) d
        ≡ (edge_linked files f d (a, b) || contains (entry f m) d)
  unfolding edge_files edge_of_files
  edge_files-entry files a b m = step (lookup a files) (lookup b files)
    where
      step :
          (x y : Option Text)
          → contains (entry f (edge_of_files x y m)) d
            ≡ (files_linked f d x y || contains (entry f m) d)
      step none y = refl
      step (some fa) none = refl
      step (some fa) (some fb) =
          ground (arith, contains-entry_insert fa f fb d m, ==_iff fa f, ==_iff fb d, ==_iff fa fb)

  edges_files-entry :
      (files : Map Text Text) (es : List (Text × Text)) (m : Map Text (List Text))
      → contains (entry f (edges_files files es m)) d
        ≡ (any (edge_linked files f d) es || contains (entry f m) d)
  unfolding edges_files
  edges_files-entry files [] m = refl
  edges_files-entry files ((a, b) ∷ es) m =
      ground
        (arith, edges_files-entry files es (edge_files files a b m), edge_files-entry files a b m)

  reverse_of_file-entry :
      (g : Text) (deps : List Text) (m : Map Text (List Text))
      → contains (entry d (reverse_of_file g deps m)) f
        ≡ ((g == f && contains deps d) || contains (entry d m) f)
  unfolding reverse_of_file
  reverse_of_file-entry g [] m = ground arith
  reverse_of_file-entry g (x ∷ deps) m =
      ground
        (arith, reverse_of_file-entry g deps (entry_insert x g m), contains-entry_insert x d g f m)

  reverse_of-entry :
      (forward m : Map Text (List Text))
      → contains (entry d (reverse_of forward m)) f ≡ (linked f d forward || contains (entry d m) f)
  unfolding reverse_of
  reverse_of-entry [] m = refl
  reverse_of-entry ((g, deps) ∷ forward) m =
      ground
        (arith, reverse_of-entry forward (reverse_of_file g deps m), reverse_of_file-entry g deps m)

edge_files-IsMap :
    (files : Map Text Text) (a b : Text) (m : Map Text (List Text))
    → IsMap m
    → IsMap (edge_files files a b m)
unfolding edge_files edge_of_files
edge_files-IsMap files a b m h = step (lookup a files) (lookup b files)
  where
    step : (x y : Option Text) → IsMap (edge_of_files x y m)
    step none y = h
    step (some fa) none = h
    step (some fa) (some fb) = ground (arith, IsMap-entry_insert fa fb m h)

edges_files-IsMap :
    (files : Map Text Text) (es : List (Text × Text)) (m : Map Text (List Text))
    → IsMap m
    → IsMap (edges_files files es m)
unfolding edges_files
edges_files-IsMap files [] m h = h
edges_files-IsMap files ((a, b) ∷ es) m h =
    edges_files-IsMap files es (edge_files files a b m) (edge_files-IsMap files a b m h)

-- A file depends on another in the index of a graph exactly if some call, use or unresolved
-- reference leads from a symbol of the one to a symbol of the other; and then, and only then, it is
-- among the other's dependents.
pub from_graph-entry :
    (graph : Graph) (f d : Text)
    → (contains (entry f (from_graph graph).forward) d
        ≡ any (edge_linked (file_of graph.nodes) f d) (references graph))
      × (contains (entry d (from_graph graph).reverse) f
          ≡ contains (entry f (from_graph graph).forward) d)
unfolding from_graph
from_graph-entry graph f d =
    let files = file_of graph.nodes in
    let calls = graph.calls in
    let uses = graph.uses in
    let types = map drop_type graph.unresolved_calls in
    let rest = graph.unresolved_uses in
    let m1 = edges_files files calls [] in
    let m2 = edges_files files uses m1 in
    let m3 = edges_files files types m2 in
    let m4 = edges_files files rest m3 in
    let p = edge_linked files f d in
    let one_entry = edges_files-IsMap files rest m3 (
      edges_files-IsMap files types m2
        (edges_files-IsMap files uses m1 (edges_files-IsMap files calls [] tt))) in
    (
      ground (
        arith,
        edges_files-entry f d files calls [],
        edges_files-entry f d files uses m1,
        edges_files-entry f d files types m2,
        edges_files-entry f d files rest m3,
        any-append p (calls ++ uses ++ types) rest,
        any-append p (calls ++ uses) types,
        any-append p calls uses,
      ),
      ground (arith, reverse_of-entry f d m4 [], linked-entry f d m4 one_entry),
    )

-- An edge from `f` to `d`.
abbrev pub is_edge : Text → Text → Text × Text → Bool
is_edge f d (a, b) = a == f && b == d

rel_edges-entry :
    (edges : List (Text × Text)) (idx : DepIndex) (f d : Text)
    → (contains (entry f (rel_edges edges idx).forward) d
        ≡ (any (is_edge f d) edges || contains (entry f idx.forward) d))
      × (contains (entry d (rel_edges edges idx).reverse) f
          ≡ (any (is_edge f d) edges || contains (entry d idx.reverse) f))
unfolding rel_edges
rel_edges-entry [] idx f d = (refl, refl)
rel_edges-entry ((a, b) ∷ edges) idx f d =
    let idx' : DepIndex = record {
      forward = entry_insert a b idx.forward;
      reverse = entry_insert b a idx.reverse;
    } in
    ground (
      arith,
      rel_edges-entry edges idx' f d,
      contains-entry_insert a f b d idx.forward,
      contains-entry_insert b d a f idx.reverse,
    )

-- An index that is rebuilt from its persisted edges has these edges and no others, in both
-- directions.
pub dep_index_rel-entry :
    (edges : List (Text × Text)) (f d : Text)
    → (contains (entry f (dep_index_rel edges).forward) d ≡ any (is_edge f d) edges)
      × (contains (entry d (dep_index_rel edges).reverse) f ≡ any (is_edge f d) edges)
unfolding dep_index_rel
dep_index_rel-entry edges f d = ground (arith, rel_edges-entry edges empty_index f d)
