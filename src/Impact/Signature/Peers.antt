-- ===== src/Impact/Signature/Peers.antt =====
-- Overload peers: the files that declare a function of one scope.
use apg.Prelude.{
  ◌≡◌, ◌↔◌, refl, ◌∙◌, sym, true, List, [], Option, none, some, arith, contains, contains-extend,
  filter_map-from, filter_map-contains, Member, ==_iff, nat_eq, list_eq, Bool-cases, inl, inr,
  extend,
}
use apg.Text.{Text}
use apg.Graph.{Graph, Node, Location, is_function}
use apg.Impact.Signature.{
  overload_key, located_at, parent_of, scope_here, overload_groups_of_file, peer_path, peer_here,
  overload_peer_files,
}

-- A function of the scope is declared in the file.
pub record Declares (graph : Graph) (path scope : Text) : Type 0 where
  pub fqn : Text
  pub node : Node
  pub name : Text
  pub member : Member (fqn, node) graph.nodes
  pub callable : is_function node.kind ≡ true
  pub here : located_at path node.location ≡ true
  pub key : overload_key fqn ≡ some (scope, name)

scope_of_key :
    (scope : Text) (k : Option (Text × Text))
    → parent_of k ≡ some scope
    → (name : Text) × (k ≡ some (scope, name))
scope_of_key scope none h = cc
scope_of_key scope (some (parent, name)) h = (name, cc h)

scope_here-eq-some :
    (path scope fqn : Text) (node : Node)
    → scope_here path (fqn, node) ≡ some scope
    → (is_function node.kind ≡ true)
      × (located_at path node.location ≡ true)
      × (parent_of (overload_key fqn) ≡ some scope)
scope_here-eq-some path scope fqn node h = ground arith

scope_of_peer :
    (scopes : List Text) (path : Text) (k : Option (Text × Text)) (l : Option Location)
    → peer_path scopes k l ≡ some path
    → (scope : Text) × (name : Text) × (k ≡ some (scope, name))
      × (contains scopes scope ≡ true)
      × (located_at path l ≡ true)
scope_of_peer scopes path none l h = cc
scope_of_peer scopes path (some (scope, name)) none h = cc
scope_of_peer scopes path (some (scope, name)) (some loc) h =
    (scope, name, refl, ground arith, ground (arith, ==_iff loc.path path))

peer_of_scope :
    (scopes : List Text) (path scope name : Text) (l : Option Location)
    → contains scopes scope ≡ true
    → located_at path l ≡ true
    → peer_path scopes (some (scope, name)) l ≡ some path
peer_of_scope scopes path scope name none m h = cc
peer_of_scope scopes path scope name (some loc) m h = ground (arith, ==_iff loc.path path)

peer_here-eq-some :
    (scopes : List Text) (path fqn : Text) (node : Node)
    → peer_here scopes (fqn, node) ≡ some path
    → (is_function node.kind ≡ true)
      × (peer_path scopes (overload_key fqn) node.location ≡ some path)
peer_here-eq-some scopes path fqn node h = elim (Bool-cases (is_function node.kind)) [
  | inl e ↦ (e, rw e at h)
  | inr e ↦ cc (rw e at h)
]

contains-collect : (xs : List Text) (a : Text) → contains (extend [] xs) a ≡ contains xs a
contains-collect xs a = contains-extend [] xs a

module _ (graph : Graph) where
  -- The scopes of a file are those of the functions that it declares.
  pub overload_groups_of_file_iff :
      (path scope : Text)
      → (contains (overload_groups_of_file graph path) scope ≡ true) ↔ Declares graph path scope
  unfolding overload_groups_of_file
  overload_groups_of_file_iff path scope = (
    λ h.
        let ((fqn, node), m, e) =
          filter_map-from (scope_here path) graph.nodes scope
            (sym (contains-collect _ scope) ∙ h) in
        let (f, l, k) = scope_here-eq-some path scope fqn node e in
        let (name, key) = scope_of_key scope (overload_key fqn) k in
        record {
          fqn = fqn;
          node = node;
          name = name;
          member = m;
          callable = f;
          here = l;
          key = key;
        },
    λ d.
        contains-collect _ scope
        ∙ filter_map-contains (scope_here path) graph.nodes scope (d.fqn, d.node) d.member
            (cc (d.callable, d.here, d.key)),
  )

  -- The peers of a set of scopes are the files that declare a function of one of them.
  pub overload_peer_files_iff :
      (scopes : List Text) (path : Text)
      → (contains (overload_peer_files graph scopes) path ≡ true)
        ↔ ((scope : Text) × (contains scopes scope ≡ true) × Declares graph path scope)
  unfolding overload_peer_files
  overload_peer_files_iff scopes path = (
    λ h.
        let ((fqn, node), m, e) =
          filter_map-from (peer_here scopes) graph.nodes path (sym (contains-collect _ path) ∙ h) in
        let (f, p) = peer_here-eq-some scopes path fqn node e in
        let (scope, name, key, found, l) =
          scope_of_peer scopes path (overload_key fqn) node.location p in
        (
          scope,
          found,
          record {
            fqn = fqn;
            node = node;
            name = name;
            member = m;
            callable = f;
            here = l;
            key = key;
          },
        ),
    λ (scope, found, d).
        contains-collect _ path
        ∙ filter_map-contains (peer_here scopes) graph.nodes path (d.fqn, d.node) d.member
            (rw (d.callable, d.key)
              (peer_of_scope scopes path scope d.name d.node.location found d.here)),
  )
