-- ===== src/Impact/Signature.antt =====
-- The exported signatures of src/impact/signature.rs. `rel` stands for `rel(root, ·)`, which makes
-- a path checkout-relative by `std::path`.
pub mod Delta
pub mod Peers
pub mod Declared
use apg.Prelude.{
  Bool, true, false, not, ◌&&◌, ◌||◌, ◌≡◌, List, [], ◌∷◌, Option, none, some, if◌then◌else◌, ◌==◌,
  ◌↔◌, Eq, nat_eq, list_eq, ==_iff, ==_refl, arith, is_empty, filter, filter_map, contains,
  insert_if, extend, difference, Map, lookup, has_key, entry, entry_insert,
}
use apg.Text.{Text, codes, split, rsplit_once}
use apg.Graph.{Graph, Node, NodeKind, Location, is_function}
use apg.Classify.Config.{texts}

pub data Granularity : Type 0 where
  package_ crate file project package_or_module : Granularity

unfoldable pub granularity : Text → Granularity
granularity language =
    if language == codes "java"
    then package_
    else if language == codes "go"
    then package_
    else if language == codes "rust"
    then crate
    else if contains (texts ("ts" ∷ "javascript" ∷ "js" ∷ [])) language
    then file
    else if contains (texts ("csharp" ∷ "c#" ∷ [])) language
    then project
    else if contains (texts ("python" ∷ "py" ∷ [])) language
    then package_or_module
    else file

pub record Signature : Type 0 where
  pub kind : Text
  pub fqn : Text
  pub params : List Text
  pub parent : Text

abbrev pub signature_beq : Signature → Signature → Bool
signature_beq s t =
    s.kind == t.kind && s.fqn == t.fqn && s.params == t.params && s.parent == t.parent

pub signature_beq_only : (s t : Signature) → signature_beq s t ≡ true → s ≡ t
signature_beq_only s t h = ground (
  arith,
  ==_iff s.kind t.kind,
  ==_iff s.fqn t.fqn,
  ==_iff s.params t.params,
  ==_iff s.parent t.parent,
)

pub signature_beq_itself : (s : Signature) → signature_beq s s ≡ true
signature_beq_itself s =
    ground (arith, ==_refl s.kind, ==_refl s.fqn, ==_refl s.params, ==_refl s.parent)

instance abbrev pub signature_eq : Eq Signature
signature_eq = record {
  same = signature_beq;
  only = signature_beq_only;
  itself = signature_beq_itself;
}

unfoldable pub kind_str : NodeKind → Text
kind_str NodeKind.module_ = codes "module"
kind_str NodeKind.file = codes "file"
kind_str NodeKind.struct = codes "struct"
kind_str NodeKind.function = codes "function"
kind_str _ = codes "unresolved"

-- `fqn` up to its last `(`, or all of it
unfoldable pub bare_name : Text → Text
bare_name fqn = elim (rsplit_once b'(' fqn) [ none ↦ fqn | some (before, _) ↦ before ]

-- (parent, simple name)
unfoldable pub overload_key : Text → Option (Text × Text)
unfolding bare_name
overload_key fqn = rsplit_once b'.' (bare_name fqn)

unfoldable pub signature_parent : Text → NodeKind → Text
signature_parent fqn NodeKind.function = elim (overload_key fqn) [
  | none ↦ fqn
  | some (parent, _) ↦ parent
]
signature_parent fqn _ = fqn

unfoldable pub params_of_node : Node → List Text
params_of_node node =
    if not (is_function node.kind)
    then []
    else if not (is_empty node.params)
    then node.params
    else []

-- `node.location.as_ref().is_some_and(|l| l.path == abs_path)`
abbrev pub located_at : Text → Option Location → Bool
located_at path none = false
located_at path (some loc) = loc.path == path

abbrev pub is_declaration : NodeKind → Bool
is_declaration NodeKind.struct = true
is_declaration NodeKind.function = true
is_declaration _ = false

unfoldable pub signature_of : Text → Node → Signature
signature_of fqn node = record {
  kind = kind_str node.kind;
  fqn = fqn;
  params = params_of_node node;
  parent = signature_parent fqn node.kind;
}

-- One round of the loop of `file_signature`.
abbrev pub signature_here : Text → Text × Node → Option Signature
signature_here path (fqn, node) =
    if is_declaration node.kind && located_at path node.location
    then some (signature_of fqn node)
    else none

unfoldable pub file_signature : Graph → Text → List Signature
file_signature graph path = extend [] (filter_map (signature_here path) graph.nodes)

pub record SignatureDelta : Type 0 where
  pub changed : List Signature
  pub removed : List Signature

unfoldable pub delta_is_empty : SignatureDelta → Bool
delta_is_empty d = is_empty d.changed && is_empty d.removed

unfoldable pub signature_delta : List Signature → List Signature → SignatureDelta
signature_delta old new = record { changed = difference new old; removed = difference old new }

unfoldable pub signature_unchanged : Graph → Graph → Text → Bool
signature_unchanged old new path =
    delta_is_empty (signature_delta (file_signature old path) (file_signature new path))

abbrev pub SignatureMap : Type 0
SignatureMap = Map Text (List Signature)

-- `==` of two sets
abbrev pub same_set : List Signature → List Signature → Bool
same_set s t = is_empty (difference s t) && is_empty (difference t s)

unfoldable pub changed_entry : Option (List Signature) → List Signature → Bool
changed_entry none new = true
changed_entry (some old) new = not (same_set old new)

unfoldable pub changed_or_added : SignatureMap → SignatureMap → List Text → List Text
unfolding changed_entry
changed_or_added old [] out = out
changed_or_added old ((rel, new) ∷ news) out =
    changed_or_added old news (insert_if (changed_entry (lookup rel old) new) rel out)

unfoldable pub vanished : SignatureMap → SignatureMap → List Text → List Text
vanished new [] out = out
vanished new ((rel, _) ∷ olds) out = vanished new olds (insert_if (not (has_key rel new)) rel out)

unfoldable pub signature_changed_files : SignatureMap → SignatureMap → List Text
unfolding changed_or_added vanished
signature_changed_files old new = vanished new old (changed_or_added old new [])

abbrev pub parent_of : Option (Text × Text) → Option Text
parent_of none = none
parent_of (some (parent, _)) = some parent

-- One round of the loop of `overload_groups_of_file`.
abbrev pub scope_here : Text → Text × Node → Option Text
scope_here path (fqn, node) =
    if is_function node.kind && located_at path node.location
    then parent_of (overload_key fqn)
    else none

unfoldable pub overload_groups_of_file : Graph → Text → List Text
overload_groups_of_file graph path = extend [] (filter_map (scope_here path) graph.nodes)

-- The path of a function node whose scope is one of `scopes`.
abbrev pub peer_path : List Text → Option (Text × Text) → Option Location → Option Text
peer_path scopes (some (parent, _)) (some loc) =
    if contains scopes parent then some loc.path else none
peer_path scopes _ _ = none

abbrev pub peer_here : List Text → Text × Node → Option Text
peer_here scopes (fqn, node) =
    if is_function node.kind then peer_path scopes (overload_key fqn) node.location else none

unfoldable pub overload_peer_files : Graph → List Text → List Text
overload_peer_files graph scopes = extend [] (filter_map (peer_here scopes) graph.nodes)
