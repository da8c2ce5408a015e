-- ===== src/Ingest/Assembly.antt =====
-- The graph that the ingestor assembles: the nodes of src/graph.rs with all their columns, and the
-- edge sets of `Graph`, one for each name.
use apg.Prelude.{
  ℕ, Bool, true, ◌≡◌, refl, List, [], ◌∷◌, Option, none, some, nat_beq, nat_beq_only,
  nat_beq_itself, Eq, get_elem?, Map, nat_eq, list_eq, ap,
}
use apg.Text.{Text}
use apg.Schema.{NodeProperties}
use apg.Graph.{NodeKind, Location}

pub record GraphNode : Type 0 where
  pub kind : NodeKind
  pub location : Option Location
  pub params : List Text
  pub category : Option Text
  pub code_type : Text
  pub title : Option Text
  pub id : Option Text
  pub name : Option Text
  pub root : Option Text
  pub attribute : Option Text
  pub feature : Option Text
  pub body : Option Text
  pub number : Option ℕ
  pub sub_kind : Option Text
  pub deliverable : Option Text
  pub strategy : Option Text
  pub status : Option Text
  pub disposition : Option Text
  pub git_sha : Option Text
  pub git_clean : Option Bool
  pub content_key : Option Text
  pub scanned_at : Option Text
  pub properties : NodeProperties

-- `Node { kind, ..Node::default() }`
abbrev pub default_node : NodeKind → GraphNode
default_node kind = record {
  kind = kind;
  location = none;
  params = [];
  category = none;
  code_type = [];
  title = none;
  id = none;
  name = none;
  root = none;
  attribute = none;
  feature = none;
  body = none;
  number = none;
  sub_kind = none;
  deliverable = none;
  strategy = none;
  status = none;
  disposition = none;
  git_sha = none;
  git_clean = none;
  content_key = none;
  scanned_at = none;
  properties = [];
}

-- The sets of pairs among the fields of `Graph`.
pub data EdgeSet : Type 0 where
  contains calls uses details applies_to reviews gates satisfies driven_by : EdgeSet
  represents spec_implemented_by publishes subscribes requires reads writes : EdgeSet
  is_role realises assigned_to implements target module_create module_modify : EdgeSet
  module_delete module_move module_rename file_create file_modify file_delete : EdgeSet
  file_move file_rename struct_create struct_modify struct_delete struct_move : EdgeSet
  struct_rename function_create function_modify function_delete function_move : EdgeSet
  function_rename : EdgeSet

abbrev edge_sets : List EdgeSet
edge_sets =
    contains ∷ calls ∷ uses ∷ details ∷ applies_to ∷ reviews ∷ gates ∷ satisfies ∷ driven_by
    ∷ represents ∷ spec_implemented_by ∷ publishes ∷ subscribes ∷ requires ∷ reads ∷ writes
    ∷ is_role ∷ realises ∷ assigned_to ∷ implements ∷ target ∷ module_create ∷ module_modify
    ∷ module_delete ∷ module_move ∷ module_rename ∷ file_create ∷ file_modify ∷ file_delete
    ∷ file_move ∷ file_rename ∷ struct_create ∷ struct_modify ∷ struct_delete ∷ struct_move
    ∷ struct_rename ∷ function_create ∷ function_modify ∷ function_delete ∷ function_move
    ∷ function_rename ∷ []

abbrev pub set_code : EdgeSet → ℕ
set_code contains = 0
set_code calls = 1
set_code uses = 2
set_code details = 3
set_code applies_to = 4
set_code reviews = 5
set_code gates = 6
set_code satisfies = 7
set_code driven_by = 8
set_code represents = 9
set_code spec_implemented_by = 10
set_code publishes = 11
set_code subscribes = 12
set_code requires = 13
set_code reads = 14
set_code writes = 15
set_code is_role = 16
set_code realises = 17
set_code assigned_to = 18
set_code implements = 19
set_code target = 20
set_code module_create = 21
set_code module_modify = 22
set_code module_delete = 23
set_code module_move = 24
set_code module_rename = 25
set_code file_create = 26
set_code file_modify = 27
set_code file_delete = 28
set_code file_move = 29
set_code file_rename = 30
set_code struct_create = 31
set_code struct_modify = 32
set_code struct_delete = 33
set_code struct_move = 34
set_code struct_rename = 35
set_code function_create = 36
set_code function_modify = 37
set_code function_delete = 38
set_code function_move = 39
set_code function_rename = 40

listed : (s : EdgeSet) → get_elem? edge_sets (set_code s) ≡ some s
listed contains = refl
listed _ = refl

pub same_set : (s t : EdgeSet) → nat_beq (set_code s) (set_code t) ≡ true → s ≡ t
same_set s t h =
    cc (listed s, listed t, ap (get_elem? edge_sets) (nat_beq_only (set_code s) (set_code t) h))

instance abbrev pub set_eq : Eq EdgeSet
set_eq = record {
  same = λ s t. nat_beq (set_code s) (set_code t);
  only = same_set;
  itself = λ s. nat_beq_itself (set_code s);
}

pub record Assembly : Type 0 where
  pub nodes : Map Text GraphNode
  pub edges : EdgeSet → List (Text × Text)
  pub unresolved_calls : List (Text × Text × Text)
  pub unresolved_uses : List (Text × Text)
  pub edge_properties : Map (Text × Text × Text) NodeProperties
