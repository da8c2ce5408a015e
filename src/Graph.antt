-- ===== src/Graph.antt =====
-- The resolved program graph of src/graph.rs: the nodes and the edge sets that the impact closure
-- reads. The authored tiers' edge sets and the descriptive columns of a node are left out.
use apg.Prelude.{ℕ, Bool, true, false, List, Option, Map}
use apg.Text.{Text}

pub data NodeKind : Type 0 where
  module_ struct function file unresolved_target language requirement note feedback : NodeKind
  plan plan_phase task stakeholder user group entity value service system container : NodeKind
  component person actor role constraint agent scan : NodeKind

pub record Location : Type 0 where
  pub path : Text
  pub start : ℕ
  pub end : ℕ
  pub start_line : ℕ
  pub end_line : ℕ

pub record Node : Type 0 where
  pub kind : NodeKind
  pub location : Option Location
  pub params : List Text

pub record Graph : Type 0 where
  pub nodes : Map Text Node
  pub calls : List (Text × Text)
  pub uses : List (Text × Text)
  pub unresolved_calls : List (Text × Text × Text)
  pub unresolved_uses : List (Text × Text)

-- `node.kind == NodeKind::Function`, `NodeKind::Struct`
abbrev pub is_function : NodeKind → Bool
is_function function = true
is_function _ = false

abbrev pub is_struct : NodeKind → Bool
is_struct struct = true
is_struct _ = false
