-- ===== src/Schema.antt =====
-- The records of the scanner's stream, from src/schema.rs.
use apg.Prelude.{ℕ, Bool, List, Option, Map}
use apg.Text.{Text}

-- `layers::NodeProperties`
abbrev pub NodeProperties : Type 0
NodeProperties = Map Text Text

pub data Record : Type 0 where
  module_ : (fqn : Text) → Record
  struct : (id parent name path : Text) (start end start_line end_line : ℕ) → Record
  function :
      (id parent name : Text) (params : List Text) (file path : Text)
      (start end start_line end_line : ℕ)
      → Record
  file : (path parent : Text) (start_line end_line : ℕ) → Record
  agent : (name path : Text) (start_line end_line : ℕ) → Record
  unresolved : (fqn : Text) (category : Option Text) → Record
  lang_switch : (language : Text) → Record
  scan_meta :
      (git_sha : Option Text) (git_clean : Option Bool) (content_key : Option Text)
      (scanned_at : Text)
      → Record
  contains : (from to : Text) (properties : NodeProperties) → Record
  calls : (from to : Text) (properties : NodeProperties) → Record
  uses : (from to : Text) (properties : NodeProperties) → Record
  unresolved_call : (from to target_type : Text) → Record
  unresolved_use : (from to : Text) → Record
  requirement : (fqn id title body feature : Text) (properties : NodeProperties) → Record
  planned_node : (fqn kind name parent : Text) → Record
  stakeholder : (fqn name body : Text) (properties : NodeProperties) → Record
  entity : (fqn name body : Text) (properties : NodeProperties) → Record
  system : (fqn name body : Text) (properties : NodeProperties) → Record
  container : (fqn name kind body : Text) (properties : NodeProperties) → Record
  component : (fqn name body : Text) (properties : NodeProperties) → Record
  user : (fqn name body : Text) (properties : NodeProperties) → Record
  group : (fqn name attribute root body : Text) (properties : NodeProperties) → Record
  value : (fqn name body : Text) (properties : NodeProperties) → Record
  service : (fqn name body : Text) (properties : NodeProperties) → Record
  person : (fqn name body : Text) (properties : NodeProperties) → Record
  actor : (fqn name body : Text) (properties : NodeProperties) → Record
  role : (fqn name body : Text) (properties : NodeProperties) → Record
  constraint : (fqn name body : Text) (properties : NodeProperties) → Record
  note : (fqn body kind : Text) (properties : NodeProperties) → Record
  feedback : (fqn body status disposition : Text) → Record
  plan : (fqn title strategy : Text) → Record
  plan_phase : (fqn : Text) (number : ℕ) (title deliverable status : Text) → Record
  task : (fqn title status : Text) → Record
  assigned_to : (from to : Text) → Record
  implements : (from to : Text) → Record
  target : (from to : Text) → Record
  module_create : (from to : Text) → Record
  module_modify : (from to : Text) → Record
  module_delete : (from to : Text) → Record
  module_move : (from to : Text) → Record
  module_rename : (from to : Text) → Record
  file_create : (from to : Text) → Record
  file_modify : (from to : Text) → Record
  file_delete : (from to : Text) → Record
  file_move : (from to : Text) → Record
  file_rename : (from to : Text) → Record
  struct_create : (from to : Text) → Record
  struct_modify : (from to : Text) → Record
  struct_delete : (from to : Text) → Record
  struct_move : (from to : Text) → Record
  struct_rename : (from to : Text) → Record
  function_create : (from to : Text) → Record
  function_modify : (from to : Text) → Record
  function_delete : (from to : Text) → Record
  function_move : (from to : Text) → Record
  function_rename : (from to : Text) → Record
  details : (from to : Text) (properties : NodeProperties) → Record
  applies_to : (from to : Text) (properties : NodeProperties) → Record
  reviews : (from to : Text) → Record
  gates : (from to : Text) → Record
  satisfies : (from to : Text) → Record
  driven_by : (from to : Text) (properties : NodeProperties) → Record
  represents : (from to : Text) (properties : NodeProperties) → Record
  spec_implemented_by : (from to : Text) (properties : NodeProperties) → Record
  publishes : (from to : Text) (properties : NodeProperties) → Record
  subscribes : (from to : Text) (properties : NodeProperties) → Record
  requires : (from to : Text) (properties : NodeProperties) → Record
  reads : (from to : Text) (properties : NodeProperties) → Record
  writes : (from to : Text) (properties : NodeProperties) → Record
  is_role : (from to : Text) (properties : NodeProperties) → Record
  realises : (from to : Text) (properties : NodeProperties) → Record
