-- ===== src/Ingest/SpecRows.antt =====
-- The records of the stream that carry a node of the specs, the plans or the scan itself, and the
-- node that the arms of `ingest_records` build for each.
use apg.Prelude.{Option, none, some}
use apg.Text.{Text, codes}
use apg.Schema.{Record}
use apg.Graph.{NodeKind}
use apg.Ingest.Assembly.{GraphNode, default_node}
use apg.Ingest.Admit.{opt}

-- `SCAN_HEAD`
abbrev pub scan_head : Text
scan_head = codes "scan/HEAD"

-- The arms from the `User` records on.
unfoldable pub tier_row : Record → Option (Text × GraphNode)
tier_row (Record.user fqn name body properties) = some (
  fqn,
  record (default_node NodeKind.user) {
    name = some name;
    body = opt body;
    properties = properties;
  },
)
tier_row (Record.group fqn name attribute root body properties) = some (
  fqn,
  record (default_node NodeKind.group) {
    name = some name;
    attribute = opt attribute;
    root = opt root;
    body = opt body;
    properties = properties;
  },
)
tier_row (Record.value fqn name body properties) = some (
  fqn,
  record (default_node NodeKind.value) {
    name = some name;
    body = opt body;
    properties = properties;
  },
)
tier_row (Record.service fqn name body properties) = some (
  fqn,
  record (default_node NodeKind.service) {
    name = some name;
    body = opt body;
    properties = properties;
  },
)
tier_row (Record.person fqn name body properties) = some (
  fqn,
  record (default_node NodeKind.person) {
    name = some name;
    body = opt body;
    properties = properties;
  },
)
tier_row (Record.actor fqn name body properties) = some (
  fqn,
  record (default_node NodeKind.actor) {
    name = some name;
    body = opt body;
    properties = properties;
  },
)
tier_row (Record.role fqn name body properties) = some (
  fqn,
  record (default_node NodeKind.role) {
    name = some name;
    body = opt body;
    properties = properties;
  },
)
tier_row (Record.constraint fqn name body properties) = some (
  fqn,
  record (default_node NodeKind.constraint) {
    name = some name;
    body = opt body;
    properties = properties;
  },
)
tier_row (Record.note fqn body kind properties) = some (
  fqn,
  record (default_node NodeKind.note) {
    body = some body;
    sub_kind = opt kind;
    properties = properties;
  },
)
tier_row (Record.feedback fqn body status disposition) = some (
  fqn,
  record (default_node NodeKind.feedback) {
    body = some body;
    status = opt status;
    disposition = opt disposition;
  },
)
tier_row (Record.plan fqn title strategy) =
    some (fqn, record (default_node NodeKind.plan) { title = some title; strategy = opt strategy })
tier_row (Record.plan_phase fqn number title deliverable status) = some (
  fqn,
  record (default_node NodeKind.plan_phase) {
    number = some number;
    title = some title;
    deliverable = opt deliverable;
    status = opt status;
  },
)
tier_row (Record.task fqn title status) =
    some (fqn, record (default_node NodeKind.task) { title = some title; status = opt status })
tier_row _ = none

-- The arms before them.
unfoldable pub spec_row : Record → Option (Text × GraphNode)
spec_row (Record.scan_meta git_sha git_clean content_key scanned_at) = some (
  scan_head,
  record (default_node NodeKind.scan) {
    git_sha = git_sha;
    git_clean = git_clean;
    content_key = content_key;
    scanned_at = some scanned_at;
  },
)
spec_row (Record.requirement fqn id title body feature properties) = some (
  fqn,
  record (default_node NodeKind.requirement) {
    id = opt id;
    title = some title;
    body = opt body;
    feature = opt feature;
    properties = properties;
  },
)
spec_row (Record.stakeholder fqn name body properties) = some (
  fqn,
  record (default_node NodeKind.stakeholder) {
    name = some name;
    body = opt body;
    properties = properties;
  },
)
spec_row (Record.entity fqn name body properties) = some (
  fqn,
  record (default_node NodeKind.entity) {
    name = some name;
    body = opt body;
    properties = properties;
  },
)
spec_row (Record.system fqn name body properties) = some (
  fqn,
  record (default_node NodeKind.system) {
    name = some name;
    body = opt body;
    properties = properties;
  },
)
spec_row (Record.container fqn name kind body properties) = some (
  fqn,
  record (default_node NodeKind.container) {
    name = some name;
    sub_kind = opt kind;
    body = opt body;
    properties = properties;
  },
)
spec_row (Record.component fqn name body properties) = some (
  fqn,
  record (default_node NodeKind.component) {
    name = some name;
    body = opt body;
    properties = properties;
  },
)
spec_row r = tier_row r
