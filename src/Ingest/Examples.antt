-- ===== src/Ingest/Examples.antt =====
-- Runs of the ingestor on small streams, and its theorems at concrete inputs.
use apg.Prelude.{
  ◌⊎◌, Member, ◌↔◌, ℕ, suc, ◌≡◌, ◌≢◌, refl, false, List, [], ◌∷◌, ◌++◌, Option, none, some, lookup,
  length, arith, ◌==◌, nat_eq, list_eq, if◌then◌else◌, contains, pair_eq,
}
use apg.Text.{strip_text, is_whitespace, Text, codes, split}
use apg.Text.Utf8.{as_bytes}
use apg.Schema.{Record, NodeProperties}
use apg.Graph.{NodeKind}
use apg.Ingest.Outcome.{Outcome, panic, ok, ◌>>=◌, from_ok, for_each}
use apg.Ingest.Spool.{Serde, write_edge, write_edges, read_edges, edge_fields}
use apg.Ingest.Spool.Roundtrip.{IsColumn, IsSpooled, read_edges-write_edges}
use apg.Ingest.Spool.Ends.{read_edges-total}
use apg.Ingest.Blacklist.{IngestOptions}
use apg.Ingest.Assembly.{GraphNode, default_node, EdgeSet, Assembly}
use apg.Ingest.Admit.{insert_over, insert_node, code_node}
use apg.Ingest.Admit.Converge.{insert_node-converges, insert_node-keeps}
use apg.Ingest.Resolve.{resolve_unresolved_edges}
use apg.Ingest.Resolve.Settled.{IsSettled, resolve_unresolved_edges-IsSettled}
use apg.Ingest.Records.{
  IngestReport, ingest_records, empty_graph, Passes, node_passes, start_stream,
}
use apg.Ingest.Records.Closed.{ingest_records-IsClosed}
use apg.Ingest.Records.Names.{id_to_fqn-injective}
use apg.Ingest.Finalize.Valid.{IsClosed}
use apg.Ingest.Render.Names.{Given, siblings, name_rule, render_function_fqns_iff}
use Prim.Native.String.{String}
use apg.Ingest.Stream.{FuncDecl, Stream, stream_record}
use apg.Classify.BuildOutput.{is_build_output_path}
use apg.Classify.Builtin.{
  has_seg, ends_in_any, js_bundle_filename, ladder, go_arm, java_arm, cpp_arm, rust_arm, ts_arm,
  js_arm, csharp_arm, py_arm, md_arm, language_arm, builtin_code_type,
}
use apg.Classify.CodeType.{
  simple_name, rule_matches, first_rule, structural_code_type, classify_code_type,
}
use apg.Classify.Config.{is_structural_language}
use apg.Classify.Glob.{skip_stars, retry, glob_loop, matches_glob}
use apg.Ingest.Admit.{claim, insert_over, insert_node, materialise_language, agent_node}
use apg.Ingest.Blacklist.{under_apg_layout, structural_identity, is_blacklisted}
use apg.Ingest.EdgePass.{
  target_edge, plain_edge, task_edge, admit_authored, admit_applies_to, admit_task_record,
  admit_unresolved_call, admit_unresolved_use, admit_other, admit_edge,
}
use apg.Ingest.Finalize.{
  valid_contains_pair, kind_is, kind_among, keep_contains, keep_edge, keep_unresolved_call,
  keep_unresolved_use, finalize_graph,
}
use apg.Ingest.Identity.{
  structural_scope_excludes, file_basename, slashed, trim_slashes, join_slash, identity_fallback,
  walk_components, identity_candidate, repo_relative_identity, root_module_fqn, rooted_scope,
  root_module_endpoint, has_module_prefix, root_edge_endpoint,
}
use apg.Ingest.Outcome.{from_ok}
use apg.Ingest.Records.{
  name_function, function_node, insert_function, insert_module, insert_language, attach_languages,
  attach_files, located, attach_located, attach_all, spooled_edges, edge_pass, node_passes,
  ingest_records,
}
use apg.Ingest.Render.{
  join_params, plain_name, init_name, overload_name, located_name, render_bucket, render_many,
  render_few, render_group, render_function_fqns,
}
use apg.Ingest.Resolve.{resolve_calls, resolve_uses, resolve_unresolved_edges}
use apg.Ingest.SpecRows.{tier_row, spec_row}
use apg.Ingest.Spool.{
  properties_from_json, write_str, write_edge_fields, edge_fields, task_edge_fields, write_edge,
  read_exact, read_str, decoded_edge, next_edge, read_edges, write_edges,
}
use apg.Ingest.Stream.{
  admit_unless, admit_first, planned_kind, stream_module, stream_struct, file_parent, stream_file,
  stream_planned, stream_unresolved, spool_record, stream_other, stream_record,
}
use apg.Text.{starts_with, ends_with, strip_suffix, to_ascii_lowercase, split, rsplit_once}
use apg.Text.Decimal.{decimal_digits, decimal, digits_value}
use apg.Text.Path.{components, strip_prefix, file_name}
use apg.Text.Utf8.{as_bytes, decode, from_utf8}

-- A codec for maps of at most one plain entry.
abbrev sample_string : NodeProperties → Text
sample_string [] = codes "{}"
sample_string ((k, v) ∷ _) = b'{' ∷ k ++ b'=' ∷ v ++ b'}' ∷ []

abbrev parts : List Text → Option NodeProperties
parts (_ ∷ k ∷ v ∷ _) = some ((k, v) ∷ [])
parts _ = none

abbrev sample_parse : Text → Option NodeProperties
sample_parse s =
    if s == codes "{}" then some [] else parts (split (λ c. contains (b'{' ∷ b'=' ∷ b'}' ∷ []) c) s)

abbrev sample_serde : Serde
sample_serde = record { to_string = sample_string; from_str = sample_parse }

abbrev call : Record
call = Record.calls (codes "a.f") (codes "b.é") ((codes "why", codes "x") ∷ [])

abbrev gate : Record
gate = Record.gates (codes "p/1") (codes "p/2")

call_columns :
    IsColumn (codes "a.f")
    × IsColumn (codes "b.é")
    × IsColumn []
    × IsColumn (sample_string ((codes "why", codes "x") ∷ []))
unfolding as_bytes
call_columns = (
  record { is_text = ground arith; fits = omega arith },
  record { is_text = ground arith; fits = omega arith },
  record { is_text = ground arith; fits = omega arith },
  record { is_text = ground arith; fits = omega arith },
)

gate_columns : IsColumn (codes "p/1") × IsColumn (codes "p/2") × IsColumn (codes "{}")
unfolding as_bytes
gate_columns = (
  record { is_text = ground arith; fits = omega arith },
  record { is_text = ground arith; fits = omega arith },
  record { is_text = ground arith; fits = omega arith },
)

call-IsSpooled : IsSpooled sample_serde call
unfolding edge_fields task_edge_fields split
call-IsSpooled = record {
  columns = record {
    tag = 1;
    from = codes "a.f";
    to = codes "b.é";
    target_type = [];
    properties = (codes "why", codes "x") ∷ [];
  };
  arm = refl;
  spoolable = record {
    from_column = call_columns.0;
    to_column = call_columns.1;
    target_column = call_columns.2;
    faithful = record { reads_back = refl; opens = (_, refl); column = call_columns.3 };
  };
}

gate-IsSpooled : IsSpooled sample_serde gate
unfolding edge_fields task_edge_fields split
gate-IsSpooled = record {
  columns = record {
    tag = 8;
    from = codes "p/1";
    to = codes "p/2";
    target_type = [];
    properties = [];
  };
  arm = refl;
  spoolable = record {
    from_column = gate_columns.0;
    to_column = gate_columns.1;
    target_column = call_columns.2;
    faithful = record { reads_back = refl; opens = (_, refl); column = gate_columns.2 };
  };
}

read_edges-write_edges_example :
    (bytes : List ℕ) × (write_edges sample_serde (call ∷ gate ∷ []) ≡ ok bytes)
    × (read_edges (suc (length bytes)) sample_serde bytes ≡ some (ok (call ∷ gate ∷ [])))
read_edges-write_edges_example =
    read_edges-write_edges sample_serde (call ∷ gate ∷ []) (call-IsSpooled, (gate-IsSpooled, tt))

read_edges-total_example : read_edges 3 sample_serde (200 ∷ 1 ∷ []) ≢ none
read_edges-total_example = read_edges-total 3 sample_serde (200 ∷ 1 ∷ []) (omega arith)

abbrev scanned : GraphNode
scanned = code_node NodeKind.struct (codes "src/a.rs") 10 90 2 9 (codes "src")

abbrev planned : GraphNode
planned = record (default_node NodeKind.struct) { status = some (codes "planned") }

abbrev bare : Assembly
bare = record {
  nodes = (codes "rust.b", default_node NodeKind.module_) ∷ [];
  edges = λ s. [];
  unresolved_calls = [];
  unresolved_uses = [];
  edge_properties = [];
}

insert_node-converges_example :
    (g1 g2 : Assembly) × ((insert_node (codes "rust.A") planned bare
        >>= insert_node (codes "rust.A") scanned)
      ≡ ok g1)
    × ((insert_node (codes "rust.A") scanned bare >>= insert_node (codes "rust.A") planned) ≡ ok g2)
    × ((f : Text)
        → (lookup f g1.nodes ≡ (if codes "rust.A" == f then some scanned else lookup f bare.nodes))
          × (lookup f g2.nodes ≡ lookup f g1.nodes))
insert_node-converges_example =
    insert_node-converges (codes "rust.A") scanned planned bare
      (record { known = refl; unplanned = refl }) (record { known = refl; planned = refl }) refl

insert_node-keeps_example :
    (insert_node (codes "rust.b") scanned bare ≡ panic)
    × ((insert_node (codes "rust.b") scanned bare ≡ panic)
        ⊎ ((t : Assembly) × (insert_node (codes "rust.b") scanned bare ≡ ok t)
            × (lookup (codes "rust.b") t.nodes ≡ some (default_node NodeKind.module_))))
insert_node-keeps_example =
    insert_node-keeps (codes "rust.b") (codes "rust.b") (default_node NodeKind.module_) scanned bare
      refl (record { known = refl; unplanned = refl })

-- Two declarations that are no placeholders do not share a name.
duplicate_panics : insert_node (codes "rust.b") scanned bare ≡ panic
unfolding insert_node insert_over
duplicate_panics = refl

-- A call that waited for a cached declaration.
abbrev waiting : Assembly
waiting = record bare {
  nodes =
      (codes "f", default_node NodeKind.function)
      ∷ (codes "g", default_node NodeKind.function)
      ∷ (codes "h", default_node NodeKind.unresolved_target)
      ∷ [];
  unresolved_calls = (codes "f", codes "g", []) ∷ [];
}

resolve_unresolved_edges-IsSettled_example : IsSettled waiting (resolve_unresolved_edges waiting)
resolve_unresolved_edges-IsSettled_example =
    resolve_unresolved_edges-IsSettled waiting (refl, (refl, (refl, tt)))

abbrev options : IngestOptions
options = record {
  blacklist = codes "rust.vendor" ∷ [];
  language = codes "rust";
  config = none;
  base = some (codes "/r");
  path_is_ignored = λ base path. path == codes "gen/x.rs";
}

abbrev stream : List Record
stream =
    Record.lang_switch (codes "rust")
    ∷ Record.module_ (codes "a")
    ∷ Record.file (codes "/r/src/a.rs") (codes "a") 1 9
    ∷ Record.struct (codes "1") (codes "a") (codes "S") (codes "/r/src/a.rs") 0 5 1 2
    ∷ Record.function (codes "2") (codes "a") (codes "f") [] (codes "a.rs") (codes "/r/src/a.rs") 6
        9 3 4
    ∷ Record.uses (codes "2") (codes "1") []
    ∷ Record.calls (codes "2") (codes "9") []
    ∷ []

abbrev outcome : Outcome (Assembly × IngestReport)
outcome = ingest_records sample_serde options false stream

abbrev finished : Assembly × IngestReport
finished =
    from_ok (empty_graph, record { skipped = 0; shadowed_modules = 0; shadowed_functions = 0 })
      outcome

ingest_records-IsClosed_example : IsClosed finished.0
unfolding is_whitespace admit_applies_to admit_authored admit_edge admit_first admit_other
    admit_task_record admit_unless admit_unresolved_call admit_unresolved_use agent_node as_bytes
    attach_all attach_files attach_languages attach_located builtin_code_type claim
    classify_code_type components cpp_arm csharp_arm decimal decimal_digits decode digits_value
    edge_fields task_edge_fields decoded_edge edge_pass ends_in_any ends_with file_basename
    file_name file_parent finalize_graph first_rule from_ok from_utf8 function_node glob_loop go_arm
    has_module_prefix has_seg identity_candidate identity_fallback ingest_records init_name
    insert_function insert_language insert_module insert_node insert_over is_blacklisted
    is_build_output_path is_structural_language java_arm join_params join_slash js_arm
    js_bundle_filename keep_contains keep_edge keep_unresolved_call keep_unresolved_use kind_among
    kind_is ladder language_arm located located_name matches_glob materialise_language md_arm
    name_function next_edge node_passes overload_name plain_edge target_edge plain_name planned_kind
    properties_from_json py_arm read_edges read_exact read_str render_bucket render_few
    render_function_fqns render_group render_many repo_relative_identity resolve_calls
    resolve_unresolved_edges resolve_uses retry root_edge_endpoint root_module_endpoint
    root_module_fqn rooted_scope rsplit_once rule_matches rust_arm simple_name skip_stars slashed
    spec_row tier_row split spool_record spooled_edges starts_with stream_file stream_module
    stream_other stream_planned stream_record stream_struct stream_unresolved strip_prefix
    strip_suffix strip_text structural_code_type structural_identity structural_scope_excludes
    task_edge to_ascii_lowercase trim_slashes ts_arm under_apg_layout valid_contains_pair
    walk_components write_edge write_edge_fields write_edges write_str
ingest_records-IsClosed_example =
    ingest_records-IsClosed sample_serde options stream finished.0 finished.1 refl

-- The use of the type is kept and the call of no declaration is dropped.
edges_kept :
    (finished.0.edges EdgeSet.uses ≡ (codes "rust.a.f", codes "rust.a.S") ∷ [])
    × (finished.0.edges EdgeSet.calls ≡ [])
unfolding is_whitespace admit_applies_to admit_authored admit_edge admit_first admit_other
    admit_task_record admit_unless admit_unresolved_call admit_unresolved_use agent_node as_bytes
    attach_all attach_files attach_languages attach_located builtin_code_type claim
    classify_code_type components cpp_arm csharp_arm decimal decimal_digits decode digits_value
    edge_fields task_edge_fields decoded_edge edge_pass ends_in_any ends_with file_basename
    file_name file_parent finalize_graph first_rule from_ok from_utf8 function_node glob_loop go_arm
    has_module_prefix has_seg identity_candidate identity_fallback ingest_records init_name
    insert_function insert_language insert_module insert_node insert_over is_blacklisted
    is_build_output_path is_structural_language java_arm join_params join_slash js_arm
    js_bundle_filename keep_contains keep_edge keep_unresolved_call keep_unresolved_use kind_among
    kind_is ladder language_arm located located_name matches_glob materialise_language md_arm
    name_function next_edge node_passes overload_name plain_edge target_edge plain_name planned_kind
    properties_from_json py_arm read_edges read_exact read_str render_bucket render_few
    render_function_fqns render_group render_many repo_relative_identity resolve_calls
    resolve_unresolved_edges resolve_uses retry root_edge_endpoint root_module_endpoint
    root_module_fqn rooted_scope rsplit_once rule_matches rust_arm simple_name skip_stars slashed
    spec_row tier_row split spool_record spooled_edges starts_with stream_file stream_module
    stream_other stream_planned stream_record stream_struct stream_unresolved strip_prefix
    strip_suffix strip_text structural_code_type structural_identity structural_scope_excludes
    task_edge to_ascii_lowercase trim_slashes ts_arm under_apg_layout valid_contains_pair
    walk_components write_edge write_edge_fields write_edges write_str
edges_kept = (refl, refl)

abbrev streamed : Stream
streamed =
    from_ok (start_stream options)
      (for_each (stream_record sample_serde options) stream (start_stream options))

abbrev passed : Passes
passed =
    from_ok
      (record { stream = streamed; shadowed = []; shadowed_modules = 0; shadowed_functions = 0 })
      (node_passes options streamed)

id_to_fqn-injective_example : codes "2" ≡ codes "2"
unfolding is_whitespace admit_applies_to admit_authored admit_edge admit_first admit_other
    admit_task_record admit_unless admit_unresolved_call admit_unresolved_use agent_node as_bytes
    attach_all attach_files attach_languages attach_located builtin_code_type claim
    classify_code_type components cpp_arm csharp_arm decimal decimal_digits decode digits_value
    edge_fields task_edge_fields decoded_edge edge_pass ends_in_any ends_with file_basename
    file_name file_parent finalize_graph first_rule from_ok from_utf8 function_node glob_loop go_arm
    has_module_prefix has_seg identity_candidate identity_fallback ingest_records init_name
    insert_function insert_language insert_module insert_node insert_over is_blacklisted
    is_build_output_path is_structural_language java_arm join_params join_slash js_arm
    js_bundle_filename keep_contains keep_edge keep_unresolved_call keep_unresolved_use kind_among
    kind_is ladder language_arm located located_name matches_glob materialise_language md_arm
    name_function next_edge node_passes overload_name plain_edge target_edge plain_name planned_kind
    properties_from_json py_arm read_edges read_exact read_str render_bucket render_few
    render_function_fqns render_group render_many repo_relative_identity resolve_calls
    resolve_unresolved_edges resolve_uses retry root_edge_endpoint root_module_endpoint
    root_module_fqn rooted_scope rsplit_once rule_matches rust_arm simple_name skip_stars slashed
    spec_row tier_row split spool_record spooled_edges starts_with stream_file stream_module
    stream_other stream_planned stream_record stream_struct stream_unresolved strip_prefix
    strip_suffix strip_text structural_code_type structural_identity structural_scope_excludes
    task_edge to_ascii_lowercase trim_slashes ts_arm under_apg_layout valid_contains_pair
    walk_components write_edge write_edge_fields write_edges write_str
id_to_fqn-injective_example =
    id_to_fqn-injective sample_serde options stream streamed passed (codes "2") (codes "2")
      (codes "rust.a.f") refl refl refl refl

-- Two overloads of a scope, and a function that stands alone.
abbrev func : String → String → List Text → FuncDecl
func id name params = record {
  id = codes id;
  parent = codes "rust.a";
  name = codes name;
  params = params;
  file = codes "a.rs";
  path = codes "src/a.rs";
  start = 0;
  end = 1;
  start_line = 1;
  end_line = 1;
  language = codes "rust";
}

abbrev decls : List FuncDecl
decls = func "1" "f" (codes "A" ∷ codes "B" ∷ []) ∷ func "2" "g" [] ∷ func "3" "f" [] ∷ []

functions_named :
    render_function_fqns decls
    ≡ (codes "1", codes "rust.a.f(A,B)")
      ∷ (codes "3", codes "rust.a.f()")
      ∷ (codes "2", codes "rust.a.g")
      ∷ []
unfolding render_function_fqns render_group render_few render_many plain_name overload_name
    join_params
functions_named = refl

abbrev third : Text × Text
third = (codes "3", codes "rust.a.f()")

render_function_fqns_iff_example :
    Member third (render_function_fqns decls)
    ↔ Given (λ d. name_rule (siblings decls d) d) decls third
render_function_fqns_iff_example = render_function_fqns_iff decls third
