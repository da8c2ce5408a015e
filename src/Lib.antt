-- ===== src/Lib.antt =====
-- apg scans a repository into a graph of its modules, files, types and functions, keeps plans and
-- design records beside it, and rescans only what a change can affect. This library models the
-- deciding parts of the Rust crate under src/: how a record is classified, which files an
-- incremental scan has to visit, whether an incremental scan is allowed at all, what changed, how a
-- stream of records becomes a graph, and how sets of plan records are read and edited.
--
-- How the parts interact. A scan first asks `scan_verdict` (Delta) whether the recorded scan is
-- usable, by its cache key (Cache) and its commit. If it is, `compute` (Delta) turns git's answers
-- into the paths that changed, `signature_changed_files` and `DepIndex` (Impact) say which files
-- those changes reach, and `target_set` (Impact) is what the frontends visit. Every record of
-- their stream (Schema) goes through `ingest_records` (Ingest), which names and admits its nodes, with
-- a code type by `classify_code_type` (Classify), and resolves its edges. Plans are lists of the same
-- records, which src/artifacts/merge.rs (Artifacts) projects into the database.
--
-- Files and the code they model:
-- - Prelude, Text: what the crate uses of Rust's standard library, that is Boolean tests, `==`,
--   vectors, sets, maps, and `str` with its methods. Sets are lists that are read by membership
--   alone, and maps are lists of entries, so that nothing depends on the order of a traversal. A
--   text is the list of its code points. Prelude.Maps.IsMap says that each key has one entry.
-- - Classify: src/classify.rs. Config has the deserialised config, Builtin the code types of
--   each language, CodeType the rules and their order, Glob the matcher of globs, BuildOutput the
--   test for build trees. The two cursors and the two marks of `matches_glob` are the suffixes of
--   the glob and of the text that they point at.
-- - Graph: the fields of src/graph.rs that the impact analysis reads.
-- - Impact: src/impact/. DepIndex is `DepIndex::from_graph` and its persisted form, Closure is
--   `reverse_closure`, Signature the exported signatures and overload groups, TargetSet the cascade.
-- - Schema: the `Record` of src/schema.rs, with a constructor for each variant and its fields in
--   the order of the source.
-- - Artifacts: src/artifacts/merge.rs. Edges and Nodes are the projections of a record, Merge the
--   statements that `merge_records` sends to the database, where a query that fails would leave the
--   first of them, Remove is `remove_node`, Cycle the search for a path that would close a cycle.
-- - Cache: src/cache/manifest.rs. Key is the cache key, Render the text of a config that is
--   digested into it, Manifest the comparison of two checkouts. Fragment is src/cache/fragment.rs, a
--   fact unit and its projection onto a checkout, where the roots are texts as in the code.
-- - Delta: src/delta.rs. Verdict is `scan_verdict`, Compute the pure part of `compute`, Plan is
--   `plan` after `scan_state`.
-- - Plans: src/plan_cmd/status.rs, what `plan_done_at`, `plan_undone_at` and `plan_complete_at`
--   make of the records of a plan: the records that they hand to `write_through`, or the reason
--   they refuse.
-- - Load: the pairs of kinds that the edge tables of src/load/tables.rs are declared for. The tables
--   of the sets of edges are named in Ingest.Finalize.Schema.
-- - Ingest: src/ingest/. Spool is the codec of the edge spool (edges.rs), Identity and Blacklist are
--   the files of these names, Render the names of functions (render.rs). The rest is mod.rs: Assembly
--   is the graph with all its columns, Admit `claim` and `insert_node`, SpecRows and Stream the first
--   pass of `ingest_records`, Records the passes after it and the whole, EdgePass the pass over the
--   spooled edges, Finalize `finalize_graph`, Resolve `resolve_unresolved_edges`, Splice `splice_cached`
--   and `ingest_with_reuse`, with the loaded store as the functions of a Reuse. The sets of edges,
--   a field each in the code, are one function from the names of the fields. A panic is a value of
--   the type Outcome; the progress that is printed is left out.
-- - Version: src/version_gate.rs, `check_version` and the parsing of a version. Numbers has what holds
--   of `parse::<u64>`, Gate what holds of the gate.
-- The parts with results have a module Examples with concrete values, tests and an application of each
-- result.
--
-- Bounds and fuel. The loops that the code writes with `while` take fuel, and the results about them
-- do not mention it, since the fuel that the model gives is enough. `matches_glob` gets a round for
-- each character of the text and of the glob, as often as the text has characters and once more: a
-- retry drops a character of the text, and every other round moves on. `reverse_closure` gets one
-- round for each seed and each dependent that the index names; a round takes a file from the queue,
-- and a file is queued once. The search for a cycle gets two rounds more than there are records,
-- since a name is queued when an edge to it is seen first. The climb along the parents gets one step
-- more than there are parents, since a parent was found before its child. `decimal` gets as many
-- steps as the number and one. The reading of the edge spool gets a round for each byte and one more,
-- since an edge takes at least its tag.
-- Queues that the code pops from the back have that end in front. No operation that is modelled here
-- overflows but the length prefix of the spool, which is taken modulo 2 ^ 32 as in the code; the other
-- numbers are copied, counted up by one for a record, and printed.
--
-- What stands for code outside the crate. git2 (libgit2) is a parameter: whether a text is an object
-- id, and what it reports as changed. `rel`, which makes a path relative by `std::path`, is a parameter
-- of the persisted signatures. The label queries and the query for a realized node are parameters
-- of `merge_records`, and so are its pairs of labels, those of `rel_table_pairs` in Load. The digest of
-- a cache key is a parameter too, and so are `serde_json` on a map of properties (Spool.Serde), git's
-- answer whether a path is ignored (IngestOptions) and what the files of the fact store hold
-- (Splice.Reuse). All results are stated for every value of these parameters; the round trip of the
-- spool asks that `serde_json` writes an object and reads back what it wrote.
--
-- Not modelled: reading and writing files, the database and its queries, the processes of the
-- frontends and the other languages they are written in, the session protocol, the layers' node
-- files, and the text that commands print. The splice of an incremental stream into the database,
-- the making of fact units from a graph and the validation of layers hold rules of their own, which
-- are not covered here.
mod Prelude
mod Text
pub mod Classify
pub mod Graph
pub mod Impact
pub mod Schema
pub mod Artifacts
pub mod Cache
pub mod Load
pub mod Ingest
pub mod Version
pub mod Delta
pub mod Plans
