-- ===== src/Ingest/Records/Closed.antt =====
-- What a full ingest returns.
use apg.Prelude.{◌≡◌, subst, ap, false, List}
use apg.Schema.{Record}
use apg.Ingest.Outcome.{ok, >>=-eq-ok, ok_inj, for_each}
use apg.Ingest.Spool.{Serde}
use apg.Ingest.Blacklist.{IngestOptions}
use apg.Ingest.Assembly.{Assembly}
use apg.Ingest.Stream.{stream_record}
use apg.Ingest.Finalize.Valid.{IsClosed, finalize_graph-IsClosed}
use apg.Ingest.Records.{IngestReport, start_stream, node_passes, edge_pass, ingest_records}

-- Whatever the stream, each edge of the graph that a full ingest returns runs between nodes of the
-- graph, of kinds that its table in the database is declared for, but a note may detail and a feedback
-- may review a node of any kind. An unresolved call starts at a function, an unresolved use at a
-- function or a type, and both end at an unresolved target.
pub ingest_records-IsClosed :
    (serde : Serde) (opts : IngestOptions) (records : List Record) (g : Assembly)
    (report : IngestReport)
    → ingest_records serde opts false records ≡ ok (g, report)
    → IsClosed g
unfolding ingest_records
ingest_records-IsClosed serde opts records g report h =
    let (s, e1, h1) =
      >>=-eq-ok (for_each (stream_record serde opts) records (start_stream opts)) _ h in
    let (p, e2, h2) = >>=-eq-ok (node_passes opts s) _ h1 in
    let (e, e3, h3) = >>=-eq-ok (edge_pass serde opts p) _ h2 in
    subst IsClosed (ap (λ r. r.0) (ok_inj h3)) (finalize_graph-IsClosed e.graph)
