-- ===== src/Ingest/Records/Names.antt =====
-- The names that `ingest_records` gives to declarations.
use apg.Prelude.{
  ℕ, ◌≡◌, refl, subst, Bool, true, false, List, Option, none, some, lookup, has_key, has_key-lookup,
  arith, if◌then◌else◌, nat_eq, list_eq, ◌==◌, Bool-cases, inl, inr,
}
use apg.Text.{Text}
use apg.Schema.{Record}
use apg.Graph.{NodeKind}
use apg.Ingest.Outcome.{Outcome, ok, >>=-eq-ok, ok_inj, for_each, for_each-keeps}
use apg.Ingest.Spool.{Serde, write_edge}
use apg.Ingest.Blacklist.{IngestOptions, is_blacklisted}
use apg.Ingest.Assembly.{GraphNode, default_node}
use apg.Ingest.Admit.{Claims, claim, insert_node}
use apg.Ingest.Admit.Claims.{
  owner, Owned, claim-Free, owner-claim, owner-put, Owned-named, Owned-claimed, Owned-apart,
}
use apg.Ingest.Stream.{
  Stream, FuncDecl, admit, base_of, admit_unless, admit_first, planned_kind, stream_module,
  stream_struct, stream_file, stream_planned, stream_unresolved, spool_record, stream_other,
  stream_record, file_parent,
}
use apg.Ingest.Identity.{repo_relative_identity}
use apg.Ingest.Kinds.{kind_eq}
use apg.Ingest.Render.{render_function_fqns}
use apg.Ingest.Records.{
  Passes, on_stream, name_function, insert_function, insert_module, insert_language, attach_all,
  node_passes, start_stream,
}
use apg.Ingest.SpecRows.{spec_row}

-- Each declaration of the stream with a name owns it.
abbrev pub IsOwned : Stream → Type 0
IsOwned s = Owned s.id_to_fqn s.seen

if_keeps {ℓ} :
    {A : Type 0} (P : A → Type ℓ) (b : Bool) (x y : A) → P x → P y → P (if b then x else y)
if_keeps P true x y p q = p
if_keeps P false x y p q = q

pub admit-IsOwned :
    (fqn : Text) (node : GraphNode) (s t : Stream) → IsOwned s → admit fqn node s ≡ ok t → IsOwned t
admit-IsOwned fqn node s t o h =
    let (g, e, k) = >>=-eq-ok (insert_node fqn node s.graph) _ h in subst IsOwned (ok_inj k) o

admit_unless-IsOwned :
    (b : Bool) (fqn : Text) (node : GraphNode) (s t : Stream)
    → IsOwned s
    → admit_unless b fqn node s ≡ ok t
    → IsOwned t
unfolding admit_unless
admit_unless-IsOwned true fqn node s t o h = subst IsOwned (ok_inj h) o
admit_unless-IsOwned false fqn node s t o h = admit-IsOwned fqn node s t o h

admit_first-IsOwned :
    (b : Bool) (identity parent : Text) (node : GraphNode) (s t : Stream)
    → IsOwned s
    → admit_first b identity parent node s ≡ ok t
    → IsOwned t
unfolding admit_first
admit_first-IsOwned true identity parent node s t o h = subst IsOwned (ok_inj h) o
admit_first-IsOwned false identity parent node s t o h = admit-IsOwned identity node _ t o h

spool_record-IsOwned :
    (serde : Serde) (opts : IngestOptions) (r : Record) (s t : Stream)
    → IsOwned s
    → spool_record serde opts r s ≡ ok t
    → IsOwned t
unfolding spool_record
spool_record-IsOwned serde opts r s t o h =
    let (bytes, e, k) = >>=-eq-ok (write_edge serde r) _ h in subst IsOwned (ok_inj k) o

stream_module-IsOwned :
    (serde : Serde) (opts : IngestOptions) (fqn : Text) (s : Stream)
    → IsOwned s
    → IsOwned (stream_module serde opts fqn s)
unfolding stream_module
stream_module-IsOwned serde opts fqn s o = if_keeps IsOwned _ _ _ o o

stream_unresolved-IsOwned :
    (serde : Serde) (opts : IngestOptions) (fqn : Text) (category : Option Text) (s : Stream)
    → IsOwned s
    → IsOwned (stream_unresolved serde opts fqn category s)
unfolding stream_unresolved
stream_unresolved-IsOwned serde opts fqn category s o = if_keeps IsOwned _ _ _ o o

stream_struct-IsOwned :
    (serde : Serde) (opts : IngestOptions) (id parent name path : Text)
    (start end start_line end_line : ℕ) (s t : Stream)
    → IsOwned s
    → stream_struct serde opts id parent name path start end start_line end_line s ≡ ok t
    → IsOwned t
unfolding stream_struct
stream_struct-IsOwned serde opts id parent name path start end start_line end_line s t o h =
    let (seen, e, k) = >>=-eq-ok (claim s.seen id _ NodeKind.struct) _ h in
    let claimed =
      Owned-named s.id_to_fqn s.seen seen id _ o (claim-Free s.seen seen id _ NodeKind.struct e)
        (λ f. owner-claim s.seen seen id _ f NodeKind.struct e) in
    admit_unless-IsOwned _ _ _ _ t claimed k

stream_file-IsOwned :
    (serde : Serde) (opts : IngestOptions) (path parent : Text) (start_line end_line : ℕ)
    (s t : Stream)
    → IsOwned s
    → stream_file serde opts path parent start_line end_line s ≡ ok t
    → IsOwned t
unfolding stream_file
stream_file-IsOwned serde opts path parent start_line end_line s t o h =
    elim (Bool-cases (
      is_blacklisted (file_parent serde opts s.lang parent)
        (some (repo_relative_identity (base_of opts) path)) s.lang opts)) [
          | inl e ↦ subst IsOwned (ok_inj (rw e at h)) o
          | inr e ↦ admit_first-IsOwned _ _ _ _ s t o (rw e at h)
        ]

planned-IsOwned :
    (serde : Serde) (opts : IngestOptions) (fqn kind name parent : Text) (s t : Stream)
    (k : Option NodeKind)
    → planned_kind kind ≡ k
    → IsOwned s
    → stream_planned serde opts fqn kind name parent s ≡ ok t
    → IsOwned t
unfolding stream_planned
planned-IsOwned serde opts fqn kind name parent s t none e o h = absurd (ground (arith, e, h))
planned-IsOwned serde opts fqn kind name parent s t (some k) e o h =
    let (u, e1, h1) = >>=-eq-ok (admit fqn _ s) _ (rw (e, stream_planned) at h) in
    subst IsOwned (ok_inj h1) (admit-IsOwned fqn _ s u o e1)

other-IsOwned :
    (serde : Serde) (opts : IngestOptions) (r : Record) (s t : Stream)
    (row : Option (Text × GraphNode))
    → spec_row r ≡ row
    → IsOwned s
    → stream_other serde opts r s ≡ ok t
    → IsOwned t
unfolding stream_other
other-IsOwned serde opts r s t none e o h =
    spool_record-IsOwned serde opts r s t o (rw (e, stream_other) at h)
other-IsOwned serde opts r s t (some (fqn, node)) e o h =
    admit-IsOwned fqn node s t o (rw (e, stream_other) at h)

stream_record-IsOwned :
    (serde : Serde) (opts : IngestOptions) (r : Record) (s t : Stream)
    → IsOwned s
    → stream_record serde opts r s ≡ ok t
    → IsOwned t
unfolding stream_record
stream_record-IsOwned serde opts (Record.module_ fqn) s t o h =
    subst IsOwned (ok_inj h) (stream_module-IsOwned serde opts fqn s o)
stream_record-IsOwned serde opts (Record.struct id parent name path start end start_line end_line) s
      t o h =
    stream_struct-IsOwned serde opts id parent name path start end start_line end_line s t o h
stream_record-IsOwned serde opts (Record.function _ _ _ _ _ _ _ _ _ _) s t o h =
    subst IsOwned (ok_inj h) o
stream_record-IsOwned serde opts (Record.file path parent start_line end_line) s t o h =
    stream_file-IsOwned serde opts path parent start_line end_line s t o h
stream_record-IsOwned serde opts (Record.agent name path start_line end_line) s t o h =
    admit-IsOwned _ _ s t o h
stream_record-IsOwned serde opts (Record.unresolved fqn category) s t o h =
    subst IsOwned (ok_inj h) (stream_unresolved-IsOwned serde opts fqn category s o)
stream_record-IsOwned serde opts (Record.lang_switch language) s t o h = subst IsOwned (ok_inj h) o
stream_record-IsOwned serde opts (Record.planned_node fqn kind name parent) s t o h =
    planned-IsOwned serde opts fqn kind name parent s t (planned_kind kind) refl o h
stream_record-IsOwned serde opts (Record.contains _ _ _) s t o h =
    spool_record-IsOwned serde opts _ s t o h
stream_record-IsOwned serde opts (Record.calls _ _ _) s t o h =
    spool_record-IsOwned serde opts _ s t o h
stream_record-IsOwned serde opts (Record.uses _ _ _) s t o h =
    spool_record-IsOwned serde opts _ s t o h
stream_record-IsOwned serde opts (Record.unresolved_call _ _ _) s t o h =
    spool_record-IsOwned serde opts _ s t o h
stream_record-IsOwned serde opts (Record.unresolved_use _ _) s t o h =
    spool_record-IsOwned serde opts _ s t o h
stream_record-IsOwned serde opts r s t o h = other-IsOwned serde opts r s t (spec_row r) refl o h

-- The later passes.
abbrev PassOwned : Passes → Type 0
PassOwned p = IsOwned p.stream

name_function-step :
    (id fqn : Text) (p q : Passes) (o : Option (Text × NodeKind))
    → lookup fqn p.stream.seen ≡ o
    → PassOwned p
    → name_function (id, fqn) p ≡ ok q
    → PassOwned q
unfolding name_function
name_function-step id fqn p q none e own h = subst PassOwned (ok_inj (rw (e, name_function) at h)) (
    Owned-named p.stream.id_to_fqn p.stream.seen _ id fqn own (λ other f. ground (arith, e, f))
      (λ f. owner-put p.stream.seen id fqn f NodeKind.function))
name_function-step id fqn p q (some (prev, kind)) e own h =
    elim (Bool-cases (kind == NodeKind.struct)) [
      | inl s ↦ subst PassOwned (ok_inj (rw (e, s, name_function) at h)) own
      | inr s ↦ absurd (ground (arith, e, s, h))
    ]

name_function-PassOwned :
    (f : Text × Text) (p q : Passes) → PassOwned p → name_function f p ≡ ok q → PassOwned q
name_function-PassOwned (id, fqn) p q own h =
    name_function-step id fqn p q (lookup fqn p.stream.seen) refl own h

insert_function-step :
    (opts : IngestOptions) (f : FuncDecl) (s t : Stream) (o : Option Text)
    → lookup f.id s.id_to_fqn ≡ o
    → IsOwned s
    → insert_function opts f s ≡ ok t
    → IsOwned t
unfolding insert_function
insert_function-step opts f s t none e own h =
    subst IsOwned (ok_inj (rw (e, insert_function) at h)) own
insert_function-step opts f s t (some fqn) e own h =
    admit_unless-IsOwned _ _ _ _ t own (rw (e, insert_function) at h)

insert_function-IsOwned :
    (opts : IngestOptions) (f : FuncDecl) (s t : Stream)
    → IsOwned s
    → insert_function opts f s ≡ ok t
    → IsOwned t
insert_function-IsOwned opts f s t own h =
    insert_function-step opts f s t (lookup f.id s.id_to_fqn) refl own h

unclaimed : (seen : Claims) (fqn : Text) → has_key fqn seen ≡ false → owner seen fqn ≡ none
unclaimed seen fqn h = ground (arith, h, has_key-lookup fqn seen)

insert_module-PassOwned :
    (fqn : Text) (p q : Passes) → PassOwned p → insert_module fqn p ≡ ok q → PassOwned q
unfolding insert_module
insert_module-PassOwned fqn p q own h = elim (Bool-cases (has_key fqn p.stream.seen)) [
  | inl e ↦ subst PassOwned (ok_inj (rw e at h)) own
  | inr e ↦
      let (seen, e1, h1) = >>=-eq-ok (claim p.stream.seen fqn fqn NodeKind.module_) _ (rw e at h) in
      let claimed =
        Owned-claimed p.stream.id_to_fqn p.stream.seen seen fqn fqn own
          (unclaimed p.stream.seen fqn e)
          (λ f. owner-claim p.stream.seen seen fqn fqn f NodeKind.module_ e1) in
      let (s, e2, h2) = >>=-eq-ok (admit fqn (default_node NodeKind.module_) _) _ h1 in
      subst PassOwned (ok_inj h2) (admit-IsOwned fqn _ _ s claimed e2)
]

insert_language-IsOwned :
    (language : Text) (s t : Stream) → IsOwned s → insert_language language s ≡ ok t → IsOwned t
unfolding insert_language
insert_language-IsOwned language s t own h = admit-IsOwned language _ s t own h

on_stream-PassOwned :
    (step : Stream → Outcome Stream) (p q : Passes)
    → ((s t : Stream) → IsOwned s → step s ≡ ok t → IsOwned t)
    → PassOwned p
    → on_stream step p ≡ ok q
    → PassOwned q
on_stream-PassOwned step p q keep own h =
    let (s, e, k) = >>=-eq-ok (step p.stream) _ h in
    subst PassOwned (ok_inj k) (keep p.stream s own e)

node_passes-PassOwned :
    (opts : IngestOptions) (s : Stream) (p : Passes)
    → IsOwned s
    → node_passes opts s ≡ ok p
    → PassOwned p
unfolding node_passes attach_all
node_passes-PassOwned opts s p own h =
    let (p1, e1, h1) = >>=-eq-ok (for_each name_function (render_function_fqns s.funcs) _) _ h in
    let (p2, e2, h2) =
      >>=-eq-ok (on_stream (λ t. for_each (insert_function opts) t.funcs t) p1) _ h1 in
    let (p3, e3, h3) = >>=-eq-ok (for_each insert_module p2.stream.modules p2) _ h2 in
    let (p4, e4, h4) =
      >>=-eq-ok (on_stream (λ t. for_each insert_language t.languages t) p3) _ h3 in
    let o1 = for_each-keeps PassOwned name_function name_function-PassOwned _ _ p1 own e1 in
    let o2 =
      on_stream-PassOwned (λ t. for_each (insert_function opts) t.funcs t) p1 p2
        (λ t u.
          for_each-keeps IsOwned (insert_function opts) (insert_function-IsOwned opts) t.funcs t u)
        o1 e2 in
    let o3 = for_each-keeps PassOwned insert_module insert_module-PassOwned _ p2 p3 o2 e3 in
    let o4 =
      on_stream-PassOwned (λ t. for_each insert_language t.languages t) p3 p4
        (λ t u. for_each-keeps IsOwned insert_language insert_language-IsOwned t.languages t u) o3
        e4 in
    subst PassOwned (ok_inj h4) o4

-- The stream and the passes over its nodes, as far as they return, give two declarations two names:
-- a name stands for one struct or function id.
pub id_to_fqn-injective :
    (serde : Serde) (opts : IngestOptions) (records : List Record) (s : Stream) (p : Passes)
    (id other fqn : Text)
    → for_each (stream_record serde opts) records (start_stream opts) ≡ ok s
    → node_passes opts s ≡ ok p
    → lookup id p.stream.id_to_fqn ≡ some fqn
    → lookup other p.stream.id_to_fqn ≡ some fqn
    → id ≡ other
id_to_fqn-injective serde opts records s p id other fqn streamed passed e f =
    let own =
      for_each-keeps IsOwned (stream_record serde opts) (stream_record-IsOwned serde opts) records
        (start_stream opts) s (λ i g none_yet. ground (arith, none_yet)) streamed in
    Owned-apart p.stream.id_to_fqn p.stream.seen id other fqn
      (node_passes-PassOwned opts s p own passed) e f
