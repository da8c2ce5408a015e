-- ===== src/Ingest/Finalize/Schema/Kept.antt =====
-- The edges that `finalize_graph` keeps are of the kinds that the tables have.
use apg.Prelude.{
  ◌≡◌, inl, inr, refl, Bool, true, not, ◌||◌, [], ◌∷◌, Map, lookup, contains, arith, nat_eq,
  list_eq, triple_eq,
}
use apg.Text.{Text}
use apg.Graph.{NodeKind}
use apg.Load.{declares, rel_table_pairs, label_of}
use apg.Ingest.Kinds.{kind_eq}
use apg.Ingest.Assembly.{GraphNode, EdgeSet}
use apg.Ingest.Finalize.{callers, code_kinds, keep_contains, valid_contains_pair, keep_edge}
use apg.Ingest.Finalize.Schema.{table_of, permits, Permitted}
use apg.Ingest.Finalize.Schema.Ends.{found, pair, either, pair_two, pair_from, pair_to, pair_any}

-- Where the first holds, the second does.
abbrev pub implies : Bool → Bool → Bool
implies p q = not p || q

valid_contains_pair-declares :
    (k l : NodeKind) → implies (valid_contains_pair k l) (permits EdgeSet.contains k l) ≡ true
unfolding valid_contains_pair permits declares rel_table_pairs label_of table_of
valid_contains_pair-declares NodeKind.language NodeKind.module_ = refl
valid_contains_pair-declares NodeKind.module_ NodeKind.module_ = refl
valid_contains_pair-declares NodeKind.module_ NodeKind.file = refl
valid_contains_pair-declares NodeKind.file NodeKind.struct = refl
valid_contains_pair-declares NodeKind.file NodeKind.function = refl
valid_contains_pair-declares NodeKind.struct NodeKind.struct = refl
valid_contains_pair-declares NodeKind.struct NodeKind.function = refl
valid_contains_pair-declares NodeKind.plan NodeKind.plan_phase = refl
valid_contains_pair-declares NodeKind.plan_phase NodeKind.task = refl
valid_contains_pair-declares NodeKind.requirement NodeKind.requirement = refl
valid_contains_pair-declares NodeKind.group NodeKind.group = refl
valid_contains_pair-declares NodeKind.group NodeKind.entity = refl
valid_contains_pair-declares NodeKind.group NodeKind.service = refl
valid_contains_pair-declares NodeKind.entity NodeKind.value = refl
valid_contains_pair-declares NodeKind.system NodeKind.container = refl
valid_contains_pair-declares NodeKind.container NodeKind.component = refl
valid_contains_pair-declares _ _ = refl

pub implied : (p q : Bool) → implies p q ≡ true → p ≡ true → q ≡ true
implied p q h e = ground (arith, h, e)

keep_contains-Permitted :
    (nodes : Map Text GraphNode) (a b : Text)
    → keep_contains nodes a b ≡ true
    → Permitted EdgeSet.contains nodes a b
unfolding keep_contains
keep_contains-Permitted nodes a b h = elim (found (lookup a nodes)) [
  | inl e ↦ absurd (ground (arith, e, h))
  | inr (n, en) ↦ elim (found (lookup b nodes)) [
    | inl e ↦ absurd (ground (arith, en, e, h))
    | inr (m, em) ↦ record {
      source = n;
      sink = m;
      at_source = en;
      at_sink = em;
      kinds =
          implied (valid_contains_pair n.kind m.kind) (permits EdgeSet.contains n.kind m.kind)
            (valid_contains_pair-declares n.kind m.kind) (ground (arith, en, em, h));
    }
  ]
]

callers_use :
    (k : NodeKind) → implies (contains callers k) (permits EdgeSet.uses k NodeKind.struct) ≡ true
unfolding permits declares rel_table_pairs label_of table_of
callers_use NodeKind.function = refl
callers_use NodeKind.struct = refl
callers_use _ = refl

roles :
    (k : NodeKind)
    → implies
        (contains (NodeKind.container ∷ NodeKind.component ∷ []) k)
        (permits EdgeSet.is_role k NodeKind.role)
      ≡ true
unfolding permits declares rel_table_pairs label_of table_of
roles NodeKind.container = refl
roles NodeKind.component = refl
roles _ = refl

implemented :
    (k : NodeKind)
    → implies (contains code_kinds k) (permits EdgeSet.spec_implemented_by NodeKind.component k)
      ≡ true
unfolding permits declares rel_table_pairs label_of table_of
implemented NodeKind.module_ = refl
implemented NodeKind.file = refl
implemented NodeKind.struct = refl
implemented NodeKind.function = refl
implemented _ = refl

targets :
    (k : NodeKind) → implies (contains code_kinds k) (permits EdgeSet.target NodeKind.task k) ≡ true
unfolding permits declares rel_table_pairs label_of table_of
targets NodeKind.module_ = refl
targets NodeKind.file = refl
targets NodeKind.struct = refl
targets NodeKind.function = refl
targets _ = refl

details_any : (l : NodeKind) → permits EdgeSet.details NodeKind.note l ≡ true
unfolding permits
details_any l = refl

reviews_any : (l : NodeKind) → permits EdgeSet.reviews NodeKind.feedback l ≡ true
unfolding permits
reviews_any l = refl

-- What `finalize_graph` keeps runs between nodes of the graph, of kinds that its set allows.
pub keep_edge-Permitted :
    (s : EdgeSet) (nodes : Map Text GraphNode) (a b : Text)
    → keep_edge s nodes a b ≡ true
    → Permitted s nodes a b
unfolding keep_edge permits declares rel_table_pairs label_of table_of
keep_edge-Permitted EdgeSet.contains nodes a b h = keep_contains-Permitted nodes a b h
keep_edge-Permitted EdgeSet.calls nodes a b h =
    let p = pair nodes EdgeSet.calls in
    either nodes EdgeSet.calls _ _ a b
      (λ q.
        either nodes EdgeSet.calls _ _ a b (λ f. p NodeKind.function NodeKind.function a b refl f)
          (λ f. p NodeKind.service NodeKind.service a b refl f) q)
      (λ f. p NodeKind.actor NodeKind.service a b refl f) h
keep_edge-Permitted EdgeSet.uses nodes a b h =
    either nodes EdgeSet.uses _ _ a b
      (λ f.
        pair_from nodes EdgeSet.uses callers NodeKind.struct a b (λ k. implied _ _ (callers_use k))
          (ground (arith, f)))
      (λ f. pair nodes EdgeSet.uses NodeKind.person NodeKind.component a b refl f) h
keep_edge-Permitted EdgeSet.details nodes a b h =
    pair_any nodes EdgeSet.details NodeKind.note a b details_any h
keep_edge-Permitted EdgeSet.applies_to nodes a b h =
    pair nodes EdgeSet.applies_to NodeKind.constraint NodeKind.language a b refl h
keep_edge-Permitted EdgeSet.reviews nodes a b h =
    pair_any nodes EdgeSet.reviews NodeKind.feedback a b reviews_any h
keep_edge-Permitted EdgeSet.gates nodes a b h =
    pair nodes EdgeSet.gates NodeKind.plan_phase NodeKind.plan_phase a b refl h
keep_edge-Permitted EdgeSet.satisfies nodes a b h =
    pair nodes EdgeSet.satisfies NodeKind.plan_phase NodeKind.requirement a b refl h
keep_edge-Permitted EdgeSet.driven_by nodes a b h =
    pair nodes EdgeSet.driven_by NodeKind.service NodeKind.requirement a b refl h
keep_edge-Permitted EdgeSet.represents nodes a b h =
    either nodes EdgeSet.represents _ _ a b
      (λ f. pair nodes EdgeSet.represents NodeKind.actor NodeKind.user a b refl f)
      (λ f. pair nodes EdgeSet.represents NodeKind.person NodeKind.actor a b refl f) h
keep_edge-Permitted EdgeSet.spec_implemented_by nodes a b h =
    pair_to nodes EdgeSet.spec_implemented_by NodeKind.component code_kinds a b
      (λ k. implied _ _ (implemented k)) h
keep_edge-Permitted EdgeSet.publishes nodes a b h =
    pair nodes EdgeSet.publishes NodeKind.service NodeKind.entity a b refl h
keep_edge-Permitted EdgeSet.subscribes nodes a b h =
    pair_two nodes EdgeSet.subscribes NodeKind.service NodeKind.actor NodeKind.entity a b refl refl
      h
keep_edge-Permitted EdgeSet.requires nodes a b h =
    pair_two nodes EdgeSet.requires NodeKind.stakeholder NodeKind.user NodeKind.requirement a b refl
      refl h
keep_edge-Permitted EdgeSet.reads nodes a b h =
    pair nodes EdgeSet.reads NodeKind.service NodeKind.entity a b refl h
keep_edge-Permitted EdgeSet.writes nodes a b h =
    pair nodes EdgeSet.writes NodeKind.service NodeKind.entity a b refl h
keep_edge-Permitted EdgeSet.is_role nodes a b h =
    pair_from nodes EdgeSet.is_role (NodeKind.container ∷ NodeKind.component ∷ []) NodeKind.role a b
      (λ k. implied _ _ (roles k)) h
keep_edge-Permitted EdgeSet.realises nodes a b h =
    pair nodes EdgeSet.realises NodeKind.component NodeKind.service a b refl h
keep_edge-Permitted EdgeSet.assigned_to nodes a b h =
    pair nodes EdgeSet.assigned_to NodeKind.task NodeKind.agent a b refl h
keep_edge-Permitted EdgeSet.implements nodes a b h =
    pair nodes EdgeSet.implements NodeKind.task NodeKind.component a b refl h
keep_edge-Permitted EdgeSet.target nodes a b h =
    pair_to nodes EdgeSet.target NodeKind.task code_kinds a b (λ k. implied _ _ (targets k)) h
keep_edge-Permitted EdgeSet.module_create nodes a b h =
    pair nodes EdgeSet.module_create NodeKind.task NodeKind.module_ a b refl h
keep_edge-Permitted EdgeSet.module_modify nodes a b h =
    pair nodes EdgeSet.module_modify NodeKind.task NodeKind.module_ a b refl h
keep_edge-Permitted EdgeSet.module_delete nodes a b h =
    pair nodes EdgeSet.module_delete NodeKind.task NodeKind.module_ a b refl h
keep_edge-Permitted EdgeSet.module_move nodes a b h =
    pair nodes EdgeSet.module_move NodeKind.task NodeKind.module_ a b refl h
keep_edge-Permitted EdgeSet.module_rename nodes a b h =
    pair nodes EdgeSet.module_rename NodeKind.task NodeKind.module_ a b refl h
keep_edge-Permitted EdgeSet.file_create nodes a b h =
    pair nodes EdgeSet.file_create NodeKind.task NodeKind.file a b refl h
keep_edge-Permitted EdgeSet.file_modify nodes a b h =
    pair nodes EdgeSet.file_modify NodeKind.task NodeKind.file a b refl h
keep_edge-Permitted EdgeSet.file_delete nodes a b h =
    pair nodes EdgeSet.file_delete NodeKind.task NodeKind.file a b refl h
keep_edge-Permitted EdgeSet.file_move nodes a b h =
    pair nodes EdgeSet.file_move NodeKind.task NodeKind.file a b refl h
keep_edge-Permitted EdgeSet.file_rename nodes a b h =
    pair nodes EdgeSet.file_rename NodeKind.task NodeKind.file a b refl h
keep_edge-Permitted EdgeSet.struct_create nodes a b h =
    pair nodes EdgeSet.struct_create NodeKind.task NodeKind.struct a b refl h
keep_edge-Permitted EdgeSet.struct_modify nodes a b h =
    pair nodes EdgeSet.struct_modify NodeKind.task NodeKind.struct a b refl h
keep_edge-Permitted EdgeSet.struct_delete nodes a b h =
    pair nodes EdgeSet.struct_delete NodeKind.task NodeKind.struct a b refl h
keep_edge-Permitted EdgeSet.struct_move nodes a b h =
    pair nodes EdgeSet.struct_move NodeKind.task NodeKind.struct a b refl h
keep_edge-Permitted EdgeSet.struct_rename nodes a b h =
    pair nodes EdgeSet.struct_rename NodeKind.task NodeKind.struct a b refl h
keep_edge-Permitted EdgeSet.function_create nodes a b h =
    pair nodes EdgeSet.function_create NodeKind.task NodeKind.function a b refl h
keep_edge-Permitted EdgeSet.function_modify nodes a b h =
    pair nodes EdgeSet.function_modify NodeKind.task NodeKind.function a b refl h
keep_edge-Permitted EdgeSet.function_delete nodes a b h =
    pair nodes EdgeSet.function_delete NodeKind.task NodeKind.function a b refl h
keep_edge-Permitted EdgeSet.function_move nodes a b h =
    pair nodes EdgeSet.function_move NodeKind.task NodeKind.function a b refl h
keep_edge-Permitted EdgeSet.function_rename nodes a b h =
    pair nodes EdgeSet.function_rename NodeKind.task NodeKind.function a b refl h
