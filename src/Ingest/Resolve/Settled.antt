-- ===== src/Ingest/Resolve/Settled.antt =====
-- What `resolve_unresolved_edges` makes of a graph.
use apg.Prelude.{
  ◌≡◌, refl, ap, ◌∙◌, sym, subst, Bool, true, false, not, ◌&&◌, ◌||◌, List, map, filter, contains,
  contains-filter, none, some, Map, IsMap, lookup, lookup-filter, nat_eq, list_eq, pair_eq,
  triple_eq, arith, if◌then◌else◌,
}
use apg.Text.{Text}
use apg.Ingest.Assembly.{GraphNode, EdgeSet, Assembly}
use apg.Ingest.Admit.{is_unresolved_kind}
use apg.Ingest.Resolve.{
  call_resolves, use_resolves, ends_of, resolve_calls, resolve_uses, referenced, keep_target,
  resolve_unresolved_edges,
}
use apg.Ingest.Resolve.Loops.{
  call_found, resolve_calls-left, resolve_calls-made, found_pair, found_sound, found_complete,
  left_of, resolve_uses-left, resolve_uses-made, calls_frame, uses_frame,
}

-- `after` is `before` with each unresolved edge resolved whose target is a declaration of the graph.
pub record IsSettled (before after : Assembly) : Type 0 where
  pub calls_left :
      (u : Text × Text × Text)
      → contains after.unresolved_calls u
        ≡ (contains before.unresolved_calls u && not (call_resolves before.nodes u))
  pub calls_made :
      (e : Text × Text)
      → contains (after.edges EdgeSet.calls) e ≡ (
          contains (before.edges EdgeSet.calls) e
          || call_found before.nodes e before.unresolved_calls)
  pub uses_left :
      (u : Text × Text)
      → contains after.unresolved_uses u
        ≡ (contains before.unresolved_uses u && not (use_resolves before.nodes u))
  pub uses_made :
      (u : Text × Text)
      → contains (after.edges EdgeSet.uses) u ≡ (
          contains (before.edges EdgeSet.uses) u
          || (contains before.unresolved_uses u && use_resolves before.nodes u))
  pub targets :
      (fqn : Text) (n : GraphNode)
      → lookup fqn before.nodes ≡ some n
      → lookup fqn after.nodes ≡ (
          if is_unresolved_kind n.kind && not (contains (referenced after) fqn)
          then none
          else some n)

module _ (g : Assembly) where
  call_pairs : List (Text × Text)
  call_pairs = map ends_of (filter (call_resolves g.nodes) g.unresolved_calls)

  after_calls : Assembly
  unfolding call_pairs
  after_calls = resolve_calls call_pairs g

  use_pairs : List (Text × Text)
  unfolding after_calls
  use_pairs = filter (use_resolves after_calls.nodes) after_calls.unresolved_uses

  resolved : Assembly
  unfolding after_calls use_pairs
  resolved = resolve_uses use_pairs after_calls

  call_pairs-resolves :
      (u : Text × Text × Text)
      → contains g.unresolved_calls u ≡ true
      → call_resolves g.nodes u ≡ true
      → contains call_pairs (ends_of u) ≡ true
  unfolding call_pairs
  call_pairs-resolves u m r =
      found_pair g.nodes g.unresolved_calls (ends_of u)
      ∙ found_complete g.nodes g.unresolved_calls u m r

  resolves-call_pairs :
      (u : Text × Text × Text)
      → contains call_pairs (ends_of u) ≡ true
      → call_resolves g.nodes u ≡ true
  unfolding call_pairs
  resolves-call_pairs u m =
      found_sound g.nodes g.unresolved_calls u
        (sym (found_pair g.nodes g.unresolved_calls (ends_of u)) ∙ m)

  calls_left_lem :
      (u : Text × Text × Text)
      → contains resolved.unresolved_calls u
        ≡ (contains g.unresolved_calls u && not (call_resolves g.nodes u))
  unfolding resolved after_calls
  calls_left_lem u =
      ap (λ us. contains us u) (uses_frame use_pairs after_calls).1
      ∙ resolve_calls-left call_pairs g u
      ∙ left_of (contains g.unresolved_calls u) (call_resolves g.nodes u)
          (contains call_pairs (ends_of u)) (call_pairs-resolves u) (resolves-call_pairs u)

  calls_made_lem :
      (e : Text × Text)
      → contains (resolved.edges EdgeSet.calls) e
        ≡ (contains (g.edges EdgeSet.calls) e || call_found g.nodes e g.unresolved_calls)
  unfolding resolved after_calls call_pairs
  calls_made_lem e =
      ap (λ es. contains es e) (uses_frame use_pairs after_calls).2
      ∙ resolve_calls-made call_pairs g e
      ∙ ap (λ b. contains (g.edges EdgeSet.calls) e || b) (found_pair g.nodes g.unresolved_calls e)

  use_pairs_lem :
      (u : Text × Text)
      → contains use_pairs u ≡ (contains g.unresolved_uses u && use_resolves g.nodes u)
  unfolding use_pairs after_calls
  use_pairs_lem u = ground (
    arith,
    contains-filter (use_resolves after_calls.nodes) after_calls.unresolved_uses u,
    ap (λ us. contains us u) (calls_frame call_pairs g).1,
    ap (λ nodes. use_resolves nodes u) (calls_frame call_pairs g).0,
  )

  uses_left_lem :
      (u : Text × Text)
      → contains resolved.unresolved_uses u
        ≡ (contains g.unresolved_uses u && not (use_resolves g.nodes u))
  unfolding resolved after_calls
  uses_left_lem u = ground (
    arith,
    resolve_uses-left use_pairs after_calls u,
    ap (λ us. contains us u) (calls_frame call_pairs g).1,
    use_pairs_lem u,
  )

  uses_made_lem :
      (u : Text × Text)
      → contains (resolved.edges EdgeSet.uses) u ≡ (
          contains (g.edges EdgeSet.uses) u
          || (contains g.unresolved_uses u && use_resolves g.nodes u))
  unfolding resolved after_calls
  uses_made_lem u = ground (
    arith,
    resolve_uses-made use_pairs after_calls u,
    ap (λ es. contains es u) (calls_frame call_pairs g).2,
    use_pairs_lem u,
  )

  resolved-nodes : resolved.nodes ≡ g.nodes
  unfolding resolved after_calls
  resolved-nodes = (uses_frame use_pairs after_calls).0 ∙ (calls_frame call_pairs g).0

swapped {ℓ} :
    {A : Type ℓ} (b c : Bool) (x y : A)
    → (if not b || c then x else y) ≡ (if b && not c then y else x)
swapped true true x y = refl
swapped true false x y = refl
swapped false c x y = refl

kept_targets :
    (names : List Text) (nodes : Map Text GraphNode) (fqn : Text) (n : GraphNode)
    → IsMap nodes
    → lookup fqn nodes ≡ some n
    → lookup fqn (filter (keep_target names) nodes)
      ≡ (if is_unresolved_kind n.kind && not (contains names fqn) then none else some n)
kept_targets names nodes fqn n m h =
    lookup-filter (keep_target names) fqn n nodes m h
    ∙ swapped (is_unresolved_kind n.kind) (contains names fqn) (some n) none

-- In a graph whose nodes stand once each: an unresolved call between two functions, and an
-- unresolved use of a type by a function or a type, become a call and a use, no other unresolved
-- edge goes away and no other call or use comes up; of the nodes only the unresolved targets go
-- that no unresolved edge names any more.
pub resolve_unresolved_edges-IsSettled :
    (g : Assembly) → IsMap g.nodes → IsSettled g (resolve_unresolved_edges g)
unfolding resolve_unresolved_edges resolved use_pairs after_calls call_pairs
resolve_unresolved_edges-IsSettled g m = record {
  calls_left = calls_left_lem g;
  calls_made = calls_made_lem g;
  uses_left = uses_left_lem g;
  uses_made = uses_made_lem g;
  targets = λ fqn n h.
      kept_targets (referenced (resolved g)) (resolved g).nodes fqn n
        (subst IsMap (sym (resolved-nodes g)) m) (ap (lookup fqn) (resolved-nodes g) ∙ h);
}
