-- ===== src/Ingest/Resolve/Loops.antt =====
-- The two loops of `resolve_unresolved_edges`.
use apg.Prelude.{
  ◌≡◌, refl, ap, ◌∙◌, sym, Bool, true, not, ◌&&◌, ◌||◌, List, [], ◌∷◌, map, filter, any, contains,
  contains-filter, contains-insert, Map, ◌==◌, ==_iff, ==_refl, any-contains, Bool-cases, inl, inr,
  nat_eq, list_eq, pair_eq, triple_eq, arith,
}
use apg.Text.{Text}
use apg.Graph.{NodeKind}
use apg.Ingest.Assembly.{GraphNode, EdgeSet, set_eq, Assembly}
use apg.Ingest.Admit.{add_edge}
use apg.Ingest.Finalize.{kind_is}
use apg.Ingest.Resolve.{call_resolves, ends_of, resolve_calls, resolve_uses}

-- Some unresolved call between the two resolves.
abbrev pub call_found : Map Text GraphNode → Text × Text → List (Text × Text × Text) → Bool
call_found nodes pair = any (λ u. ends_of u == pair && call_resolves nodes u)

pub resolve_calls-left :
    (pairs : List (Text × Text)) (g : Assembly) (u : Text × Text × Text)
    → contains (resolve_calls pairs g).unresolved_calls u
      ≡ (contains g.unresolved_calls u && not (contains pairs (ends_of u)))
unfolding resolve_calls
resolve_calls-left [] g u = ground arith
resolve_calls-left (pair ∷ pairs) g u = ground (
  arith,
  resolve_calls-left pairs
      (add_edge EdgeSet.calls pair
        (record g { unresolved_calls = filter (λ v. not (ends_of v == pair)) g.unresolved_calls }))
      u,
  contains-filter (λ v. not (ends_of v == pair)) g.unresolved_calls u,
  ==_iff (ends_of u) pair,
  ==_iff pair (ends_of u),
)

pub resolve_calls-made :
    (pairs : List (Text × Text)) (g : Assembly) (e : Text × Text)
    → contains ((resolve_calls pairs g).edges EdgeSet.calls) e
      ≡ (contains (g.edges EdgeSet.calls) e || contains pairs e)
unfolding resolve_calls
resolve_calls-made [] g e = ground arith
resolve_calls-made (pair ∷ pairs) g e = ground (
  arith,
  resolve_calls-made pairs
      (add_edge EdgeSet.calls pair
        (record g { unresolved_calls = filter (λ v. not (ends_of v == pair)) g.unresolved_calls }))
      e,
  contains-insert pair (g.edges EdgeSet.calls) e,
)

pub found_pair :
    (nodes : Map Text GraphNode) (us : List (Text × Text × Text)) (pair : Text × Text)
    → contains (map ends_of (filter (call_resolves nodes) us)) pair ≡ call_found nodes pair us
found_pair nodes [] pair = refl
found_pair nodes (u ∷ us) pair = ground (arith, found_pair nodes us pair)

pair_resolves : Map Text GraphNode → Text × Text → Bool
pair_resolves nodes (from, to) =
    kind_is nodes from NodeKind.function && kind_is nodes to NodeKind.function

same_ends :
    (nodes : Map Text GraphNode) (u v : Text × Text × Text)
    → ends_of u ≡ ends_of v
    → call_resolves nodes u ≡ call_resolves nodes v
unfolding pair_resolves
same_ends nodes u v h = ap (pair_resolves nodes) h

pub found_sound :
    (nodes : Map Text GraphNode) (us : List (Text × Text × Text)) (u : Text × Text × Text)
    → call_found nodes (ends_of u) us ≡ true
    → call_resolves nodes u ≡ true
found_sound nodes [] u h = cc
found_sound nodes (v ∷ us) u h =
    elim (Bool-cases (ends_of v == ends_of u && call_resolves nodes v)) [
      | inl e ↦
          let (same, found) = both (ends_of v == ends_of u) (call_resolves nodes v) e in
          sym (same_ends nodes v u ((==_iff (ends_of v) (ends_of u)).0 same)) ∙ found
      | inr e ↦ found_sound nodes us u (rw e at h)
    ]
  where
    both : (a b : Bool) → (a && b) ≡ true → (a ≡ true) × (b ≡ true)
    both a b e = ground arith

pub found_complete :
    (nodes : Map Text GraphNode) (us : List (Text × Text × Text)) (u : Text × Text × Text)
    → contains us u ≡ true
    → call_resolves nodes u ≡ true
    → call_found nodes (ends_of u) us ≡ true
found_complete nodes us u m r =
    any-contains (λ v. ends_of v == ends_of u && call_resolves nodes v) us u m
      (rw (==_refl (ends_of u), r))

pub left_of :
    (m c d : Bool)
    → (m ≡ true → c ≡ true → d ≡ true)
    → (d ≡ true → c ≡ true)
    → (m && not d) ≡ (m && not c)
left_of m c d f g = ground (arith, f, g)

pub resolve_uses-left :
    (pairs : List (Text × Text)) (g : Assembly) (u : Text × Text)
    → contains (resolve_uses pairs g).unresolved_uses u
      ≡ (contains g.unresolved_uses u && not (contains pairs u))
unfolding resolve_uses
resolve_uses-left [] g u = ground arith
resolve_uses-left (pair ∷ pairs) g u = ground (
  arith,
  resolve_uses-left pairs
      (add_edge EdgeSet.uses pair
        (record g { unresolved_uses = filter (λ v. not (v == pair)) g.unresolved_uses }))
      u,
  contains-filter (λ v. not (v == pair)) g.unresolved_uses u,
  ==_iff u pair,
  ==_iff pair u,
)

pub resolve_uses-made :
    (pairs : List (Text × Text)) (g : Assembly) (e : Text × Text)
    → contains ((resolve_uses pairs g).edges EdgeSet.uses) e
      ≡ (contains (g.edges EdgeSet.uses) e || contains pairs e)
unfolding resolve_uses
resolve_uses-made [] g e = ground arith
resolve_uses-made (pair ∷ pairs) g e = ground (
  arith,
  resolve_uses-made pairs
      (add_edge EdgeSet.uses pair
        (record g { unresolved_uses = filter (λ v. not (v == pair)) g.unresolved_uses }))
      e,
  contains-insert pair (g.edges EdgeSet.uses) e,
)

-- What each loop leaves alone.
pub calls_frame :
    (pairs : List (Text × Text)) (g : Assembly)
    → ((resolve_calls pairs g).nodes ≡ g.nodes)
      × ((resolve_calls pairs g).unresolved_uses ≡ g.unresolved_uses)
      × ((resolve_calls pairs g).edges EdgeSet.uses ≡ g.edges EdgeSet.uses)
unfolding resolve_calls
calls_frame [] g = (refl, refl, refl)
calls_frame (pair ∷ pairs) g = calls_frame pairs _

pub uses_frame :
    (pairs : List (Text × Text)) (g : Assembly)
    → ((resolve_uses pairs g).nodes ≡ g.nodes)
      × ((resolve_uses pairs g).unresolved_calls ≡ g.unresolved_calls)
      × ((resolve_uses pairs g).edges EdgeSet.calls ≡ g.edges EdgeSet.calls)
unfolding resolve_uses
uses_frame [] g = (refl, refl, refl)
uses_frame (pair ∷ pairs) g = uses_frame pairs _
