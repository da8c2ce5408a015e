-- ===== src/Ingest/Finalize/Schema/Ends.antt =====
-- What the tests on the kinds of two endpoints say of the two nodes.
use apg.Prelude.{
  ◌≡◌, ◌⊎◌, inl, inr, refl, ap, ◌∙◌, Bool, true, false, ◌&&◌, ◌||◌, List, Option, none, some, Map,
  lookup, has_key, has_key-lookup, contains, arith, nat_eq, list_eq, triple_eq, ==_iff,
}
use apg.Text.{Text}
use apg.Graph.{NodeKind}
use apg.Ingest.Kinds.{kind_eq}
use apg.Ingest.Assembly.{GraphNode, EdgeSet}
use apg.Ingest.Finalize.{kind_is, kind_among}
use apg.Ingest.Finalize.Schema.{permits, Permitted}

pub found : (o : Option GraphNode) → (o ≡ none) ⊎ ((n : GraphNode) × (o ≡ some n))
found none = inl refl
found (some n) = inr (n, refl)

split_and : (p q : Bool) → (p && q) ≡ true → (p ≡ true) × (q ≡ true)
split_and p q h = ground (arith, h)

module _ (nodes : Map Text GraphNode) where
  -- The node at a name is of the kind.
  KindAt : Text → NodeKind → Type 0
  KindAt a k = (n : GraphNode) × (lookup a nodes ≡ some n) × (n.kind ≡ k)

  kind_found : (a : Text) (k : NodeKind) → kind_is nodes a k ≡ true → KindAt a k
  unfolding kind_is KindAt
  kind_found a k h = elim (found (lookup a nodes)) [
    | inl e ↦ absurd (ground (arith, e, h))
    | inr (n, e) ↦ (n, e, (==_iff n.kind k).0 (ground (arith, e, h)))
  ]

  pub pair :
      (s : EdgeSet) (k l : NodeKind) (a b : Text)
      → permits s k l ≡ true
      → (kind_is nodes a k && kind_is nodes b l) ≡ true
      → Permitted s nodes a b
  unfolding KindAt
  pair s k l a b p h =
      let (ha, hb) = split_and (kind_is nodes a k) (kind_is nodes b l) h in
      let (n, en, kn) = kind_found a k ha in
      let (m, em, km) = kind_found b l hb in
      record {
        source = n;
        sink = m;
        at_source = en;
        at_sink = em;
        kinds = ap (λ x. permits s x m.kind) kn ∙ ap (permits s k) km ∙ p;
      }

  pub either :
      (s : EdgeSet) (p q : Bool) (a b : Text)
      → (p ≡ true → Permitted s nodes a b)
      → (q ≡ true → Permitted s nodes a b)
      → (p || q) ≡ true
      → Permitted s nodes a b
  either s true q a b f g h = f refl
  either s false q a b f g h = g h

  -- A node of one of two kinds, and a node of one.
  pub pair_two :
      (s : EdgeSet) (k k' l : NodeKind) (a b : Text)
      → permits s k l ≡ true
      → permits s k' l ≡ true
      → ((kind_is nodes a k || kind_is nodes a k') && kind_is nodes b l) ≡ true
      → Permitted s nodes a b
  pair_two s k k' l a b p p' h =
      either s (kind_is nodes a k) (kind_is nodes a k') a b
        (λ e. pair s k l a b p (ground (arith, e, h)))
        (λ e. pair s k' l a b p' (ground (arith, e, h))) (ground (arith, h))

  among_found :
      (a : Text) (ks : List NodeKind)
      → kind_among nodes a ks ≡ true
      → (n : GraphNode) × (lookup a nodes ≡ some n) × (contains ks n.kind ≡ true)
  unfolding kind_among
  among_found a ks h = elim (found (lookup a nodes)) [
    | inl e ↦ absurd (ground (arith, e, h))
    | inr (n, e) ↦ (n, e, ground (arith, e, h))
  ]

  pub pair_from :
      (s : EdgeSet) (ks : List NodeKind) (l : NodeKind) (a b : Text)
      → ((k : NodeKind) → contains ks k ≡ true → permits s k l ≡ true)
      → (kind_among nodes a ks && kind_is nodes b l) ≡ true
      → Permitted s nodes a b
  unfolding KindAt
  pair_from s ks l a b p h =
      let (ha, hb) = split_and (kind_among nodes a ks) (kind_is nodes b l) h in
      let (n, en, kn) = among_found a ks ha in
      let (m, em, km) = kind_found b l hb in
      record {
        source = n;
        sink = m;
        at_source = en;
        at_sink = em;
        kinds = ap (permits s n.kind) km ∙ p n.kind kn;
      }

  pub pair_to :
      (s : EdgeSet) (k : NodeKind) (ls : List NodeKind) (a b : Text)
      → ((l : NodeKind) → contains ls l ≡ true → permits s k l ≡ true)
      → (kind_is nodes a k && kind_among nodes b ls) ≡ true
      → Permitted s nodes a b
  unfolding KindAt
  pair_to s k ls a b p h =
      let (ha, hb) = split_and (kind_is nodes a k) (kind_among nodes b ls) h in
      let (n, en, kn) = kind_found a k ha in
      let (m, em, km) = among_found b ls hb in
      record {
        source = n;
        sink = m;
        at_source = en;
        at_sink = em;
        kinds = ap (λ x. permits s x m.kind) kn ∙ p m.kind km;
      }

  -- A source of the kind, and any node.
  pub pair_any :
      (s : EdgeSet) (k : NodeKind) (a b : Text)
      → ((l : NodeKind) → permits s k l ≡ true)
      → (has_key b nodes && kind_is nodes a k) ≡ true
      → Permitted s nodes a b
  unfolding KindAt
  pair_any s k a b p h =
      let (hb, ha) = split_and (has_key b nodes) (kind_is nodes a k) h in
      let (n, en, kn) = kind_found a k ha in
      elim (found (lookup b nodes)) [
        | inl e ↦ absurd (ground (arith, e, hb, has_key-lookup b nodes))
        | inr (m, em) ↦ record {
          source = n;
          sink = m;
          at_source = en;
          at_sink = em;
          kinds = ap (λ x. permits s x m.kind) kn ∙ p m.kind;
        }
      ]
