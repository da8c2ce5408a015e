-- ===== src/Ingest/Admit/Claims.antt =====
-- The claims of `ingest_records`: which declaration owns a name.
use apg.Prelude.{
  ◌≡◌, refl, Option, none, some, Map, lookup, put, lookup-put, ◌==◌, ==_iff, nat_eq, list_eq, arith,
  if◌then◌else◌,
}
use apg.Text.{Text}
use apg.Graph.{NodeKind}
use apg.Ingest.Outcome.{ok}
use apg.Ingest.Admit.{Claims, claim}

abbrev pub owner : Claims → Text → Option Text
owner seen fqn = elim (lookup fqn seen) [ none ↦ none | some (id, _) ↦ some id ]

-- Each declaration with a name owns it.
abbrev pub Owned : Map Text Text → Claims → Type 0
Owned ids seen = (id fqn : Text) → lookup id ids ≡ some fqn → owner seen fqn ≡ some id

-- No other declaration owns the name.
abbrev pub Free : Claims → Text → Text → Type 0
Free seen id fqn = (other : Text) → owner seen fqn ≡ some other → other ≡ id

pub owner-put :
    (seen : Claims) (id fqn f : Text) (kind : NodeKind)
    → owner (put fqn (id, kind) seen) f ≡ (if fqn == f then some id else owner seen f)
owner-put seen id fqn f kind = ground (arith, lookup-put fqn f (id, kind) seen)

pub claim-Free :
    (seen t : Claims) (id fqn : Text) (kind : NodeKind)
    → claim seen id fqn kind ≡ ok t
    → Free seen id fqn
unfolding claim
claim-Free seen t id fqn kind h other e = ground (arith, h, e, ==_iff other id)

claimed :
    (seen t : Claims) (id fqn f : Text) (kind : NodeKind) (o : Option (Text × NodeKind))
    → lookup fqn seen ≡ o
    → claim seen id fqn kind ≡ ok t
    → owner t f ≡ (if fqn == f then some id else owner seen f)
unfolding claim
claimed seen t id fqn f kind none e h =
    ground (arith, e, h, lookup-put fqn f (id, kind) seen, ==_iff fqn f)
claimed seen t id fqn f kind (some (prev, k)) e h =
    ground (arith, e, h, ==_iff prev id, ==_iff fqn f)

pub owner-claim :
    (seen t : Claims) (id fqn f : Text) (kind : NodeKind)
    → claim seen id fqn kind ≡ ok t
    → owner t f ≡ (if fqn == f then some id else owner seen f)
owner-claim seen t id fqn f kind h = claimed seen t id fqn f kind (lookup fqn seen) refl h

-- A free name goes to a declaration, in both maps.
pub Owned-named :
    (ids : Map Text Text) (seen t : Claims) (id fqn : Text)
    → Owned ids seen
    → Free seen id fqn
    → ((f : Text) → owner t f ≡ (if fqn == f then some id else owner seen f))
    → Owned (put id fqn ids) t
Owned-named ids seen t id fqn owned free after other f e = ground (
  arith,
  e,
  lookup-put id other fqn ids,
  after f,
  owned other f,
  free other,
  ==_iff id other,
  ==_iff fqn f,
)

-- A name that nothing owned goes to something that is no declaration.
pub Owned-claimed :
    (ids : Map Text Text) (seen t : Claims) (id fqn : Text)
    → Owned ids seen
    → owner seen fqn ≡ none
    → ((f : Text) → owner t f ≡ (if fqn == f then some id else owner seen f))
    → Owned ids t
Owned-claimed ids seen t id fqn owned unowned after other f e =
    ground (arith, e, unowned, after f, owned other f, ==_iff fqn f)

-- Two declarations that own their names do not share one.
pub Owned-apart :
    (ids : Map Text Text) (seen : Claims) (id other fqn : Text)
    → Owned ids seen
    → lookup id ids ≡ some fqn
    → lookup other ids ≡ some fqn
    → id ≡ other
Owned-apart ids seen id other fqn owned e f = ground (arith, owned id fqn e, owned other fqn f)
