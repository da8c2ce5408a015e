-- ===== src/Impact/TargetSet/Correct.antt =====
-- What the target set holds, and why each file is in it.
use mathlib.Core.Logic.{∥∥₁_elim, ∥∥₁_map}
use mathlib.Core.HLevel.{⊥_prop}
use mathlib.Core.Bool.{So-prop}
use apg.Prelude.{
  ◌≡◌, ◌↔◌, ◌⊎◌, inl, inr, refl, sym, ◌∙◌, Bool, true, false, not, ◌&&◌, ◌||◌, List, [], ◌∷◌, arith,
  is_empty, any, any-from, any-contains, contains, contains-insert, contains-extend, intersection,
  extend, ==_iff, nat_eq, list_eq, ◌==◌, Bool-cases,
}
use apg.Text.{Text}
use apg.Graph.{Graph}
use apg.Impact.DepIndex.{DepIndex}
use apg.Impact.Closure.{reverse_closure}
use apg.Impact.Closure.Correct.{Depends, seed, via, reverse_closure_iff}
use apg.Impact.Signature.{overload_groups_of_file, overload_peer_files}
use apg.Impact.Signature.Peers.{Declares, overload_groups_of_file_iff, overload_peer_files_iff}
use apg.Impact.TargetSet.{
  TargetSet, add_dependent, add_dependents, add_peer, add_peers, scopes_of_files, cascade,
  join_peers, target_set,
}

-- The file declares a function of a scope in which a changed file declares one too.
pub record IsPeer (graph : Graph) (changed : List Text) (f : Text) : Type 0 where
  pub scope : Text
  pub origin : Text
  pub edited : contains changed origin ≡ true
  pub theirs : Declares graph origin scope
  pub ours : Declares graph f scope

module _ (f : Text) where
  add_dependent-files :
      (d : Text) (out : TargetSet)
      → (contains (add_dependent d out).files f ≡ (contains out.files f || d == f))
        × (contains (add_dependent d out).dependents f
            ≡ (contains out.dependents f || (d == f && not (contains out.files f))))
  unfolding add_dependent
  add_dependent-files d out =
      ground (arith, contains-insert d out.files f, contains-insert d out.dependents f, ==_iff d f)

  add_dependents-files :
      (closure : List Text) (out : TargetSet)
      → (contains (add_dependents closure out).files f
          ≡ (contains out.files f || contains closure f))
        × (contains (add_dependents closure out).dependents f
            ≡ (contains out.dependents f || (contains closure f && not (contains out.files f))))
  unfolding add_dependents
  add_dependents-files [] out = ground arith
  add_dependents-files (d ∷ closure) out =
      ground (arith, add_dependents-files closure (add_dependent d out), add_dependent-files d out)

  add_peer-files :
      (d : Text) (out : TargetSet)
      → (contains (add_peer d out).files f ≡ (contains out.files f || d == f))
        × ((add_peer d out).dependents ≡ out.dependents)
  unfolding add_peer
  add_peer-files d out = ground (arith, contains-insert d out.files f, ==_iff d f)

  add_peers-files :
      (peers : List Text) (out : TargetSet)
      → (contains (add_peers peers out).files f ≡ (contains out.files f || contains peers f))
        × ((add_peers peers out).dependents ≡ out.dependents)
  unfolding add_peers
  add_peers-files [] out = ground arith
  add_peers-files (d ∷ peers) out =
      ground (arith, add_peers-files peers (add_peer d out), add_peer-files d out)

  cascade-files :
      (index : DepIndex) (seeds : List Text) (out : TargetSet)
      → (contains (cascade index seeds out).files f ≡ (
          contains out.files f
          || (not (is_empty seeds) && contains (reverse_closure index seeds) f)))
        × (contains (cascade index seeds out).dependents f ≡ (
            contains out.dependents f
            || (not (is_empty seeds)
                && contains (reverse_closure index seeds) f
                && not (contains out.files f))))
  unfolding cascade
  cascade-files index seeds out =
      ground (arith, add_dependents-files (reverse_closure index seeds) out)

  join_peers-files :
      (graph : Graph) (scopes : List Text) (out : TargetSet)
      → (contains (join_peers graph scopes out).files f ≡ (
          contains out.files f
          || (not (is_empty scopes) && contains (overload_peer_files graph scopes) f)))
        × ((join_peers graph scopes out).dependents ≡ out.dependents)
  unfolding join_peers
  join_peers-files graph scopes out =
      ground (arith, add_peers-files (overload_peer_files graph scopes) out)

scopes_of_files-contains :
    (graph : Graph) (changed acc : List Text) (scope : Text)
    → contains (scopes_of_files graph changed acc) scope
      ≡ (contains acc scope || any (λ c. contains (overload_groups_of_file graph c) scope) changed)
unfolding scopes_of_files
scopes_of_files-contains graph [] acc scope = ground arith
scopes_of_files-contains graph (c ∷ changed) acc scope = ground (
  arith,
  scopes_of_files-contains graph changed (extend acc (overload_groups_of_file graph c)) scope,
  contains-extend acc (overload_groups_of_file graph c) scope,
)

-- With no seed nothing depends on one.
no_seed : (index : DepIndex) {f : Text} → ¬ Depends index [] f
no_seed index (seed m) = cc
no_seed index (via d m) = no_seed index d

cascaded :
    (index : DepIndex) (seeds : List Text) (f : Text)
    → (not (is_empty seeds) && contains (reverse_closure index seeds) f)
      ≡ contains (reverse_closure index seeds) f
cascaded index [] f = elim (Bool-cases (contains (reverse_closure index []) f)) [
  | inl e ↦ absurd (∥∥₁_elim ((reverse_closure_iff index [] f).0 e) ⊥_prop (no_seed index))
  | inr e ↦ sym e
]
cascaded index (s ∷ seeds) f = refl

not_empty : (s : List Text) (a : Text) → contains s a ≡ true → is_empty s ≡ false
not_empty [] a m = cc
not_empty (x ∷ s) a m = refl

-- The peers that the second half of `target_set` looks up.
abbrev peers_found : Graph → List Text → Text → Bool
peers_found graph scopes f = not (is_empty scopes) && contains (overload_peer_files graph scopes) f

peers_found_iff :
    (graph : Graph) (changed : List Text) (f : Text)
    → (peers_found graph (scopes_of_files graph changed []) f ≡ true) ↔ IsPeer graph changed f
peers_found_iff graph changed f =
    let scopes = scopes_of_files graph changed [] in
    (
      λ h.
          let (scope, m, ours) = (overload_peer_files_iff graph scopes f).0 (ground arith) in
          let (origin, edited, g) =
            any-from (λ c. contains (overload_groups_of_file graph c) scope) changed
              (sym (scopes_of_files-contains graph changed [] scope) ∙ m) in
          record {
            scope = scope;
            origin = origin;
            edited = edited;
            theirs = (overload_groups_of_file_iff graph origin scope).0 g;
            ours = ours;
          },
      λ p.
          let m =
            scopes_of_files-contains graph changed [] p.scope
            ∙ any-contains (λ c. contains (overload_groups_of_file graph c) p.scope) changed
                p.origin p.edited
                ((overload_groups_of_file_iff graph p.origin p.scope).1 p.theirs) in
          ground (
            arith,
            not_empty scopes p.scope m,
            (overload_peer_files_iff graph scopes f).1 (p.scope, m, p.ours),
          ),
    )

target_set-files :
    (changed signature_changed : List Text) (index : DepIndex) (graph : Graph) (f : Text)
    → contains (target_set changed signature_changed index graph).files f ≡ (
        contains changed f
        || contains (reverse_closure index (intersection changed signature_changed)) f
        || peers_found graph (scopes_of_files graph changed []) f)
unfolding target_set
target_set-files changed signature_changed index graph f =
    let seeds = intersection changed signature_changed in
    let start : TargetSet = record { files = changed; dependents = []; overload_peers = [] } in
    ground (
      arith,
      cascaded index seeds f,
      cascade-files f index seeds start,
      join_peers-files f graph (scopes_of_files graph changed []) (cascade index seeds start),
    )

target_set-pulled :
    (changed signature_changed : List Text) (index : DepIndex) (graph : Graph) (f : Text)
    → contains (target_set changed signature_changed index graph).dependents f ≡ (
        contains (reverse_closure index (intersection changed signature_changed)) f
        && not (contains changed f))
unfolding target_set
target_set-pulled changed signature_changed index graph f =
    let seeds = intersection changed signature_changed in
    let start : TargetSet = record { files = changed; dependents = []; overload_peers = [] } in
    ground (
      arith,
      cascaded index seeds f,
      cascade-files f index seeds start,
      join_peers-files f graph (scopes_of_files graph changed []) (cascade index seeds start),
    )

-- The set holds a file exactly if the file changed, or depends over any number of references on a
-- changed file whose signature changed, or declares a function in a scope of a function of a
-- changed file.
pub target_set_iff :
    (changed signature_changed : List Text) (index : DepIndex) (graph : Graph) (f : Text)
    → (contains (target_set changed signature_changed index graph).files f ≡ true)
      ↔ ∥ (contains changed f ≡ true)
          ⊎ Depends index (intersection changed signature_changed) f
          ⊎ IsPeer graph changed f ∥₁
target_set_iff changed signature_changed index graph f =
    let seeds = intersection changed signature_changed in
    let scopes = scopes_of_files graph changed [] in
    let whole = target_set-files changed signature_changed index graph f in
    let peer = peers_found_iff graph changed f in
    let closure = reverse_closure_iff index seeds f in
    (
      λ h. elim (Bool-cases (contains changed f)) [
        | inl c ↦ ∣ inl c ∣₁
        | inr n ↦ elim (Bool-cases (contains (reverse_closure index seeds) f)) [
          | inl d ↦ ∥∥₁_map (closure.0 d) (λ x. inr (inl x))
          | inr k ↦ ∣ inr (inr (peer.0 (ground arith))) ∣₁
        ]
      ],
      λ t. ∥∥₁_elim t (So-prop _) (λ why. elim why [
        | inl c ↦ ground arith
        | inr rest ↦ elim rest [
          | inl d ↦ ground (arith, closure.1 ∣ d ∣₁)
          | inr p ↦ ground (arith, peer.1 p)
        ]
      ]),
    )

-- The files that count as pulled in by a signature change are those that depend on such a file and
-- did not change themselves; so edits that leave every signature alone pull in none.
pub target_set-dependents :
    (changed signature_changed : List Text) (index : DepIndex) (graph : Graph) (f : Text)
    → (contains (target_set changed signature_changed index graph).dependents f ≡ true)
      ↔ ∥ Depends index (intersection changed signature_changed) f × (contains changed f ≡ false) ∥₁
target_set-dependents changed signature_changed index graph f =
    let pulled = target_set-pulled changed signature_changed index graph f in
    let closure = reverse_closure_iff index (intersection changed signature_changed) f in
    (
      λ h. ∥∥₁_map (closure.0 (ground arith)) (λ d. (d, ground arith)),
      λ t. ∥∥₁_elim t (So-prop _) (λ (d, n). ground (arith, closure.1 ∣ d ∣₁)),
    )
