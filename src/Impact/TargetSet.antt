-- ===== src/Impact/TargetSet.antt =====
-- The re-emission target set of src/impact/targetset.rs.
pub mod Correct
use apg.Prelude.{
  Bool, false, not, List, [], ◌∷◌, Option, none, some, if◌then◌else◌, ◌==◌, nat_eq, list_eq,
  is_empty, filter, contains, insert, extend, intersection, Map, lookup,
}
use apg.Text.{Text}
use apg.Graph.{Graph}
use apg.Impact.DepIndex.{DepIndex}
use apg.Impact.Closure.{reverse_closure}
use apg.Impact.Signature.{overload_groups_of_file, overload_peer_files}

pub record TargetSet : Type 0 where
  pub files : List Text
  pub dependents : List Text
  pub overload_peers : List Text

-- `if !out.files.contains(f) { out.files.insert(f); out.dependents.insert(f); }`
unfoldable pub add_dependent : Text → TargetSet → TargetSet
add_dependent f out =
    if contains out.files f
    then out
    else record out { files = insert f out.files; dependents = insert f out.dependents }

unfoldable pub add_dependents : List Text → TargetSet → TargetSet
add_dependents [] out = out
add_dependents (f ∷ closure) out = add_dependents closure (add_dependent f out)

-- `if out.files.insert(p.clone()) { out.overload_peers.insert(p); }`
unfoldable pub add_peer : Text → TargetSet → TargetSet
add_peer p out =
    if contains out.files p
    then out
    else record out { files = insert p out.files; overload_peers = insert p out.overload_peers }

unfoldable pub add_peers : List Text → TargetSet → TargetSet
add_peers [] out = out
add_peers (p ∷ peers) out = add_peers peers (add_peer p out)

-- `for f in changed { scopes.extend(overload_groups_of_file(cached_graph, f)) }`
unfoldable pub scopes_of_files : Graph → List Text → List Text → List Text
scopes_of_files graph [] scopes = scopes
scopes_of_files graph (f ∷ changed) scopes =
    scopes_of_files graph changed (extend scopes (overload_groups_of_file graph f))

unfoldable pub cascade : DepIndex → List Text → TargetSet → TargetSet
cascade index seeds out =
    if not (is_empty seeds) then add_dependents (reverse_closure index seeds) out else out

unfoldable pub join_peers : Graph → List Text → TargetSet → TargetSet
join_peers graph scopes out =
    if not (is_empty scopes) then add_peers (overload_peer_files graph scopes) out else out

unfoldable pub target_set : List Text → List Text → DepIndex → Graph → TargetSet
target_set changed signature_changed index cached_graph =
    let start : TargetSet = record { files = changed; dependents = []; overload_peers = [] } in
    let seeds = intersection changed signature_changed in
    join_peers cached_graph (scopes_of_files cached_graph changed []) (cascade index seeds start)

-- `by_language`, with the caller's `language_of`
unfoldable pub by_language : List Text → (Text → Option Text) → Text → List Text
by_language files language_of language =
    filter (λ f. elim (language_of f) [ none ↦ false | some l ↦ l == language ]) files
