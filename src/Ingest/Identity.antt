-- ===== src/Ingest/Identity.antt =====
-- src/ingest/identity.rs: identities that no checkout shows in, and language-rooted names.
use mathlib.Core.Option.{get_or}
use mathlib.Core.Option
use apg.Prelude.{
  Bool, true, false, not, ◌&&◌, ◌||◌, List, [], ◌∷◌, ◌++◌, map, any, Option, none, some, is_empty,
  if◌then◌else◌, ◌==◌, nat_eq, list_eq, contains, Map, lookup,
}
use apg.Text.{Text}
use apg.Text.Path.{Component, components, strip_prefix, file_name, is_absolute}
use apg.Classify.Config.{ApgConfig, StructuralScope}
use apg.Classify.Glob.{matches_glob}

abbrev out_of_scope : Text → StructuralScope → Bool
out_of_scope identity scope =
    if not (is_empty scope.include) && not (any (λ g. matches_glob g identity) scope.include)
    then true
    else any (λ g. matches_glob g identity) scope.exclude

unfoldable pub structural_scope_excludes : Text → Option ApgConfig → Bool
structural_scope_excludes identity none = false
structural_scope_excludes identity (some config) = elim config.structural [
  | none ↦ false
  | some scope ↦ out_of_scope identity scope
]

unfoldable pub file_basename : Text → Text
file_basename file = get_or (file_name file) file

-- `s.replace('\\', "/")`
unfoldable pub slashed : Text → Text
slashed = map (λ c. if c == b'\\' then b'/' else c)

-- `s.trim_start_matches('/')`
unfoldable pub trim_slashes : Text → Text
trim_slashes [] = []
trim_slashes (c ∷ s) = let rest = trim_slashes s in if c == b'/' then rest else c ∷ s

-- `out.join("/")`
unfoldable pub join_slash : List Text → Text
join_slash [] = []
join_slash (s ∷ []) = s
join_slash (s ∷ t ∷ ss) = s ++ b'/' ∷ join_slash (t ∷ ss)

unfoldable pub identity_fallback : Text → Text
identity_fallback path =
    let name = get_or (Option.map slashed (file_name path)) [] in
    if is_empty name then trim_slashes (slashed path) else name

-- The segments that the components leave, the last one first; `none` where `..` climbs too far.
unfoldable pub walk_components : List Component → List Text → Option (List Text)
walk_components [] out = some out
walk_components (Component.normal s ∷ cs) out = walk_components cs (slashed s ∷ out)
walk_components (Component.cur_dir ∷ cs) out = walk_components cs out
walk_components (Component.parent_dir ∷ cs) [] = none
walk_components (Component.parent_dir ∷ cs) (s ∷ out) = walk_components cs out
walk_components (Component.root_dir ∷ cs) out = walk_components cs out

abbrev pub reverse_onto : {A : Type 0} → List A → List A → List A
reverse_onto [] acc = acc
reverse_onto (x ∷ xs) acc = reverse_onto xs (x ∷ acc)

-- An absolute path without the base, which may not lie under it; a relative path as it is.
unfoldable pub identity_candidate : Text → Text → Option (List Component)
identity_candidate base path =
    if is_absolute path
    then strip_prefix (components path) (components base)
    else some (components path)

abbrev pub identity_segments : Text → Text → Option (List Text)
identity_segments base path = elim (identity_candidate base path) [
  | none ↦ none
  | some candidate ↦ walk_components candidate []
]

unfoldable pub repo_relative_identity : Text → Text → Text
repo_relative_identity [] path = path
repo_relative_identity (b ∷ base) path = elim (identity_segments (b ∷ base) path) [
  | none ↦ identity_fallback path
  | some out ↦ join_slash (reverse_onto out [])
]

unfoldable pub root_module_fqn : Text → Text → Text → Text
root_module_fqn language identity base = language ++ b'.' ∷ repo_relative_identity base identity

unfoldable pub rooted_scope : Text → Text → Text → Text
rooted_scope language [] base = []
rooted_scope language (c ∷ parent) base = root_module_fqn language (c ∷ parent) base

unfoldable pub root_module_endpoint : Text → Text → Map Text (List Text) → Text → Text
root_module_endpoint language endpoint module_identities base =
    elim (lookup language module_identities) [
      | none ↦ endpoint
      | some ids ↦
          if contains ids endpoint then root_module_fqn language endpoint base else endpoint
    ]

-- Some module identity ends before a `.` or `/`; the text is read from its end.
unfoldable pub has_module_prefix : List Text → Text → Bool
has_module_prefix identities [] = false
has_module_prefix identities (c ∷ front) =
    ((c == b'.' || c == b'/')
      && not (is_empty front)
      && contains identities (reverse_onto front []))
    || has_module_prefix identities front

unfoldable pub root_edge_endpoint : Text → Text → Map Text (List Text) → Text → Text
root_edge_endpoint language endpoint module_identities base =
    elim (lookup language module_identities) [
      | none ↦ endpoint
      | some identities ↦
          if contains identities endpoint
          then root_module_fqn language endpoint base
          else if has_module_prefix identities (reverse_onto endpoint [])
          then root_module_fqn language endpoint base
          else endpoint
    ]
