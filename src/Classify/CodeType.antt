-- ===== src/Classify/CodeType.antt =====
-- `classify_code_type` of src/classify.rs: the rules of the config, then the built-in code types.
use apg.Prelude.{
  Bool, ◌&&◌, ◌||◌, not, List, [], ◌∷◌, Option, none, some, if◌then◌else◌, ◌==◌, nat_eq, list_eq,
  any, is_empty,
}
use mathlib.Core.Option.{get_or}
use apg.Text.{Text, codes, split, last_or}
use apg.Classify.Glob.{matches_glob}
use apg.Classify.Config.{CodeTypeRule, StructuralScope, ApgConfig, is_structural_language}
use apg.Classify.Builtin.{builtin_code_type}

-- `fqn.rsplit('.').next().unwrap_or(fqn)`
unfoldable pub simple_name : Text → Text
simple_name fqn = last_or fqn (split (λ c. c == b'.') fqn)

-- The two tests of the loop over `cfg.types`.
unfoldable pub rule_matches : Text → Text → CodeTypeRule → Bool
rule_matches path fqn rule =
    any (λ g. matches_glob g path) rule.globs
    || (not (is_empty rule.names)
        && any (λ n. matches_glob n (simple_name fqn) || matches_glob n fqn) rule.names)

unfoldable pub first_rule : Text → Text → List CodeTypeRule → Option Text
first_rule path fqn [] = none
first_rule path fqn (rule ∷ rules) =
    if rule_matches path fqn rule then some rule.name else first_rule path fqn rules

scope_code_type : Option StructuralScope → Text
scope_code_type none = codes "config"
scope_code_type (some scope) = get_or scope.code_type (codes "config")

unfoldable pub structural_code_type : Text → Text → ApgConfig → Text
unfolding scope_code_type
structural_code_type path language cfg =
    if language == codes "md"
    then builtin_code_type path (codes "md")
    else scope_code_type cfg.structural

-- What follows the block on the config.
without_config : Text → Text → Text
without_config path language =
    if language == codes "agent"
    then builtin_code_type path (codes "md")
    else builtin_code_type path language

unfoldable pub classify_code_type : Text → Text → Text → Option ApgConfig → Text
unfolding without_config
classify_code_type path fqn language none = without_config path language
classify_code_type path fqn language (some cfg) = elim (first_rule path fqn cfg.types) [
  | some name ↦ name
  | none ↦
      if is_structural_language language
      then structural_code_type path language cfg
      else if not (language == codes "agent")
      then cfg.default
      else without_config path language
]
