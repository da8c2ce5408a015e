-- ===== src/Classify/Priority.antt =====
-- Which test wins: the order of the rules of a config, and of the tests of a built-in arm.
use Prim.Native.String.{String}
use apg.Prelude.{
  ◌≡◌, refl, true, false, List, [], ◌∷◌, ◌++◌, Option, none, some, arith, any, contains,
  any-contains, contains-All, nat_eq, list_eq, ◌==◌,
}
use apg.Text.{Text, codes, split}
use apg.Classify.Config.{CodeTypeRule, ApgConfig, texts, is_structural_language}
use apg.Classify.Builtin.{
  has_seg, ladder, go_arm, java_arm, cpp_arm, rust_arm, ts_arm, js_arm, csharp_arm, py_arm,
  language_arm, builtin_code_type,
}
use apg.Classify.CodeType.{rule_matches, first_rule, structural_code_type, classify_code_type}

first_rule-append :
    (path fqn : Text) (before after : List CodeTypeRule) (rule : CodeTypeRule)
    → any (rule_matches path fqn) before ≡ false
    → rule_matches path fqn rule ≡ true
    → first_rule path fqn (before ++ rule ∷ after) ≡ some rule.name
unfolding first_rule
first_rule-append path fqn [] after rule h m = ground arith
first_rule-append path fqn (r ∷ before) after rule h m =
    ground (arith, first_rule-append path fqn before after rule)

-- With a config, the first rule that matches gives the code type, whatever the language is and
-- whatever the later rules, the default and the structural scope say.
pub classify_code_type-first_rule :
    (path fqn language : Text) (cfg : ApgConfig) (before after : List CodeTypeRule)
    (rule : CodeTypeRule)
    → cfg.types ≡ before ++ rule ∷ after
    → any (rule_matches path fqn) before ≡ false
    → rule_matches path fqn rule ≡ true
    → classify_code_type path fqn language (some cfg) ≡ rule.name
unfolding classify_code_type
classify_code_type-first_rule path fqn language cfg before after rule e h m =
    ground (arith, first_rule-append path fqn before after rule h m)

-- An agent definition is classified as a Markdown document is, with every config and with none.
pub classify_code_type-agent :
    (path fqn : Text) (config : Option ApgConfig)
    → classify_code_type path fqn (codes "agent") config
      ≡ classify_code_type path fqn (codes "md") config
unfolding classify_code_type structural_code_type is_structural_language
classify_code_type-agent path fqn none = refl
classify_code_type-agent path fqn (some cfg) = ground arith

has_seg-contains :
    (segments : List Text) (seg : Text) (names : List String)
    → contains segments seg ≡ true
    → contains (texts names) seg ≡ true
    → has_seg segments names ≡ true
unfolding has_seg
has_seg-contains segments seg names h m = any-contains (contains (texts names)) segments seg h m

abbrev code_languages : List Text
code_languages = texts ("go" ∷ "java" ∷ "cpp" ∷ "rust" ∷ "ts" ∷ "js" ∷ "csharp" ∷ "py" ∷ [])

module _ (segments : List Text) (file : Text) (h : contains segments (codes "tests") ≡ true) where
  found :
      (names : List String)
      → contains (texts names) (codes "tests") ≡ true
      → has_seg segments names ≡ true
  found names = has_seg-contains segments (codes "tests") names h

  language_arm-test :
      (language : Text)
      → contains code_languages language ≡ true
      → language_arm segments file language ≡ codes "test"
  unfolding language_arm ladder go_arm java_arm cpp_arm rust_arm ts_arm js_arm csharp_arm py_arm
  language_arm-test language m =
      let two = found ("test" ∷ "tests" ∷ []) refl in
      let three = found ("test" ∷ "tests" ∷ "__tests__" ∷ []) refl in
      let four = found ("test" ∷ "tests" ∷ "Test" ∷ "Tests" ∷ []) refl in
      contains-All (λ l. language_arm segments file l ≡ codes "test") code_languages language m
        (
          ground arith,
          (
            ground arith,
            (
              ground arith,
              (ground arith, (ground arith, (ground arith, (ground arith, (ground arith, tt))))),
            ),
          ),
        )

-- A path below a directory named `tests` is test code in every code language, whatever its other
-- directories and its file name are: the test for it stands before those for generated and
-- external code.
pub builtin_code_type-tests :
    (path language : Text)
    → contains (split (λ c. c == b'/') path) (codes "tests") ≡ true
    → contains code_languages language ≡ true
    → builtin_code_type path language ≡ codes "test"
unfolding builtin_code_type
builtin_code_type-tests path language h m = language_arm-test _ _ h language m
