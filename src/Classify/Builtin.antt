-- ===== src/Classify/Builtin.antt =====
-- The built-in classification of src/classify.rs, one function for each arm of its `match`.
use Prim.Native.String.{String}
use apg.Prelude.{
  Bool, false, ◌||◌, List, [], ◌∷◌, Option, none, some, if◌then◌else◌, ◌==◌, nat_eq, list_eq,
  contains, any,
}
use apg.Text.{Text, codes, split, last_or, ends_with, starts_with, strip_suffix, to_ascii_lowercase}
use apg.Classify.Config.{texts}

-- `has_seg`: some segment of the path is one of the names
unfoldable pub has_seg : List Text → List String → Bool
has_seg segments names = any (λ s. contains (texts names) s) segments

unfoldable pub ends_in_any : Text → List String → Bool
ends_in_any file sufs = any (λ s. ends_with file s) (texts sufs)

-- A stripped stem, with the test of `is_some_and`.
abbrev bundle_stem : Option Text → Bool
bundle_stem none = false
bundle_stem (some stem) = ends_with stem (codes ".min") || ends_with stem (codes ".bundle")

unfoldable pub js_bundle_filename : Text → Bool
js_bundle_filename file =
    any (λ ext. bundle_stem (strip_suffix file ext)) (texts (".js" ∷ ".jsx" ∷ ".mjs" ∷ ".cjs" ∷ []))

-- `return "test"`, `return "generated"`, `return "external"`, else `"src"`
unfoldable pub ladder : Bool → Bool → Bool → Text
ladder test generated external =
    if test
    then codes "test"
    else if generated
    then codes "generated"
    else if external
    then codes "external"
    else codes "src"

module _ (segments : List Text) (file : Text) where
  unfoldable pub go_arm : Text
  go_arm =
      ladder (ends_in_any file ("_test.go" ∷ []) || has_seg segments ("test" ∷ "tests" ∷ []))
        (ends_in_any file (".pb.go" ∷ []) || has_seg segments ("gen" ∷ "generated" ∷ []))
        (has_seg segments ("vendor" ∷ []))

  unfoldable pub java_arm : Text
  java_arm =
      ladder
        (ends_in_any file ("test.java" ∷ "tests.java" ∷ [])
          || has_seg segments ("test" ∷ "tests" ∷ []))
        (has_seg segments ("gen" ∷ "generated" ∷ []))
        (has_seg segments ("vendor" ∷ "third_party" ∷ "thirdparty" ∷ []))

  unfoldable pub cpp_arm : Text
  cpp_arm =
      ladder
        (ends_in_any file ("_test.cpp" ∷ "_test.cc" ∷ "_test.c" ∷ [])
          || starts_with file (codes "test_")
          || has_seg segments ("test" ∷ "tests" ∷ []))
        (ends_in_any file (".pb.cc" ∷ ".pb.h" ∷ []) || has_seg segments ("gen" ∷ "generated" ∷ []))
        (has_seg segments ("vendor" ∷ "third_party" ∷ "thirdparty" ∷ "external" ∷ []))

  unfoldable pub rust_arm : Text
  rust_arm =
      ladder (ends_in_any file ("_test.rs" ∷ []) || has_seg segments ("test" ∷ "tests" ∷ []))
        (has_seg segments ("gen" ∷ "generated" ∷ [])) (has_seg segments ("vendor" ∷ []))

  unfoldable pub ts_arm : Text
  ts_arm =
      ladder
        (ends_in_any file
            ("_test.ts" ∷ "_test.tsx" ∷ ".test.ts" ∷ ".test.tsx" ∷ ".spec.ts" ∷ ".spec.tsx" ∷ [])
          || has_seg segments ("test" ∷ "tests" ∷ "__tests__" ∷ []))
        (js_bundle_filename file
          || has_seg segments ("gen" ∷ "generated" ∷ "dist" ∷ "build" ∷ "out" ∷ []))
        (has_seg segments ("vendor" ∷ []))

  unfoldable pub js_arm : Text
  js_arm =
      ladder
        (ends_in_any file (
            "_test.js" ∷ "_test.jsx" ∷ "_test.mjs" ∷ "_test.cjs" ∷ ".test.js" ∷ ".test.jsx"
            ∷ ".test.mjs" ∷ ".test.cjs" ∷ ".spec.js" ∷ ".spec.jsx" ∷ ".spec.mjs" ∷ ".spec.cjs" ∷ [])
          || has_seg segments ("test" ∷ "tests" ∷ "__tests__" ∷ []))
        (js_bundle_filename file
          || has_seg segments ("gen" ∷ "generated" ∷ "dist" ∷ "build" ∷ "out" ∷ []))
        (has_seg segments ("vendor" ∷ []))

  unfoldable pub csharp_arm : Text
  csharp_arm =
      ladder
        (ends_in_any file ("test.cs" ∷ "tests.cs" ∷ [])
          || starts_with file (codes "test")
          || has_seg segments ("test" ∷ "tests" ∷ "Test" ∷ "Tests" ∷ []))
        (ends_in_any file (".g.cs" ∷ ".designer.cs" ∷ ".generated.cs" ∷ [])
          || has_seg segments ("gen" ∷ "generated" ∷ "obj" ∷ []))
        (has_seg segments ("vendor" ∷ "packages" ∷ "bin" ∷ "third_party" ∷ "thirdparty" ∷ []))

  unfoldable pub py_arm : Text
  py_arm =
      ladder
        (ends_in_any file ("_test.py" ∷ [])
          || starts_with file (codes "test_")
          || ends_in_any file (".test.py" ∷ [])
          || has_seg segments ("test" ∷ "tests" ∷ "__tests__" ∷ []))
        (has_seg segments ("__pycache__" ∷ "gen" ∷ "generated" ∷ []))
        (has_seg segments ("vendor" ∷ "third_party" ∷ "thirdparty" ∷ []))

  unfoldable pub md_arm : Text
  md_arm =
      if has_seg segments ("gen" ∷ "generated" ∷ "dist" ∷ "build" ∷ "out" ∷ [])
      then codes "generated"
      else if has_seg segments ("vendor" ∷ "third_party" ∷ [])
      then codes "external"
      else codes "docs"

  -- The `match` on the language.
  unfoldable pub language_arm : Text → Text
  language_arm language =
      if language == codes "go"
      then go_arm
      else if language == codes "java"
      then java_arm
      else if language == codes "cpp"
      then cpp_arm
      else if language == codes "rust"
      then rust_arm
      else if language == codes "ts"
      then ts_arm
      else if language == codes "js"
      then js_arm
      else if language == codes "csharp"
      then csharp_arm
      else if language == codes "py"
      then py_arm
      else if language == codes "md"
      then md_arm
      else if contains
          (texts (
            "sh" ∷ "yaml" ∷ "json" ∷ "toml" ∷ "xml" ∷ "dockerfile" ∷ "makefile" ∷ "ini" ∷ "misc"
            ∷ []))
          language
      then codes "config"
      else codes "src"

unfoldable pub builtin_code_type : Text → Text → Text
unfolding language_arm
builtin_code_type path language =
    let segments = split (λ c. c == b'/') path in
    language_arm segments (to_ascii_lowercase (last_or [] segments)) language
