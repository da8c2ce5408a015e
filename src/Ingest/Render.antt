-- ===== src/Ingest/Render.antt =====
-- src/ingest/render.rs: the full names of functions. A group's place in a Rust hash map is open;
-- here the groups stand in the order in which their first members come.
pub mod Groups
pub mod Names
use apg.Prelude.{
  Bool, false, ◌&&◌, List, [], ◌∷◌, ◌++◌, map, any, all, Map, ◌==◌, nat_eq, list_eq, Eq, pair_eq,
  if◌then◌else◌,
}
use apg.Text.{Text, codes}
use apg.Text.Decimal.{decimal}
use apg.Ingest.Identity.{file_basename}
use apg.Ingest.Stream.{FuncDecl}

-- `groups.entry(key).or_default().push(d)`
abbrev pub push_group :
    {K : Type 0} ⦃e : Eq K⦄ → K → FuncDecl → Map K (List FuncDecl) → Map K (List FuncDecl)
push_group k d [] = (k, d ∷ []) ∷ []
push_group k d ((j, ds) ∷ m) =
    let rest = push_group k d m in if j == k then (j, ds ++ d ∷ []) ∷ m else (j, ds) ∷ rest

-- The declarations grouped by a key.
abbrev pub grouped :
    {K : Type 0} ⦃e : Eq K⦄
    → (FuncDecl → K)
    → List FuncDecl
    → Map K (List FuncDecl)
    → Map K (List FuncDecl)
grouped key [] m = m
grouped key (d ∷ ds) m = grouped key ds (push_group (key d) d m)

-- `params.join(",")`
unfoldable pub join_params : List Text → Text
join_params [] = []
join_params (p ∷ []) = p
join_params (p ∷ q ∷ ps) = p ++ b',' ∷ join_params (q ∷ ps)

abbrev pub scope_name : FuncDecl → Text × Text
scope_name d = (d.parent, d.name)

abbrev pub params_of : FuncDecl → Text
params_of d = join_params d.params

-- The forms of a name: plain, Go's `init`, overloaded, and told apart by file and line.
unfoldable pub plain_name : FuncDecl → Text
plain_name d = d.parent ++ b'.' ∷ d.name

unfoldable pub init_name : FuncDecl → Text
init_name d = d.parent ++ codes ".init#" ++ file_basename d.file

unfoldable pub overload_name : FuncDecl → Text
overload_name d = plain_name d ++ codes "(" ++ params_of d ++ codes ")"

unfoldable pub located_name : FuncDecl → Text
located_name d =
    overload_name d ++ codes "#" ++ file_basename d.file ++ codes ":" ++ decimal d.start_line

abbrev pub is_go : FuncDecl → Bool
is_go d = d.language == codes "go"

abbrev pub is_py : FuncDecl → Bool
is_py d = d.language == codes "py"

abbrev pub with_names : (FuncDecl → Text) → List FuncDecl → List (Text × Text)
with_names form = map (λ d. (d.id, form d))

-- The members of one bucket of equal parameters.
unfoldable pub render_bucket : List FuncDecl → List (Text × Text)
render_bucket [] = []
render_bucket (d ∷ []) = with_names overload_name (d ∷ [])
render_bucket (d ∷ e ∷ ds) = with_names located_name (d ∷ e ∷ ds)

abbrev pub render_all :
    {K : Type 0} → (List FuncDecl → List (Text × Text)) → Map K (List FuncDecl) → List (Text × Text)
render_all render [] = []
render_all render ((k, ds) ∷ m) = render ds ++ render_all render m

unfoldable pub render_many : List FuncDecl → List (Text × Text)
render_many ds =
    if all is_py ds
    then render_all render_bucket (grouped params_of ds [])
    else with_names overload_name ds

unfoldable pub render_few : List FuncDecl → List (Text × Text)
render_few [] = []
render_few (d ∷ []) = with_names plain_name (d ∷ [])
render_few (d ∷ e ∷ ds) = render_many (d ∷ e ∷ ds)

abbrev pub is_init_group : List FuncDecl → Bool
is_init_group [] = false
is_init_group (d ∷ ds) = d.name == codes "init" && any is_go (d ∷ ds)

-- One group of declarations of the same scope and name.
unfoldable pub render_group : List FuncDecl → List (Text × Text)
render_group ds = if is_init_group ds then with_names init_name ds else render_few ds

unfoldable pub render_function_fqns : List FuncDecl → List (Text × Text)
render_function_fqns decls = render_all render_group (grouped scope_name decls [])
