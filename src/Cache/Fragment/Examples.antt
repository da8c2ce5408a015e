-- ===== src/Cache/Fragment/Examples.antt =====
-- A fact unit that one checkout wrote and another reads, and names below nested checkouts.
use apg.Prelude.{◌≡◌, refl, List, [], ◌∷◌, ◌++◌, map, some, pair_eq}
use apg.Text.{Text, codes, strip_text}
use apg.Graph.{function, file}
use apg.Ingest.Assembly.{GraphNode, default_node}
use apg.Cache.Fragment.{FileFragment, trim_separators, separated, below, rebase, project_nodes}
use apg.Cache.Fragment.Portable.{rebase-portable}
use apg.Cache.Fragment.Stored.{stored_row, kept_row, project_nodes-stored}

rebase-portable_example :
    rebase (codes "/a") (codes "/b") (codes "/a" ++ b'/' ∷ codes "src/x.rs")
    ≡ rebase (codes "/b") [] (codes "/b" ++ b'/' ∷ codes "src/x.rs")
rebase-portable_example =
    rebase-portable b'/' b'/' (codes "a") (codes "b") (codes "/b") [] (codes "src/x.rs")

reader_path : rebase (codes "/a") (codes "/b") (codes "/b/src/x.rs") ≡ codes "src/x.rs"
unfolding rebase below separated strip_text trim_separators
reader_path = refl

-- A reader whose root lies below the writer's keeps a part of its own root.
nested_reader : rebase (codes "/a") (codes "/a/b") (codes "/a/b/src/x.rs") ≡ codes "b/src/x.rs"
unfolding rebase below separated strip_text trim_separators
nested_reader = refl

abbrev unit : FileFragment
unit = record {
  rel_path = codes "src/x.rs";
  blob_oid = codes "0f";
  lang = codes "rust";
  modules = codes "x" ∷ [];
  nodes = [];
  edges = [];
  inputs = [];
}

abbrev rows_of_file : List (Text × GraphNode)
rows_of_file =
    (codes "src/x.rs", default_node file)
    ∷ (
      codes "x.main",
      record (default_node function) {
        location =
            some (record {
              path = codes "src/x.rs";
              start = 4;
              end = 90;
              start_line = 2;
              end_line = 7;
            });
        code_type = codes "project";
      },
    )
    ∷ []

project_nodes-stored_example :
    project_nodes (record unit { nodes = map stored_row rows_of_file }) (codes "/a") (codes "/b")
    ≡ map kept_row rows_of_file
project_nodes-stored_example = project_nodes-stored unit (codes "a") (codes "b") rows_of_file refl
