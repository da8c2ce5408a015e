-- ===== src/Load/Examples.antt =====
-- Which edges the database has a place for.
use apg.Prelude.{◌≡◌, refl, true, false}
use apg.Text.{codes}
use apg.Graph.{note, feedback, requirement, function}
use apg.Load.{declares, rel_table_pairs, label_of}

reviewed_note : declares (codes "Reviews") feedback note ≡ true
unfolding declares rel_table_pairs label_of
reviewed_note = refl

note_of_note : declares (codes "Details") note note ≡ false
unfolding declares rel_table_pairs label_of
note_of_note = refl

code_call : declares (codes "Calls") function function ≡ true
unfolding declares rel_table_pairs label_of
code_call = refl

called_requirement : declares (codes "Calls") function requirement ≡ false
unfolding declares rel_table_pairs label_of
called_requirement = refl
