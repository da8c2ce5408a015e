-- ===== src/Ingest/Kinds.antt =====
-- The kinds of nodes, told apart by a number.
use apg.Prelude.{
  ℕ, ◌≡◌, refl, ap, true, List, [], ◌∷◌, some, Eq, nat_beq, nat_beq_only, nat_beq_itself, get_elem?,
}
use apg.Graph.{
  NodeKind, module_, struct, function, file, unresolved_target, language, requirement, note,
  feedback, plan, plan_phase, task, stakeholder, user, group, entity, value, service, system,
  container, component, person, actor, role, constraint, agent, scan,
}

abbrev kinds : List NodeKind
kinds =
    module_ ∷ struct ∷ function ∷ file ∷ unresolved_target ∷ language ∷ requirement ∷ note
    ∷ feedback ∷ plan ∷ plan_phase ∷ task ∷ stakeholder ∷ user ∷ group ∷ entity ∷ value ∷ service
    ∷ system ∷ container ∷ component ∷ person ∷ actor ∷ role ∷ constraint ∷ agent ∷ scan ∷ []

abbrev pub kind_code : NodeKind → ℕ
kind_code module_ = 0
kind_code struct = 1
kind_code function = 2
kind_code file = 3
kind_code unresolved_target = 4
kind_code language = 5
kind_code requirement = 6
kind_code note = 7
kind_code feedback = 8
kind_code plan = 9
kind_code plan_phase = 10
kind_code task = 11
kind_code stakeholder = 12
kind_code user = 13
kind_code group = 14
kind_code entity = 15
kind_code value = 16
kind_code service = 17
kind_code system = 18
kind_code container = 19
kind_code component = 20
kind_code person = 21
kind_code actor = 22
kind_code role = 23
kind_code constraint = 24
kind_code agent = 25
kind_code scan = 26

listed : (k : NodeKind) → get_elem? kinds (kind_code k) ≡ some k
listed module_ = refl
listed _ = refl

pub same_kind : (k l : NodeKind) → nat_beq (kind_code k) (kind_code l) ≡ true → k ≡ l
same_kind k l h =
    cc (listed k, listed l, ap (get_elem? kinds) (nat_beq_only (kind_code k) (kind_code l) h))

instance abbrev pub kind_eq : Eq NodeKind
kind_eq = record {
  same = λ k l. nat_beq (kind_code k) (kind_code l);
  only = same_kind;
  itself = λ k. nat_beq_itself (kind_code k);
}
