-- ===== src/Sequences/Topology.antt =====
-- `validateSequenceStepTopology` of packages/automation/src/sequences.ts: identifiers are unique,
-- a wait is not last, and a condition branches to later steps.
pub mod Sound
pub mod Lookup
use listmonk_ops.Prelude.{
  ℕ, zero, suc, ◌+◌, ◌-◌, ◌≤◌, ◌<◌, String, Option, none, some, Bool, true, false, Result, ok, err,
  if◌then◌else◌, List, [], ◌∷◌, same, leb, ltb, ◌==◌, ◌&&◌, ◌||◌, length, any, ◌≡◌, ◌≢◌, refl,
  arith, ap,
}
use listmonk_ops.Sequences.{
  SequenceStep, send, wait, wait_until, condition, stop, ConditionStep, step_id, SequenceError,
  conflict,
}

-- `findIndex` by identifier; the source's -1 is `none`.
unfoldable pub find_step_index : String → List SequenceStep → Option ℕ
find_step_index id [] = none
find_step_index id (s ∷ rest) =
    if same (step_id s) id
    then some 0
    else elim (find_step_index id rest) [ none ↦ none | some n ↦ some (suc n) ]

-- The first loop: `ids` holds the identifiers seen so far.
unfoldable pub check_unique : List String → List SequenceStep → Result SequenceError (Unit {0})
check_unique ids [] = ok tt
check_unique ids (s ∷ rest) =
    if any (λ i. same i (step_id s)) ids then err conflict else check_unique (step_id s ∷ ids) rest

-- A branch target must be a later step.
unfoldable pub check_target :
    List SequenceStep → Option ℕ → String → Result SequenceError (Unit {0})
check_target parsed at target = elim (find_step_index target parsed) [
  | none ↦ err conflict
  | some t ↦ elim at [ none ↦ ok tt | some i ↦ if leb t i then err conflict else ok tt ]
]

unfoldable pub check_targets :
    List SequenceStep → Option ℕ → ConditionStep → Result SequenceError (Unit {0})
check_targets parsed at c = elim (check_target parsed at c.on_true) [
  | err e ↦ err e
  | ok _ ↦ check_target parsed at c.on_false
]

abbrev pub is_last : List SequenceStep → Option ℕ → Bool
is_last parsed none = false
is_last parsed (some i) = i + 1 == length parsed

-- One round of the second loop.
unfoldable pub check_step : List SequenceStep → SequenceStep → Result SequenceError (Unit {0})
check_step parsed (send s) = ok tt
check_step parsed (wait id n) =
    if is_last parsed (find_step_index id parsed) then err conflict else ok tt
check_step parsed (wait_until id at) =
    if is_last parsed (find_step_index id parsed) then err conflict else ok tt
check_step parsed (condition c) = check_targets parsed (find_step_index c.id parsed) c
check_step parsed (stop id) = ok tt

unfoldable pub check_steps : List SequenceStep → List SequenceStep → Result SequenceError (Unit {0})
check_steps parsed [] = ok tt
check_steps parsed (s ∷ rest) = elim (check_step parsed s) [
  | err e ↦ err e
  | ok _ ↦ check_steps parsed rest
]

unfoldable pub validate_sequence_step_topology :
    List SequenceStep → Result SequenceError (List SequenceStep)
validate_sequence_step_topology parsed = elim (check_unique [] parsed) [
  | err e ↦ err e
  | ok _ ↦ elim (check_steps parsed parsed) [ err e ↦ err e | ok _ ↦ ok parsed ]
]
