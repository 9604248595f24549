-- ===== src/Sequences/Repository/Definitions.antt =====
-- packages/automation/src/sequences.ts: creating, deleting, pausing and resuming definitions.
use listmonk_ops.Prelude.{
  ℕ, String, none, some, Bool, true, false, Result, ok, err, if◌then◌else◌, List, [], ◌∷◌, ◌==◌,
  ◌++◌, same, ◌&&◌, ◌||◌, not, find, any, filter,
}
use listmonk_ops.Sequences.{
  SequenceRevision, SequenceDefinition, SequenceEnrollment, SequenceStore, SequenceError, conflict,
  SequenceDefinitionStatus, active, paused_definition, enrollment_is_terminal,
}
use listmonk_ops.Sequences.Topology.{validate_sequence_step_topology}
use listmonk_ops.Sequences.Repository.{get_file_definition, replace_definition}

-- Whether a number stands on two revisions.
abbrev pub repeats_revision : List SequenceRevision → Bool
repeats_revision [] = false
repeats_revision (r ∷ rest) = any (λ x. x.revision == r.revision) rest || repeats_revision rest

unfoldable pub validate_revisions : List SequenceRevision → Result SequenceError (Unit {0})
unfolding validate_sequence_step_topology
validate_revisions [] = ok tt
validate_revisions (r ∷ rest) = elim (validate_sequence_step_topology r.steps) [
  | err e ↦ err e
  | ok steps ↦ validate_revisions rest
]

unfoldable pub validate_sequence_definition_history :
    SequenceDefinition → Result SequenceError SequenceDefinition
unfolding validate_revisions
validate_sequence_definition_history d =
    if repeats_revision d.revisions || not (any (λ r. r.revision == d.current_revision) d.revisions)
    then err conflict
    else elim (validate_revisions d.revisions) [ err e ↦ err e | ok u ↦ ok d ]

-- `parse` stands for `definitionSchema.parse`.
unfoldable pub parse_sequence_definition :
    (SequenceDefinition → Result SequenceError SequenceDefinition)
    → SequenceDefinition
    → Result SequenceError SequenceDefinition
unfolding validate_sequence_definition_history
parse_sequence_definition parse d = elim (parse d) [
  | err e ↦ err e
  | ok parsed ↦ validate_sequence_definition_history parsed
]

-- The update of the store, by the definition that was parsed.
unfoldable pub add_definition :
    (String → String)
    → SequenceDefinition
    → SequenceStore
    → Result SequenceError (SequenceStore × SequenceDefinition)
add_definition to_lower_case definition store =
    if any
      (λ d. same d.id definition.id || same (to_lower_case d.name) (to_lower_case definition.name))
      store.definitions
    then err conflict
    else ok (record store { definitions = store.definitions ++ (definition ∷ []) }, definition)

unfoldable pub create_definition :
    (SequenceDefinition → Result SequenceError SequenceDefinition)
    → (String → String)
    → SequenceDefinition
    → SequenceStore
    → Result SequenceError (SequenceStore × SequenceDefinition)
unfolding parse_sequence_definition add_definition
create_definition parse to_lower_case definition store =
    elim (parse_sequence_definition parse definition) [
      | err e ↦ err e
      | ok validated ↦ add_definition to_lower_case validated store
    ]

-- The enrollment of the sequence that is not terminal.
abbrev pub is_live_for : String → SequenceEnrollment → Bool
is_live_for id e = same e.sequence_id id && not (enrollment_is_terminal e.status)

unfoldable pub delete_definition :
    String → SequenceStore → Result SequenceError (SequenceStore × SequenceDefinition)
unfolding get_file_definition
delete_definition id store = elim (get_file_definition store id) [
  | err e ↦ err e
  | ok definition ↦ elim (find (is_live_for id) store.enrollments) [
    | some e ↦ err conflict
    | none ↦ ok (
      record store {
        definitions = filter (λ d. not (same d.id id)) store.definitions;
        enrollments = filter (λ e. not (same e.sequence_id id)) store.enrollments;
      },
      definition,
    )
  ]
]

abbrev pub same_status : SequenceDefinitionStatus → SequenceDefinitionStatus → Bool
same_status active active = true
same_status paused_definition paused_definition = true
same_status _ _ = false

unfoldable pub set_definition_status :
    String
    → SequenceDefinitionStatus
    → ℕ
    → SequenceStore
    → Result SequenceError (SequenceStore × SequenceDefinition)
unfolding get_file_definition replace_definition
set_definition_status id status now store = elim (get_file_definition store id) [
  | err e ↦ err e
  | ok previous ↦
      let updated = record previous { status = status; updated_at = now } in
      ok (
        if same_status previous.status status
        then (store, previous)
        else (record store { definitions = replace_definition store.definitions updated }, updated))
]
