-- ===== src/Sequences/Repository/Enrollments.antt =====
-- packages/automation/src/sequences.ts: sequences of operations on definitions and enrollments.
use listmonk_ops.Prelude.{ℕ, String, Result, ok, err, List, [], ◌∷◌}
use listmonk_ops.Sequences.{
  SequenceDefinition, SequenceDefinitionStatus, SequenceEnrollment, SequenceStore, SequenceError,
}
use listmonk_ops.Sequences.Repository.{create_enrollment}
use listmonk_ops.Sequences.Repository.Definitions.{
  create_definition, delete_definition, set_definition_status,
}
use listmonk_ops.Sequences.Repository.WellFormed.{
  IsWellFormed, Keeps, create_enrollment-Keeps, delete_definition-Keeps, create_definition-Keeps,
  set_definition_status-Keeps,
}

-- The operations on definitions, and the creation of enrollments.
pub data RepositoryOperation : Type 0 where
  creates_definition : SequenceDefinition → RepositoryOperation
  deletes_definition : String → RepositoryOperation
  sets_status : String → SequenceDefinitionStatus → ℕ → RepositoryOperation
  creates_enrollment : SequenceEnrollment → RepositoryOperation

-- An operation that throws leaves the store as it was.
abbrev stored_after :
    {A : Type 0} → SequenceStore → Result SequenceError (SequenceStore × A) → SequenceStore
stored_after store (err e) = store
stored_after store (ok (after, a)) = after

unfoldable pub apply_operation :
    (SequenceDefinition → Result SequenceError SequenceDefinition)
    → (String → String)
    → RepositoryOperation
    → SequenceStore
    → SequenceStore
apply_operation parse to_lower_case (creates_definition d) store =
    stored_after store (create_definition parse to_lower_case d store)
apply_operation parse to_lower_case (deletes_definition id) store =
    stored_after store (delete_definition id store)
apply_operation parse to_lower_case (sets_status id status now) store =
    stored_after store (set_definition_status id status now store)
apply_operation parse to_lower_case (creates_enrollment e) store =
    stored_after store (create_enrollment e store)

unfoldable pub apply_operations :
    (SequenceDefinition → Result SequenceError SequenceDefinition)
    → (String → String)
    → List RepositoryOperation
    → SequenceStore
    → SequenceStore
unfolding apply_operation
apply_operations parse to_lower_case [] store = store
apply_operations parse to_lower_case (o ∷ os) store =
    apply_operations parse to_lower_case os (apply_operation parse to_lower_case o store)

stored_after-IsWellFormed :
    {A : Type 0} (store : SequenceStore) (r : Result SequenceError (SequenceStore × A))
    → IsWellFormed store
    → Keeps r
    → IsWellFormed (stored_after store r)
stored_after-IsWellFormed store (err e) w k = w
stored_after-IsWellFormed store (ok (after, a)) w k = k

apply_operation-IsWellFormed :
    (parse : SequenceDefinition → Result SequenceError SequenceDefinition)
    (to_lower_case : String → String) (o : RepositoryOperation) (store : SequenceStore)
    → IsWellFormed store
    → IsWellFormed (apply_operation parse to_lower_case o store)
unfolding apply_operation
apply_operation-IsWellFormed parse l (creates_definition d) store w =
    stored_after-IsWellFormed store (create_definition parse l d store) w
      (create_definition-Keeps parse l d store w)
apply_operation-IsWellFormed parse l (deletes_definition id) store w =
    stored_after-IsWellFormed store (delete_definition id store) w
      (delete_definition-Keeps id store w)
apply_operation-IsWellFormed parse l (sets_status id status now) store w =
    stored_after-IsWellFormed store (set_definition_status id status now store) w
      (set_definition_status-Keeps id status now store w)
apply_operation-IsWellFormed parse l (creates_enrollment e) store w =
    stored_after-IsWellFormed store (create_enrollment e store) w
      (create_enrollment-Keeps e store w)

-- From a well-formed store, every sequence of definition creations, deletions and status changes
-- and of enrollment creations, failed ones included, leads to a well-formed store: identifiers of
-- enrollments are distinct, no subscriber has two enrollments in a sequence of which the earlier is
-- not terminal, and every enrollment's sequence is stored.
pub apply_operations-IsWellFormed :
    (parse : SequenceDefinition → Result SequenceError SequenceDefinition)
    (to_lower_case : String → String) (os : List RepositoryOperation) (store : SequenceStore)
    → IsWellFormed store
    → IsWellFormed (apply_operations parse to_lower_case os store)
unfolding apply_operations
apply_operations-IsWellFormed parse l [] store w = w
apply_operations-IsWellFormed parse l (o ∷ os) store w =
    apply_operations-IsWellFormed parse l os (apply_operation parse l o store)
      (apply_operation-IsWellFormed parse l o store w)
