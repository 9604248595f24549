-- ===== src/Sequences/Reconciliation.antt =====
-- packages/automation/src/sequence-engine.ts, `reconcileAmbiguousSequenceEnrollment`: an operator says
-- whether the message of an ambiguous enrollment was sent. The reads see one version of the stores,
-- and the writes go to a later one.
use listmonk_ops.Prelude.{
  ℕ, String, Option, none, some, Bool, true, false, Result, ok, err, if◌then◌else◌, same, find,
  ◌==◌,
}
use listmonk_ops.JsonStore.{UpdateError, read_json_file_store}
use listmonk_ops.Idempotency.{
  Document, TransactionalSendStatus, TransactionalSendRecord, StoreError, accepted,
  transactional_store, commit_transactional_send, release_transactional_send,
}
use listmonk_ops.Idempotency.Records.{get_own_record}
use listmonk_ops.Sequences.{
  SequenceStep, send, SequenceRevision, SequenceEnrollment, SequenceStore, SequenceError, pending,
  step_id,
}
use listmonk_ops.Sequences.Engine.{EngineError, next_step, advance, without_lease}
use listmonk_ops.Sequences.Execute.{deterministic_send_key}
use listmonk_ops.Sequences.Repository.{
  get_file_definition, get_file_enrollment, resolve_ambiguous, is_ambiguous,
}

pub data SequenceAmbiguousResolution : Type 0 where
  sent not_sent : SequenceAmbiguousResolution

-- What the reconciliation throws.
pub data ReconcileError : Type 0 where
  repository : SequenceError → ReconcileError
  engine : EngineError → ReconcileError
  store_error : UpdateError StoreError → ReconcileError
  not_ambiguous missing_revision not_on_send missing_record : ReconcileError
  still_pending already_accepted was_rejected : ReconcileError

pub record Stores : Type 0 where
  pub sequences : SequenceStore
  pub sends : Option Document

abbrev pub is_send : Option SequenceStep → Bool
is_send (some (send s)) = true
is_send _ = false

-- A record that is pending is left alone, and one that is decided is not contradicted.
unfoldable pub check_record :
    TransactionalSendStatus → SequenceAmbiguousResolution → Result ReconcileError (Unit {0})
check_record TransactionalSendStatus.pending resolution = err still_pending
check_record TransactionalSendStatus.accepted not_sent = err already_accepted
check_record TransactionalSendStatus.failed sent = err was_rejected
check_record status resolution = ok tt

abbrev pub is_accepted : TransactionalSendStatus → Bool
is_accepted TransactionalSendStatus.accepted = true
is_accepted _ = false

-- The next state of the enrollment.
unfoldable pub resolved_enrollment :
    SequenceAmbiguousResolution
    → SequenceRevision
    → SequenceEnrollment
    → ℕ
    → Result EngineError SequenceEnrollment
unfolding next_step without_lease
resolved_enrollment sent revision e now = elim (next_step revision e.current_step_id) [
  | err x ↦ err x
  | ok following ↦ ok (advance e pending now now following)
]
resolved_enrollment not_sent revision e now = ok (
    without_lease
      (record e { status = pending; retry_count = 0; next_run_at = now; last_error = none }) now)

-- What is written to the record of the key afterwards.
unfoldable pub settle_record :
    SequenceAmbiguousResolution
    → String
    → TransactionalSendRecord
    → ℕ
    → Option Document
    → Option Document × Result (UpdateError StoreError) (Unit {0})
unfolding commit_transactional_send release_transactional_send
settle_record sent key r now file =
    if is_accepted r.status
    then (file, ok tt)
    else commit_transactional_send
        (record {
          key = key;
          claim_token = r.claim_token;
          status = accepted;
          sent = some true;
          error_message = none;
          now = now;
        })
        file
settle_record not_sent key r now file =
    release_transactional_send (record { key = key; claim_token = r.claim_token; now = now }) file

-- What the reads establish: the record of the enrollment's key, and the revision that it is on.
unfoldable pub read_ambiguous :
    String
    → SequenceAmbiguousResolution
    → Stores
    → Result ReconcileError (SequenceEnrollment × SequenceRevision × TransactionalSendRecord)
unfolding check_record get_file_enrollment get_file_definition
read_ambiguous id resolution seen = elim (get_file_enrollment seen.sequences id) [
  | err e ↦ err (repository e)
  | ok enrollment ↦
      if is_ambiguous enrollment.status
      then elim (get_file_definition seen.sequences enrollment.sequence_id) [
        | err e ↦ err (repository e)
        | ok definition ↦
            elim (find (λ r. r.revision == enrollment.revision) definition.revisions) [
              | none ↦ err missing_revision
              | some revision ↦
                  if is_send
                    (find (λ s. same (step_id s) enrollment.current_step_id) revision.steps)
                  then elim (read_json_file_store {E = StoreError} transactional_store seen.sends) [
                    | err e ↦ err (store_error e)
                    | ok document ↦
                        elim (get_own_record document (deterministic_send_key enrollment)) [
                          | none ↦ err missing_record
                          | some r ↦ elim (check_record r.status resolution) [
                            | err e ↦ err e
                            | ok u ↦ ok (enrollment, revision, r)
                          ]
                        ]
                  ]
                  else err not_on_send
            ]
      ]
      else err not_ambiguous
]

-- The enrollment is stored first, and the record is settled if that succeeds.
unfoldable pub write_resolution :
    SequenceAmbiguousResolution
    → ℕ
    → SequenceEnrollment × SequenceRevision × TransactionalSendRecord
    → Stores
    → Stores × Result ReconcileError SequenceEnrollment
unfolding resolved_enrollment settle_record resolve_ambiguous deterministic_send_key
write_resolution resolution now (enrollment, revision, r) stores =
    elim (resolved_enrollment resolution revision enrollment now) [
      | err e ↦ (stores, err (engine e))
      | ok next ↦ elim (resolve_ambiguous enrollment next stores.sequences) [
        | err e ↦ (stores, err (repository e))
        | ok (sequences, resolved) ↦
            let (sends, settled) =
              settle_record resolution (deterministic_send_key enrollment) r now stores.sends in
            (
              record { sequences = sequences; sends = sends },
              elim settled [ err e ↦ err (store_error e) | ok u ↦ ok resolved ],
            )
      ]
    ]

-- The writes, if the reads did not throw.
unfoldable pub resolve_found :
    SequenceAmbiguousResolution
    → ℕ
    → Stores
    → Result ReconcileError (SequenceEnrollment × SequenceRevision × TransactionalSendRecord)
    → Stores × Result ReconcileError SequenceEnrollment
unfolding write_resolution
resolve_found resolution now stores (err e) = (stores, err e)
resolve_found resolution now stores (ok found) = write_resolution resolution now found stores

unfoldable pub reconcile_ambiguous_sequence_enrollment :
    String
    → SequenceAmbiguousResolution
    → ℕ
    → Stores
    → Stores
    → Stores × Result ReconcileError SequenceEnrollment
unfolding read_ambiguous resolve_found
reconcile_ambiguous_sequence_enrollment id resolution now seen stores =
    resolve_found resolution now stores (read_ambiguous id resolution seen)
