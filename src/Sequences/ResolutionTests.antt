-- ===== src/Sequences/ResolutionTests.antt =====
-- The reconciliation of an ambiguous enrollment at a concrete input.
use listmonk_ops.Prelude.{none, some, ok, [], ◌∷◌, ◌≡◌, refl, arith, String_discrete}
use listmonk_ops.JsonStore.{read_json_file_store}
use listmonk_ops.Idempotency
use listmonk_ops.Idempotency.{
  Document, TransactionalSendRecord, is_stored_transactional_document,
  is_stored_transactional_send_record, sweep_expired_records,
}
use listmonk_ops.Idempotency.Files.{IsWellFormedFile}
use listmonk_ops.Idempotency.Records.{get_own_record, delete_record}
use listmonk_ops.Sequences.{SequenceEnrollment, pending, ambiguous, parse_sequence_enrollment}
use listmonk_ops.Sequences.Engine.{decimal}
use listmonk_ops.Sequences.Execute.{deterministic_send_key}
use listmonk_ops.Sequences.Repository.{get_file_enrollment}
use listmonk_ops.Sequences.Reconciliation.{
  not_sent, Stores, reconcile_ambiguous_sequence_enrollment,
}
use listmonk_ops.Sequences.Settlement.{Settles}
use listmonk_ops.Sequences.Resolution.{reconcile_ambiguous_lem}
use listmonk_ops.Sequences.Tests.{e1, onboarding_definition}

abbrev lost : SequenceEnrollment
lost = record e1 { status = ambiguous; last_error = some "socket hang up" }

abbrev lost_record : TransactionalSendRecord
lost_record = record {
  key = "sequence:e1:revision:1:step:welcome";
  payload_hash = "p";
  target_hash = "t";
  status = Idempotency.unknown;
  sent = none;
  error_message = some "socket hang up";
  claim_token = "c1";
  created_at = 1;
  updated_at = 1;
  expires_at = 86_400_001;
}

abbrev before : Stores
before = record {
  sequences = record { definitions = onboarding_definition ∷ []; enrollments = lost ∷ [] };
  sends = some ((lost_record.key, lost_record) ∷ []);
}

abbrev waiting_again : SequenceEnrollment
waiting_again = record lost {
  status = pending;
  next_run_at = 9;
  last_error = none;
  last_transition_at = 9;
  updated_at = 9;
}

abbrev released_stores : Stores
released_stores = record {
  sequences = record before.sequences { enrollments = waiting_again ∷ [] };
  sends = some [];
}

reconciles :
    reconcile_ambiguous_sequence_enrollment "e1" not_sent 9 before before
    ≡ (released_stores, ok waiting_again)
unfolding reconcile_ambiguous_sequence_enrollment String_discrete read_json_file_store
    is_stored_transactional_document is_stored_transactional_send_record get_own_record decimal
    parse_sequence_enrollment sweep_expired_records delete_record
reconciles = refl

before-IsWellFormedFile : IsWellFormedFile before.sends
unfolding is_stored_transactional_document String_discrete get_own_record
    is_stored_transactional_send_record
before-IsWellFormedFile = record { distinct = (refl, tt); stored = refl; bounded = omega arith }

reconcile_ambiguous_lem_example :
    Settles not_sent (deterministic_send_key lost) 9 before.sends released_stores.sends
unfolding String_discrete get_file_enrollment
reconcile_ambiguous_lem_example =
    reconcile_ambiguous_lem "e1" not_sent 9 before before released_stores lost waiting_again
      before-IsWellFormedFile refl refl reconciles
