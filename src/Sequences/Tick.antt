-- ===== src/Sequences/Tick.antt =====
-- packages/automation/src/sequence-engine.ts, `runSequenceTick`: one claim, and the execution and the
-- completion of each claimed enrollment. The executions of a tick run at once; they are taken one after
-- the other here, in the order of the claim, each with its own answers from outside.
use listmonk_ops.Prelude.{
  ℕ, ◌+◌, String, Result, ok, err, List, [], ◌∷◌, ◌==◌, if◌then◌else◌, length,
}
use listmonk_ops.Transactional.{World}
use listmonk_ops.Sequences.{
  SequenceEnrollment, SequenceEnrollmentStatus, waiting, completed, failed, ambiguous, cancelled,
  ClaimedSequenceEnrollment, SequenceStore, SequenceError,
}
use listmonk_ops.Sequences.Engine.{EngineError}
use listmonk_ops.Sequences.Execute.{
  Executor, StepEnvironment, SequenceMessage, execute_claimed_enrollment,
}
use listmonk_ops.Sequences.Repository.{ClaimDueOptions, claim_due, complete_claim}

pub record TickCounts : Type 0 where
  pub advanced : ℕ
  pub waiting_count : ℕ
  pub completed_count : ℕ
  pub failed_count : ℕ
  pub ambiguous_count : ℕ
  pub cancelled_count : ℕ

abbrev pub no_counts : TickCounts
no_counts = record {
  advanced = 0;
  waiting_count = 0;
  completed_count = 0;
  failed_count = 0;
  ambiguous_count = 0;
  cancelled_count = 0;
}

unfoldable pub count_outcome : TickCounts → SequenceEnrollmentStatus → TickCounts
count_outcome c waiting = record c { waiting_count = c.waiting_count + 1 }
count_outcome c completed = record c { completed_count = c.completed_count + 1 }
count_outcome c failed = record c { failed_count = c.failed_count + 1 }
count_outcome c ambiguous = record c { ambiguous_count = c.ambiguous_count + 1 }
count_outcome c cancelled = record c { cancelled_count = c.cancelled_count + 1 }
count_outcome c _ = record c { advanced = c.advanced + 1 }

-- Why an enrollment of the tick was rejected, and what the tick throws.
pub data EntryError : Type 0 where
  engine : EngineError → EntryError
  repository : SequenceError → EntryError

pub data TickError : Type 0 where
  claim_failed : SequenceError → TickError
  aggregate : List EntryError → TickError

pub record SequenceTickSummary : Type 0 where
  pub claimed : ℕ
  pub counts : TickCounts
  pub completed_at : ℕ

pub record TickState (S : Type 0) : Type 0 where
  pub store : SequenceStore
  pub world : World S SequenceMessage

-- The settled results, counted and collected.
unfoldable pub count_fulfilled :
    TickCounts → List (Result EntryError SequenceEnrollment) → TickCounts
unfolding count_outcome
count_fulfilled c [] = c
count_fulfilled c (ok e ∷ rest) = count_fulfilled (count_outcome c e.status) rest
count_fulfilled c (err x ∷ rest) = count_fulfilled c rest

unfoldable pub rejected_reasons : List (Result EntryError SequenceEnrollment) → List EntryError
rejected_reasons [] = []
rejected_reasons (ok e ∷ rest) = rejected_reasons rest
rejected_reasons (err x ∷ rest) = x ∷ rejected_reasons rest

module _ {S E : Type 0} (x : Executor S E) (answers : String → StepEnvironment) where
  unfoldable pub execute_entry :
      ClaimedSequenceEnrollment
      → ℕ
      → TickState S
      → TickState S × Result EntryError SequenceEnrollment
  unfolding execute_claimed_enrollment complete_claim
  execute_entry entry now s =
      let (w, r) = execute_claimed_enrollment x entry (answers entry.enrollment.id) now s.world in
      elim r [
        | err e ↦ (record s { world = w }, err (engine e))
        | ok next ↦ elim (complete_claim entry.enrollment next s.store) [
          | err e ↦ (record s { world = w }, err (repository e))
          | ok (store, stored) ↦ (record { store = store; world = w }, ok stored)
        ]
      ]

  unfoldable pub execute_entries :
      List ClaimedSequenceEnrollment
      → ℕ
      → TickState S
      → TickState S × List (Result EntryError SequenceEnrollment)
  unfolding execute_entry
  execute_entries [] now s = (s, [])
  execute_entries (entry ∷ rest) now s =
      let (after, r) = execute_entry entry now s in
      let (final, rs) = execute_entries rest now after in (final, r ∷ rs)

  unfoldable pub run_sequence_tick :
      ClaimDueOptions → TickState S → TickState S × Result TickError SequenceTickSummary
  unfolding execute_entries count_fulfilled rejected_reasons claim_due
  run_sequence_tick o s = elim (claim_due o s.store) [
    | err e ↦ (s, err (claim_failed e))
    | ok (store, claimed) ↦
        let (after, results) = execute_entries claimed o.now (record s { store = store }) in
        let failures = rejected_reasons results in
        (
          after,
          if length failures == 0
              then ok (record {
                claimed = length claimed;
                counts = count_fulfilled no_counts results;
                completed_at = o.now;
              })
              else err (aggregate failures),
        )
  ]
