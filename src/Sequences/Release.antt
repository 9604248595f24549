-- ===== src/Sequences/Release.antt =====
-- packages/automation/src/sequence-engine.ts: an execution keeps the identity of its enrollment and
-- gives the lease back.
use listmonk_ops.Prelude.{
  ℕ, String, ◌+◌, ◌*◌, Option, none, some, Bool, true, false, Result, ok, err, same, find, leb, ltb,
  ◌≡◌, refl, Bool-cases, Option-cases, inl, inr, if◌then◌else◌,
}
use listmonk_ops.Idempotency
use listmonk_ops.Transactional.{
  World, SendError, SendOutput, no_store, key_conflict, reconcile, dispatch_failed, store_failed,
  send_transactional_message,
}
use listmonk_ops.Transactional.Failures.{Failure}
use listmonk_ops.Sequences.{
  SequenceStep, send, wait, wait_until, condition, stop, SendStep, step_id, SequenceEnrollment,
  SequenceEnrollmentStatus, pending, waiting, ClaimedSequenceEnrollment,
}
use listmonk_ops.Sequences.Engine.{
  EngineError, without_lease, next_step, advance, transition_to_next, retry_enrollment,
  subscriber_cannot_receive,
}
use listmonk_ops.Sequences.Execute.{
  Executor, StepEnvironment, SubscriberLookup, found, resource_missing, lookup_failed,
  SequenceMessage, other_error, send_error, after_send, send_message, send_to, execute_send_step,
  execute_step, execute_claimed_enrollment, message_of, deterministic_send_key,
}

-- The same enrollment of the same subscriber in the same revision, with no lease.
abbrev pub IsReleased : SequenceEnrollment → SequenceEnrollment → Type 0
IsReleased e next =
    (next.id ≡ e.id)
    × (next.sequence_id ≡ e.sequence_id)
    × (next.revision ≡ e.revision)
    × (next.subscriber_id ≡ e.subscriber_id)
    × (next.lease_token ≡ none)
    × (next.lease_expires_at ≡ none)

abbrev pub Releases : SequenceEnrollment → Result EngineError SequenceEnrollment → Type 0
Releases e (err x) = Unit
Releases e (ok next) = IsReleased e next

advance-IsReleased :
    (e : SequenceEnrollment) (status : SequenceEnrollmentStatus) (at now : ℕ)
    (following : Option SequenceStep)
    → IsReleased e (advance e status at now following)
unfolding without_lease
advance-IsReleased e status at now none = (refl, refl, refl, refl, refl, refl)
advance-IsReleased e status at now (some s) = (refl, refl, refl, refl, refl, refl)

following-Releases :
    (e : SequenceEnrollment) (status : SequenceEnrollmentStatus) (at now : ℕ)
    (r : Result EngineError (Option SequenceStep))
    → Releases e (elim r [ err x ↦ err x | ok following ↦ ok (advance e status at now following) ])
following-Releases e status at now (err x) = tt
following-Releases e status at now (ok following) = advance-IsReleased e status at now following

until-Releases :
    (e : SequenceEnrollment) (at now : ℕ) (early : Bool)
    (r : Result EngineError (Option SequenceStep))
    → Releases e (elim r [
      | err x ↦ err x
      | ok following ↦ ok (
          if early then advance e waiting at now following else advance e pending now now following)
    ])
until-Releases e at now early (err x) = tt
until-Releases e at now true (ok following) = advance-IsReleased e waiting at now following
until-Releases e at now false (ok following) = advance-IsReleased e pending now now following

retry-IsReleased :
    (e : SequenceEnrollment) (now : ℕ) (message : String) (jitter : Option ℕ)
    → IsReleased e (retry_enrollment e now message jitter)
unfolding retry_enrollment without_lease
retry-IsReleased e now message jitter = elim (Bool-cases (leb 24 (e.retry_count + 1))) [
  | inl b ↦ rw (b, retry_enrollment) (refl, refl, refl, refl, refl, refl)
  | inr b ↦ rw (b, retry_enrollment) (refl, refl, refl, refl, refl, refl)
]

module _ {S E : Type 0} (x : Executor S E) where
  other_error-IsReleased :
      (e : SequenceEnrollment) (now : ℕ) (jitter : Option ℕ) (f : Failure)
      → IsReleased e (other_error x e now jitter f)
  unfolding other_error without_lease
  other_error-IsReleased e now jitter f = elim (Bool-cases (x.context.definitive f)) [
    | inl b ↦ rw (b, other_error) (retry-IsReleased e now f.message jitter)
    | inr b ↦ rw (b, other_error) (refl, refl, refl, refl, refl, refl)
  ]

  send_error-IsReleased :
      (e : SequenceEnrollment) (now : ℕ) (jitter : Option ℕ) (r : SendError E)
      → IsReleased e (send_error x e now jitter r)
  unfolding send_error without_lease
  send_error-IsReleased e now jitter (reconcile Idempotency.pending) =
      retry-IsReleased e now (x.describe (reconcile Idempotency.pending)).message jitter
  send_error-IsReleased e now jitter (reconcile Idempotency.accepted) =
      (refl, refl, refl, refl, refl, refl)
  send_error-IsReleased e now jitter (reconcile Idempotency.failed) =
      (refl, refl, refl, refl, refl, refl)
  send_error-IsReleased e now jitter (reconcile Idempotency.unknown) =
      (refl, refl, refl, refl, refl, refl)
  send_error-IsReleased e now jitter no_store =
      other_error-IsReleased e now jitter (x.describe no_store)
  send_error-IsReleased e now jitter key_conflict =
      other_error-IsReleased e now jitter (x.describe key_conflict)
  send_error-IsReleased e now jitter (dispatch_failed f) =
      other_error-IsReleased e now jitter (x.describe (dispatch_failed f))
  send_error-IsReleased e now jitter (store_failed f) =
      other_error-IsReleased e now jitter (x.describe (store_failed f))

  module _ (claimed : ClaimedSequenceEnrollment) where
    after_send-Releases :
        (now : ℕ) (jitter : Option ℕ) (r : Result (SendError E) SendOutput)
        → Releases claimed.enrollment (after_send x claimed now jitter r)
    unfolding after_send transition_to_next without_lease
    after_send-Releases now jitter (err r) = send_error-IsReleased claimed.enrollment now jitter r
    after_send-Releases now jitter (ok output) = elim (Bool-cases output.sent) [
      | inl b ↦
          rw (b, after_send)
            (following-Releases claimed.enrollment pending now now
              (next_step claimed.revision claimed.enrollment.current_step_id))
      | inr b ↦ rw (b, after_send) (refl, refl, refl, refl, refl, refl)
    ]

    send_to-Releases :
        (step : SendStep) (env : StepEnvironment) (now : ℕ) (w : World S SequenceMessage)
        (l : SubscriberLookup)
        → Releases claimed.enrollment (send_to x claimed step env now w l).1
    unfolding send_to without_lease send_message
    send_to-Releases step env now w resource_missing = (refl, refl, refl, refl, refl, refl)
    send_to-Releases step env now w (lookup_failed f) =
        other_error-IsReleased claimed.enrollment now env.retry_jitter f
    send_to-Releases step env now w (found s) =
        elim (Option-cases (subscriber_cannot_receive x.to_lower_case s)) [
          | inl n ↦
              rw (n, send_to)
                (after_send-Releases now env.retry_jitter
                  (send_transactional_message x.context env.sending
                    (record {
                      payload = message_of (x.parsed_from_email step.from_email) claimed step;
                      idempotency_key = some (deterministic_send_key claimed.enrollment);
                    })
                    w).1)
          | inr (reason, n) ↦ rw (n, send_to) (refl, refl, refl, refl, refl, refl)
        ]

    execute_step-Releases :
        (s : SequenceStep) (env : StepEnvironment) (now : ℕ) (w : World S SequenceMessage)
        → Releases claimed.enrollment (execute_step x claimed s env now w).1
    unfolding execute_step without_lease execute_send_step
    execute_step-Releases (send step) env now w =
        elim (Bool-cases (x.from_email_valid step.from_email)) [
          | inl b ↦
              rw (b, execute_step, execute_send_step) (send_to-Releases step env now w env.lookup)
          | inr b ↦ rw (b, execute_step, execute_send_step) (refl, refl, refl, refl, refl, refl)
        ]
    execute_step-Releases (wait id seconds) env now w =
        following-Releases claimed.enrollment waiting (now + seconds * 1_000) now
          (next_step claimed.revision id)
    execute_step-Releases (wait_until id at) env now w =
        until-Releases claimed.enrollment at now (ltb now at) (next_step claimed.revision id)
    execute_step-Releases (condition c) env now w = (refl, refl, refl, refl, refl, refl)
    execute_step-Releases (stop id) env now w = (refl, refl, refl, refl, refl, refl)

-- A next state that an execution yields, whatever the step and the answers from outside, is of the
-- same enrollment, sequence, revision and subscriber, and holds no lease.
pub execute-Releases :
    {S E : Type 0} (x : Executor S E) (claimed : ClaimedSequenceEnrollment) (env : StepEnvironment)
    (now : ℕ) (w : World S SequenceMessage)
    → Releases claimed.enrollment (execute_claimed_enrollment x claimed env now w).1
unfolding execute_claimed_enrollment without_lease
execute-Releases x claimed env now w =
    elim (Option-cases
      (find (λ s. same (step_id s) claimed.enrollment.current_step_id) claimed.revision.steps)) [
        | inl n ↦ rw (n, execute_claimed_enrollment) (refl, refl, refl, refl, refl, refl)
        | inr (s, e) ↦
            rw (e, execute_claimed_enrollment) (execute_step-Releases x claimed s env now w)
      ]
