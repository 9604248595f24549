-- ===== src/Sequences/Execute.antt =====
-- packages/automation/src/sequence-engine.ts: the send step, and `executeClaimedEnrollment` up to
-- the enrollment that it hands to `completeClaim`.
use Prim.Native.String
use listmonk_ops.Prelude.{
  ℕ, ◌+◌, ◌*◌, String, Option, none, some, Bool, Result, ok, err, if◌then◌else◌, same, ltb, find,
}
use listmonk_ops.Idempotency
use listmonk_ops.Transactional.{
  Context, Environment, World, SendOutput, SendError, reconcile, send_transactional_message,
}
use listmonk_ops.Transactional.Failures.{Failure}
use listmonk_ops.Sequences.{
  SequenceStep, send, wait, wait_until, condition, stop, SendStep, step_id, SequenceEnrollment,
  ClaimedSequenceEnrollment, SequenceEnrollmentStatus, pending, waiting, failed, ambiguous,
  cancelled,
}
use listmonk_ops.Sequences.Values.{Fields, end_fields, field, text, number, spread}
use listmonk_ops.Sequences.Engine.{
  EngineError, Subscriber, next_step, evaluate_condition, without_lease, complete, move_to, advance,
  transition_to_next, subscriber_cannot_receive, retry_enrollment, truncate_error, decimal,
}

-- The payload of a sequence message.
pub record SequenceMessage : Type 0 where
  pub template_id : ℕ
  pub subscriber_id : ℕ
  pub from_email : Option String
  pub data_fields : Fields
  pub content_type : Option String
  pub messenger : Option String
  pub subject : Option String
  pub alt_body : Option String

-- `getSubscriber`: a subscriber, a 404, or another error.
pub data SubscriberLookup : Type 0 where
  found : Subscriber → SubscriberLookup
  resource_missing : SubscriberLookup
  lookup_failed : Failure → SubscriberLookup

-- What the outside supplies to the execution of one step.
pub record StepEnvironment : Type 0 where
  pub lookup : SubscriberLookup
  pub sending : Environment
  pub retry_jitter : Option ℕ

-- What the executor takes as given: the send context, the parser of the stored sender (whether it
-- succeeds, and its result), lower-casing,
-- and how an error of the send reads as an `Error`.
pub record Executor (S E : Type 0) : Type 0 where
  pub context : Context S E SequenceMessage
  pub from_email_valid : Option String → Bool
  pub parsed_from_email : Option String → Option String
  pub to_lower_case : String → String
  pub describe : SendError E → Failure

unfoldable pub deterministic_send_key : SequenceEnrollment → String
deterministic_send_key e = String.◌++◌ "sequence:" (
    String.◌++◌ e.id (
      String.◌++◌ ":revision:"
        (String.◌++◌ (decimal e.revision) (String.◌++◌ ":step:" e.current_step_id))))

unfoldable pub message_of : Option String → ClaimedSequenceEnrollment → SendStep → SequenceMessage
message_of from_email claimed step = record {
  template_id = step.template_id;
  subscriber_id = e.subscriber_id;
  from_email = from_email;
  data_fields = spread (spread step.step_data e.context) (
      field "sequence_id" (text e.sequence_id) (
        field "sequence_revision" (number e.revision) (
          field "sequence_enrollment_id" (text e.id)
            (field "sequence_step_id" (text step.id) end_fields))));
  content_type = step.content_type;
  messenger = step.messenger;
  subject = step.subject;
  alt_body = step.alt_body;
}
  where
    e : SequenceEnrollment
    e = claimed.enrollment

abbrev pub ends_as : SequenceEnrollment → SequenceEnrollmentStatus → String → ℕ → SequenceEnrollment
ends_as e status message now =
    without_lease (record e { status = status; retry_count = 0; last_error = some message }) now

module _ {S E : Type 0} (x : Executor S E) where
  -- The `catch` of `executeSendStep`, for an error that is neither a reconcile error nor a 404.
  unfoldable pub other_error : SequenceEnrollment → ℕ → Option ℕ → Failure → SequenceEnrollment
  other_error e now jitter f =
      if x.context.definitive f
      then retry_enrollment e now f.message jitter
      else ends_as e failed (truncate_error f.message) now

  unfoldable pub send_error : SequenceEnrollment → ℕ → Option ℕ → SendError E → SequenceEnrollment
  unfolding other_error
  send_error e now jitter (reconcile Idempotency.pending) =
      retry_enrollment e now (x.describe (reconcile Idempotency.pending)).message jitter
  send_error e now jitter (reconcile status) =
      without_lease
        (record e {
          status = ambiguous;
          last_error = some (truncate_error (x.describe (reconcile status)).message);
        })
        now
  send_error e now jitter other = other_error e now jitter (x.describe other)

  -- After the message was handed to the transactional operation.
  unfoldable pub after_send :
      ClaimedSequenceEnrollment
      → ℕ
      → Option ℕ
      → Result (SendError E) SendOutput
      → Result EngineError SequenceEnrollment
  unfolding send_error
  after_send claimed now jitter (err e) = ok (send_error claimed.enrollment now jitter e)
  after_send claimed now jitter (ok output) =
      if output.sent
      then transition_to_next claimed now
      else ok (ends_as claimed.enrollment failed "Listmonk rejected the sequence message" now)

  -- The message is sent under a key of the enrollment, its revision and its step.
  unfoldable pub send_message :
      ClaimedSequenceEnrollment
      → SendStep
      → StepEnvironment
      → ℕ
      → World S SequenceMessage
      → World S SequenceMessage × Result EngineError SequenceEnrollment
  unfolding after_send
  send_message claimed step env now w =
      let (w', result) =
        send_transactional_message x.context env.sending
          (record {
            payload = message_of (x.parsed_from_email step.from_email) claimed step;
            idempotency_key = some (deterministic_send_key claimed.enrollment);
          })
          w in
      (w', after_send claimed now env.retry_jitter result)

  unfoldable pub send_to :
      ClaimedSequenceEnrollment
      → SendStep
      → StepEnvironment
      → ℕ
      → World S SequenceMessage
      → SubscriberLookup
      → World S SequenceMessage × Result EngineError SequenceEnrollment
  unfolding send_message
  send_to claimed step env now w resource_missing = (
    w,
    ok (
        ends_as claimed.enrollment cancelled
          "Sequence delivery cancelled because the subscriber no longer exists" now),
  )
  send_to claimed step env now w (lookup_failed f) =
      (w, ok (other_error claimed.enrollment now env.retry_jitter f))
  send_to claimed step env now w (found subscriber) =
      elim (subscriber_cannot_receive x.to_lower_case subscriber) [
        | some reason ↦ (
          w,
          ok (
              ends_as claimed.enrollment cancelled
                (String.◌++◌ "Sequence delivery cancelled because " reason) now),
        )
        | none ↦ send_message claimed step env now w
      ]

  unfoldable pub execute_send_step :
      ClaimedSequenceEnrollment
      → SendStep
      → StepEnvironment
      → ℕ
      → World S SequenceMessage
      → World S SequenceMessage × Result EngineError SequenceEnrollment
  unfolding send_to
  execute_send_step claimed step env now w =
      if x.from_email_valid step.from_email then send_to claimed step env now w env.lookup else (
        w,
        ok (
            ends_as claimed.enrollment failed
              "Sequence delivery failed because its stored From mailbox is invalid" now),
      )

  -- The `switch` on the type of the step.
  unfoldable pub execute_step :
      ClaimedSequenceEnrollment
      → SequenceStep
      → StepEnvironment
      → ℕ
      → World S SequenceMessage
      → World S SequenceMessage × Result EngineError SequenceEnrollment
  unfolding execute_send_step
  execute_step claimed (send step) env now w = execute_send_step claimed step env now w
  execute_step claimed (wait id seconds) env now w = (
    w,
    elim (next_step claimed.revision id) [
      | err e ↦ err e
      | ok following ↦ ok (advance claimed.enrollment waiting (now + seconds * 1_000) now following)
    ],
  )
  execute_step claimed (wait_until id at) env now w = (
    w,
    elim (next_step claimed.revision id) [
      | err e ↦ err e
      | ok following ↦ ok (
          if ltb now at
          then advance claimed.enrollment waiting at now following
          else advance claimed.enrollment pending now now following)
    ],
  )
  execute_step claimed (condition c) env now w = (
    w,
    ok (
        without_lease
          (move_to claimed.enrollment pending
            (if evaluate_condition c claimed.enrollment.context then c.on_true else c.on_false) now)
          now),
  )
  execute_step claimed (stop id) env now w =
      (w, ok (without_lease (complete claimed.enrollment) now))

  -- `executeClaimedEnrollment`, but for the final `completeClaim`.
  unfoldable pub execute_claimed_enrollment :
      ClaimedSequenceEnrollment
      → StepEnvironment
      → ℕ
      → World S SequenceMessage
      → World S SequenceMessage × Result EngineError SequenceEnrollment
  unfolding execute_step
  execute_claimed_enrollment claimed env now w =
      elim (find (λ s. same (step_id s) claimed.enrollment.current_step_id)
        claimed.revision.steps) [
          | none ↦ (
            w,
            ok (
                ends_as claimed.enrollment failed
                  (String.◌++◌ "Current step " (
                    String.◌++◌ claimed.enrollment.current_step_id (
                      String.◌++◌ " is missing from revision "
                        (decimal claimed.revision.revision))))
                  now),
          )
          | some step ↦ execute_step claimed step env now w
        ]
