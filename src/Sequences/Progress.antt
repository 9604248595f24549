-- ===== src/Sequences/Progress.antt =====
-- packages/automation/src/sequence-engine.ts: every execution brings an enrollment closer to its
-- end, by steps that remain and by retries that remain of the current step.
use listmonk_ops.Prelude.{
  ℕ, suc, ◌+◌, ◌-◌, ◌*◌, ◌<◌, String, Option, none, some, Bool, true, Result, ok, err, List, same,
  length, get_elem?, find, leb, ltb, ◌⊎◌, ◌≡◌, refl, arith, subst, Bool-cases, Option-cases, inl,
  inr,
}
use listmonk_ops.Idempotency
use listmonk_ops.Transactional.{
  World, SendError, SendOutput, no_store, key_conflict, reconcile, dispatch_failed, store_failed,
  send_transactional_message,
}
use listmonk_ops.Transactional.Failures.{Failure}
use listmonk_ops.Sequences.{
  SequenceStep, send, wait, wait_until, condition, stop, SendStep, step_id, SequenceEnrollment,
  ClaimedSequenceEnrollment, SequenceEnrollmentStatus, pending, waiting, ambiguous,
  enrollment_is_terminal,
}
use listmonk_ops.Sequences.Topology.{find_step_index, validate_sequence_step_topology}
use listmonk_ops.Sequences.Topology.Sound.{
  UniqueIds, IsPlaced, Continues, validate_iff, find_step_index-lt,
}
use listmonk_ops.Sequences.Topology.Lookup.{
  All-find, find-find_step_index, get_elem?-find_step_index,
}
use listmonk_ops.Sequences.Engine.{
  EngineError, next_step, evaluate_condition, without_lease, move_to, advance, transition_to_next,
  retry_enrollment, subscriber_cannot_receive,
}
use listmonk_ops.Sequences.Execute.{
  Executor, StepEnvironment, SubscriberLookup, found, resource_missing, lookup_failed,
  SequenceMessage, other_error, send_error, after_send, send_message, send_to, execute_send_step,
  execute_step, execute_claimed_enrollment, message_of, deterministic_send_key,
}

-- No worker claims the enrollment any more.
abbrev pub is_settled : SequenceEnrollmentStatus → Bool
is_settled ambiguous = true
is_settled s = enrollment_is_terminal s

executions_from : List SequenceStep → ℕ → Option ℕ → ℕ
executions_from steps retries none = 0
executions_from steps retries (some i) = (length steps - i) * 24 - retries

-- How many executions an enrollment can still take.
unfoldable pub remaining_executions : List SequenceStep → SequenceEnrollment → ℕ
unfolding executions_from
remaining_executions steps e =
    executions_from steps e.retry_count (find_step_index e.current_step_id steps)

-- After an execution, an enrollment is settled or it has fewer executions before it.
abbrev pub IsCloser : List SequenceStep → SequenceEnrollment → SequenceEnrollment → Type 0
IsCloser steps e next =
    (is_settled next.status ≡ true)
    ⊎ ((next.retry_count < 24) × (remaining_executions steps next < remaining_executions steps e))

abbrev pub GetsCloser :
    List SequenceStep → SequenceEnrollment → Result EngineError SequenceEnrollment → Type 0
GetsCloser steps e (err x) = ⊥
GetsCloser steps e (ok next) = IsCloser steps e next

module _ (steps : List SequenceStep) (e : SequenceEnrollment) (i : ℕ)
    (at : find_step_index e.current_step_id steps ≡ some i) (few : e.retry_count < 24) where
  before :
      (i < length steps) × (remaining_executions steps e ≡ (length steps - i) * 24 - e.retry_count)
  unfolding remaining_executions
  before = (find_step_index-lt e.current_step_id steps i at, rw at refl)

  later-IsCloser :
      (status : SequenceEnrollmentStatus) (id : String) (j run now : ℕ)
      → find_step_index id steps ≡ some j
      → i < j
      → IsCloser steps e (without_lease (move_to e status id run) now)
  unfolding remaining_executions without_lease
  later-IsCloser status id j run now f lt =
      inr (omega arith, rw f (omega (arith, before, few, lt, find_step_index-lt id steps j f)))

  advance-IsCloser :
      (status : SequenceEnrollmentStatus) (run now : ℕ) (following : Option SequenceStep)
      → UniqueIds steps
      → get_elem? steps (suc i) ≡ following
      → IsCloser steps e (advance e status run now following)
  unfolding without_lease
  advance-IsCloser status run now none u f = inl refl
  advance-IsCloser status run now (some s) u f =
      later-IsCloser status (step_id s) (suc i) run now
        (get_elem?-find_step_index steps (suc i) s u f) (omega arith)

  retry-IsCloser :
      (now : ℕ) (message : String) (jitter : Option ℕ)
      → IsCloser steps e (retry_enrollment e now message jitter)
  unfolding retry_enrollment without_lease remaining_executions
  retry-IsCloser now message jitter = elim (Bool-cases (leb 24 (e.retry_count + 1))) [
    | inl b ↦ inl (rw (b, retry_enrollment) refl)
    | inr b ↦ inr (
      rw (b, retry_enrollment) (ground arith),
      rw (b, retry_enrollment) (rw at (omega (arith, before, few))),
    )
  ]

  module _ {S E : Type 0} (x : Executor S E) where
    other_error-IsCloser :
        (now : ℕ) (jitter : Option ℕ) (f : Failure)
        → IsCloser steps e (other_error x e now jitter f)
    unfolding other_error without_lease
    other_error-IsCloser now jitter f = elim (Bool-cases (x.context.definitive f)) [
      | inl b ↦ rw (b, other_error) (retry-IsCloser now f.message jitter)
      | inr b ↦ inl (rw (b, other_error) refl)
    ]

    send_error-IsCloser :
        (now : ℕ) (jitter : Option ℕ) (r : SendError E)
        → IsCloser steps e (send_error x e now jitter r)
    unfolding send_error without_lease
    send_error-IsCloser now jitter (reconcile Idempotency.pending) =
        retry-IsCloser now (x.describe (reconcile Idempotency.pending)).message jitter
    send_error-IsCloser now jitter (reconcile Idempotency.accepted) = inl refl
    send_error-IsCloser now jitter (reconcile Idempotency.failed) = inl refl
    send_error-IsCloser now jitter (reconcile Idempotency.unknown) = inl refl
    send_error-IsCloser now jitter no_store = other_error-IsCloser now jitter (x.describe no_store)
    send_error-IsCloser now jitter key_conflict =
        other_error-IsCloser now jitter (x.describe key_conflict)
    send_error-IsCloser now jitter (dispatch_failed f) =
        other_error-IsCloser now jitter (x.describe (dispatch_failed f))
    send_error-IsCloser now jitter (store_failed f) =
        other_error-IsCloser now jitter (x.describe (store_failed f))

module _ {S E : Type 0} (x : Executor S E) (claimed : ClaimedSequenceEnrollment) (i : ℕ)
    (unique : UniqueIds claimed.revision.steps)
    (at : find_step_index claimed.enrollment.current_step_id claimed.revision.steps ≡ some i)
    (few : claimed.enrollment.retry_count < 24) where
  abbrev Closer : Result EngineError SequenceEnrollment → Type 0
  Closer = GetsCloser claimed.revision.steps claimed.enrollment

  transition_to_next-Closer : (now : ℕ) → Closer (transition_to_next claimed now)
  unfolding transition_to_next next_step
  transition_to_next-Closer now =
      rw (at, transition_to_next)
        (advance-IsCloser claimed.revision.steps claimed.enrollment i at few pending now now
          (get_elem? claimed.revision.steps (suc i)) unique refl)

  after_send-Closer :
      (now : ℕ) (jitter : Option ℕ) (r : Result (SendError E) SendOutput)
      → Closer (after_send x claimed now jitter r)
  unfolding after_send without_lease
  after_send-Closer now jitter (err r) =
      send_error-IsCloser claimed.revision.steps claimed.enrollment i at few x now jitter r
  after_send-Closer now jitter (ok output) = elim (Bool-cases output.sent) [
    | inl b ↦ rw (b, after_send) (transition_to_next-Closer now)
    | inr b ↦ rw (b, after_send) (inl refl)
  ]

  send_to-Closer :
      (step : SendStep) (env : StepEnvironment) (now : ℕ) (w : World S SequenceMessage)
      (l : SubscriberLookup)
      → Closer (send_to x claimed step env now w l).1
  unfolding send_to without_lease send_message
  send_to-Closer step env now w resource_missing = inl refl
  send_to-Closer step env now w (lookup_failed f) =
      other_error-IsCloser claimed.revision.steps claimed.enrollment i at few x now env.retry_jitter
        f
  send_to-Closer step env now w (found s) =
      elim (Option-cases (subscriber_cannot_receive x.to_lower_case s)) [
        | inl n ↦
            rw (n, send_to)
              (after_send-Closer now env.retry_jitter
                (send_transactional_message x.context env.sending
                  (record {
                    payload = message_of (x.parsed_from_email step.from_email) claimed step;
                    idempotency_key = some (deterministic_send_key claimed.enrollment);
                  })
                  w).1)
        | inr (reason, n) ↦ rw (n, send_to) (inl refl)
      ]

  execute_send_step-Closer :
      (step : SendStep) (env : StepEnvironment) (now : ℕ) (w : World S SequenceMessage)
      → Closer (execute_send_step x claimed step env now w).1
  unfolding execute_send_step without_lease
  execute_send_step-Closer step env now w = elim (Bool-cases (x.from_email_valid step.from_email)) [
    | inl b ↦ rw (b, execute_send_step) (send_to-Closer step env now w env.lookup)
    | inr b ↦ rw (b, execute_send_step) (inl refl)
  ]

  execute_step-Closer :
      (s : SequenceStep) (env : StepEnvironment) (now : ℕ) (w : World S SequenceMessage)
      → step_id s ≡ claimed.enrollment.current_step_id
      → Continues claimed.revision.steps i s
      → Closer (execute_step x claimed s env now w).1
  unfolding execute_step without_lease next_step
  execute_step-Closer (send step) env now w same_id h = execute_send_step-Closer step env now w
  execute_step-Closer (wait id seconds) env now w same_id h =
      rw (same_id, at, execute_step, next_step)
        (advance-IsCloser claimed.revision.steps claimed.enrollment i at few waiting
          (now + seconds * 1_000) now (get_elem? claimed.revision.steps (suc i)) unique refl)
  execute_step-Closer (wait_until id run) env now w same_id h = elim (Bool-cases (ltb now run)) [
    | inl b ↦
        rw (same_id, at, b, execute_step, next_step)
          (advance-IsCloser claimed.revision.steps claimed.enrollment i at few waiting run now
            (get_elem? claimed.revision.steps (suc i)) unique refl)
    | inr b ↦
        rw (same_id, at, b, execute_step, next_step)
          (advance-IsCloser claimed.revision.steps claimed.enrollment i at few pending now now
            (get_elem? claimed.revision.steps (suc i)) unique refl)
  ]
  execute_step-Closer (condition c) env now w same_id ((j, f, lt), (k, g, gt)) =
      elim (Bool-cases (evaluate_condition c claimed.enrollment.context)) [
        | inl b ↦
            rw (b, execute_step)
              (later-IsCloser claimed.revision.steps claimed.enrollment i at few pending c.on_true j
                now now f lt)
        | inr b ↦
            rw (b, execute_step)
              (later-IsCloser claimed.revision.steps claimed.enrollment i at few pending c.on_false
                k now now g gt)
      ]
  execute_step-Closer (stop id) env now w same_id h = inl refl

-- Whatever the send context, the subscriber lookup and the dispatch do, executing a claimed
-- enrollment whose revision passes validation, and which has fewer than 24 retries behind it,
-- always yields a next state, and that state is settled (completed, failed, cancelled or
-- ambiguous) or still below 24 retries and strictly closer to its end, counted as 24 executions
-- for each step from the current one on, less the retries of the current step.
pub execution-GetsCloser :
    {S E : Type 0} (x : Executor S E) (claimed : ClaimedSequenceEnrollment) (env : StepEnvironment)
    (now : ℕ) (w : World S SequenceMessage)
    → validate_sequence_step_topology claimed.revision.steps ≡ ok claimed.revision.steps
    → claimed.enrollment.retry_count < 24
    → GetsCloser claimed.revision.steps claimed.enrollment
        (execute_claimed_enrollment x claimed env now w).1
unfolding execute_claimed_enrollment without_lease
execution-GetsCloser x claimed env now w valid few =
    let steps = claimed.revision.steps in
    let id = claimed.enrollment.current_step_id in
    let (unique, placed) = (validate_iff steps).0 valid in
    elim (Option-cases (find (λ s. same (step_id s) id) steps)) [
      | inl n ↦ rw (n, execute_claimed_enrollment) (inl refl)
      | inr (s, e) ↦
          let (i, at, same_id) = find-find_step_index id steps s e in
          let (j, here, continues) =
            All-find (IsPlaced steps) (λ t. same (step_id t) id) steps s placed e in
          rw (e, execute_claimed_enrollment)
            (execute_step-Closer x claimed i unique at few s env now w same_id
              (subst (λ k. Continues steps k s) {x = j} {y = i} (ground arith) continues))
    ]
