-- ===== src/Sequences/Engine.antt =====
-- packages/automation/src/sequence-engine.ts: executing the current step of a claimed enrollment.
-- What a step leaves is the enrollment that `completeClaim` is to store. `retryJitter` is a number
-- of thousandths, `none` if it is not finite.
use Prim.Native.String
use listmonk_ops.Prelude.{
  ℕ, zero, suc, ◌+◌, ◌-◌, ◌*◌, ◌/◌, ◌%◌, ◌^◌, min, String, Option, none, some, Bool, true, false,
  Result, ok, err, if◌then◌else◌, List, [], ◌∷◌, same, leb, ltb, ◌&&◌, ◌||◌, not, all, get_elem?,
}
use listmonk_ops.Sequences.{
  SequenceStep, ConditionStep, equals, not_equals, exists, step_id, SequenceRevision,
  SequenceEnrollment, ClaimedSequenceEnrollment, SequenceEnrollmentStatus, pending, completed,
  failed,
}
use listmonk_ops.Sequences.Topology.{find_step_index}
use listmonk_ops.Sequences.Values.{Json, Fields, object, deep_equal, resolve_path, text_take}

-- What the executor throws instead of a next state.
pub data EngineError : Type 0 where
  missing_current_step : EngineError

abbrev pub sequence_retry_base_delay_ms : ℕ
sequence_retry_base_delay_ms = 5_000

abbrev pub sequence_retry_max_delay_ms : ℕ
sequence_retry_max_delay_ms = 300_000

abbrev pub sequence_retry_max_attempts : ℕ
sequence_retry_max_attempts = 24

abbrev pub truncate_error : String → String
truncate_error e = text_take 1_000 e

-- `nextStep`: the step behind the current one, `none` at the end.
unfoldable pub next_step : SequenceRevision → String → Result EngineError (Option SequenceStep)
next_step revision current = elim (find_step_index current revision.steps) [
  | none ↦ err missing_current_step
  | some i ↦ ok (get_elem? revision.steps (suc i))
]

unfoldable pub evaluate_condition : ConditionStep → Fields → Bool
evaluate_condition c context =
    let actual = resolve_path (object context) c.path in
    let equal = equal_values actual c.value in
    elim c.operator [ exists ↦ is_defined actual | equals ↦ equal | not_equals ↦ not equal ]
  where
    is_defined : Option Json → Bool
    is_defined none = false
    is_defined (some v) = true

    equal_values : Option Json → Option Json → Bool
    equal_values none none = true
    equal_values (some a) (some b) = deep_equal a b
    equal_values _ _ = false

-- `withoutLease`, applied to the enrollment with its changes made.
unfoldable pub without_lease : SequenceEnrollment → ℕ → SequenceEnrollment
without_lease e now = record e {
  lease_token = none;
  lease_expires_at = none;
  last_transition_at = now;
  updated_at = now;
}

-- The changes that end the sequence.
abbrev pub complete : SequenceEnrollment → SequenceEnrollment
complete e = record e { status = completed; retry_count = 0; last_error = none }

-- The changes that move on to a step, at once or later.
abbrev pub move_to : SequenceEnrollment → SequenceEnrollmentStatus → String → ℕ → SequenceEnrollment
move_to e status id at = record e {
  status = status;
  retry_count = 0;
  current_step_id = id;
  next_run_at = at;
  last_error = none;
}

-- A step that ends with `advance` at a time goes to the following step, or completes.
abbrev pub advance :
    SequenceEnrollment → SequenceEnrollmentStatus → ℕ → ℕ → Option SequenceStep → SequenceEnrollment
advance e status at now none = without_lease (complete e) now
advance e status at now (some s) = without_lease (move_to e status (step_id s) at) now

unfoldable pub transition_to_next :
    ClaimedSequenceEnrollment → ℕ → Result EngineError SequenceEnrollment
unfolding without_lease
transition_to_next claimed now =
    elim (next_step claimed.revision claimed.enrollment.current_step_id) [
      | err e ↦ err e
      | ok following ↦ ok (advance claimed.enrollment pending now now following)
    ]

-- A subscriber as far as the executor looks.
pub record Subscriber : Type 0 where
  pub status : Option String
  pub list_statuses : List (Option String)

abbrev is_text : Option String → String → Bool
is_text none t = false
is_text (some s) t = same s t

-- `subscriberCannotReceive`: a reason, or none. `to_lower_case` is the runtime's.
unfoldable pub subscriber_cannot_receive : (String → String) → Subscriber → Option String
subscriber_cannot_receive to_lower_case s =
    let status = lowered s.status in
    if is_text status "blocklisted" || is_text status "disabled"
    then some (String.◌++◌ "subscriber is " (or_empty status))
    else if not (is_empty s.list_statuses)
        && all (λ l. is_text (lowered l) "unsubscribed") s.list_statuses
    then some "subscriber is unsubscribed from every list"
    else none
  where
    lowered : Option String → Option String
    lowered none = none
    lowered (some t) = some (to_lower_case t)

    or_empty : Option String → String
    or_empty none = ""
    or_empty (some t) = t

    is_empty : List (Option String) → Bool
    is_empty [] = true
    is_empty (x ∷ xs) = false

-- `min(base * 2 ** min(retryCount - 1, 16), max)`.
unfoldable pub capped_delay_ms : ℕ → ℕ
capped_delay_ms retry_count =
    min (sequence_retry_base_delay_ms * 2 ^ min (retry_count - 1) 16) sequence_retry_max_delay_ms

abbrev pub normalized_jitter : Option ℕ → ℕ
normalized_jitter none = 500
normalized_jitter (some j) = min j 1_000

-- `Math.round(capped / 2 + (capped / 2) * jitter)`.
unfoldable pub retry_delay_ms : ℕ → Option ℕ → ℕ
retry_delay_ms retry_count jitter =
    (capped_delay_ms retry_count * (1_000 + normalized_jitter jitter) + 1_000) / 2_000

-- The decimal text of a number, with the fuel `n + 1` that is more than its digits.
abbrev pub digit : ℕ → String
digit n =
    elim (get_elem? {A = String} ("0" ∷ "1" ∷ "2" ∷ "3" ∷ "4" ∷ "5" ∷ "6" ∷ "7" ∷ "8" ∷ []) n) [
      | none ↦ "9"
      | some d ↦ d
    ]

unfoldable pub decimal_from : ℕ → ℕ → String
decimal_from zero n = digit n
decimal_from (suc fuel) n =
    let longer = String.◌++◌ (decimal_from fuel (n / 10)) (digit (n % 10)) in
    if ltb n 10 then digit n else longer

unfoldable pub decimal : ℕ → String
unfolding decimal_from
decimal n = decimal_from (n + 1) n

unfoldable pub exhausted_message : ℕ → String → String
exhausted_message retry_count message = String.◌++◌ "Sequence delivery failed after " (
    String.◌++◌ (decimal retry_count)
      (String.◌++◌ " retryable attempts: " (truncate_error message)))

unfoldable pub retry_enrollment : SequenceEnrollment → ℕ → String → Option ℕ → SequenceEnrollment
unfolding without_lease
retry_enrollment e now message jitter =
    let retry_count = e.retry_count + 1 in
    if leb sequence_retry_max_attempts retry_count
    then without_lease
        (record e {
          status = failed;
          retry_count = retry_count;
          last_error = some (exhausted_message retry_count message);
        })
        now
    else without_lease
        (record e {
          status = pending;
          retry_count = retry_count;
          next_run_at = now + retry_delay_ms retry_count jitter;
          last_error = some (truncate_error message);
        })
        now
