-- ===== src/Sequences/Tests.antt =====
-- Sequences at concrete inputs, and the theorems about them where their hypotheses hold.
use listmonk_ops.Prelude.{
  inl, ℕ, ◌+◌, ◌<◌, ◌≢◌, ◌↔◌, String, none, some, true, ok, err, List, [], ◌∷◌, All, ◌≡◌, refl,
  arith, String_discrete,
}
use listmonk_ops.Transactional.{World}
use listmonk_ops.Transactional.Failures.{Failure, returns, boolean}
use listmonk_ops.Sequences.{
  SequenceStep, send, wait, condition, stop, ConditionStep, equals, SendStep, SequenceRevision,
  SequenceDefinition, active, SequenceEnrollment, SequenceStore, ClaimedSequenceEnrollment, pending,
  completed, conflict, schema, parse_sequence_enrollment,
}
use listmonk_ops.Sequences.Values.{end_fields, field, text, text_count}
use listmonk_ops.Sequences.Topology.{
  find_step_index, check_unique, check_target, check_targets, check_step, check_steps,
  validate_sequence_step_topology,
}
use listmonk_ops.Sequences.Topology.Sound.{UniqueIds, IsPlaced, validate_iff}
use listmonk_ops.Sequences.Engine.{retry_enrollment}
use listmonk_ops.Sequences.Execute.{
  Executor, StepEnvironment, SequenceMessage, found, execute_claimed_enrollment,
}
use listmonk_ops.Sequences.Progress.{GetsCloser, execution-GetsCloser}
use listmonk_ops.Sequences.Retry.{
  IsBackedOff, retry_enrollment-IsBackedOff, retry_enrollment-schema,
}
use listmonk_ops.Sequences.Repository.{
  ClaimDueOptions, claimable, claim_candidates, insert_by_next_run, sort_by_next_run, claim_due,
  leased, replace_enrollment, complete_claim,
}
use listmonk_ops.Sequences.Release.{Releases, execute-Releases}
use listmonk_ops.Sequences.Repository.Liveness.{ClaimsSome, claim_due-ClaimsSome}
use listmonk_ops.Sequences.Repository.Leases.{Claims, claim_due-Claims, claim_due_excludes}
use listmonk_ops.Sequences.Repository.Completion.{IsSpent, complete_claim-IsSpent}
use listmonk_ops.Sequences.Repository.Enrollments.{
  RepositoryOperation, creates_definition, deletes_definition, creates_enrollment, apply_operations,
  apply_operations-IsWellFormed,
}
use listmonk_ops.Sequences.Repository.WellFormed.{IsWellFormed}

sequences_run : Unit {0}
unfolding String_discrete find_step_index check_unique check_target check_targets check_step
    check_steps validate_sequence_step_topology parse_sequence_enrollment claimable claim_candidates
    insert_by_next_run sort_by_next_run claim_due replace_enrollment
sequences_run = tt

abbrev welcome_step : SendStep
welcome_step = record {
  id = "welcome";
  template_id = 7;
  from_email = none;
  step_data = field "plan" (text "basic") end_fields;
  content_type = none;
  messenger = none;
  subject = none;
  alt_body = none;
}

abbrev on_plan : ConditionStep
on_plan = record {
  id = "plan";
  path = "plan" ∷ [];
  operator = equals;
  value = some (text "pro");
  on_true = "end";
  on_false = "later";
}

abbrev onboarding : List SequenceStep
onboarding = send welcome_step ∷ condition on_plan ∷ wait "later" 60 ∷ stop "end" ∷ []

abbrev onboarding_revision : SequenceRevision
onboarding_revision = record { revision = 1; steps = onboarding; created_at = 1 }

abbrev pub onboarding_definition : SequenceDefinition
onboarding_definition = record {
  id = "s1";
  name = "Onboarding";
  description = none;
  status = active;
  current_revision = 1;
  revisions = onboarding_revision ∷ [];
  created_at = 1;
  updated_at = 1;
}

abbrev pub enrollment_of : String → ℕ → ℕ → SequenceEnrollment
enrollment_of id subscriber at = record {
  id = id;
  sequence_id = "s1";
  revision = 1;
  subscriber_id = subscriber;
  context = end_fields;
  status = pending;
  retry_count = 0;
  current_step_id = "welcome";
  next_run_at = at;
  lease_token = none;
  lease_expires_at = none;
  last_error = none;
  last_transition_at = 1;
  created_at = 1;
  updated_at = 1;
}

abbrev pub e1 : SequenceEnrollment
e1 = enrollment_of "e1" 41 5

abbrev e2 : SequenceEnrollment
e2 = enrollment_of "e2" 42 3

abbrev pub two_enrollments : SequenceStore
two_enrollments = record { definitions = onboarding_definition ∷ []; enrollments = e1 ∷ e2 ∷ [] }

abbrev first_claim : ClaimDueOptions
first_claim = record { limit = 1; now = 10; lease_ms = 100; token = λ n. "a" }

abbrev pub second_claim : ClaimDueOptions
second_claim = record { limit = 5; now = 50; lease_ms = 100; token = λ n. "b" }

abbrev claimed_of : SequenceEnrollment → ClaimedSequenceEnrollment
claimed_of e = record {
  enrollment = e;
  definition = onboarding_definition;
  revision = onboarding_revision;
}

abbrev between_claims : SequenceStore
between_claims = record two_enrollments { enrollments = e1 ∷ leased first_claim 0 e2 ∷ [] }

abbrev after_claims : SequenceStore
after_claims = record two_enrollments {
  enrollments = leased second_claim 0 e1 ∷ leased first_claim 0 e2 ∷ [];
}

validate_iff_example :
    (validate_sequence_step_topology onboarding ≡ ok onboarding)
    ↔ (UniqueIds onboarding × All (IsPlaced onboarding) onboarding)
validate_iff_example = validate_iff onboarding

backward :
    validate_sequence_step_topology
      (stop "end" ∷ condition (record on_plan { on_false = "end" }) ∷ [])
    ≡ err conflict
unfolding sequences_run
backward = refl

abbrev unavailable : Failure
unavailable = record {
  is_error = true;
  message = "unavailable";
  http_status = some 503;
  code = none;
  cause = none;
}

abbrev pub executor : Executor (Unit {0}) (Unit {0})
executor = record {
  context = record {
    idempotency_store = none;
    hash_payload = none;
    target_hash = "prod";
    definitive = λ f. true;
  };
  from_email_valid = λ f. true;
  parsed_from_email = λ f. f;
  to_lower_case = λ s. s;
  describe = λ e. unavailable;
}

abbrev pub delivering : StepEnvironment
delivering = record {
  lookup = found (record { status = some "enabled"; list_statuses = [] });
  sending = record {
    claim_now = 10;
    finish_now = 11;
    new_claim_token = "t";
    answer = returns (record { error = none; status = some 200; body = some (boolean true) });
    store_writable = true;
  };
  retry_jitter = some 500;
}

abbrev pub idle_world : World (Unit {0}) SequenceMessage
idle_world = record { store = tt; requests = [] }

execution-GetsCloser_example :
    GetsCloser onboarding
      (leased first_claim 0 e2)
      (execute_claimed_enrollment executor
        (claimed_of (leased first_claim 0 e2))
        delivering
        20
        idle_world).1
unfolding sequences_run
execution-GetsCloser_example =
    execution-GetsCloser executor (claimed_of (leased first_claim 0 e2)) delivering 20 idle_world
      refl (omega arith)

claim_due_excludes_example :
    All
      (λ c.
        All (λ d. d.enrollment.id ≢ c.enrollment.id) (claimed_of (leased second_claim 0 e1) ∷ []))
      (claimed_of (leased first_claim 0 e2) ∷ [])
unfolding sequences_run
claim_due_excludes_example =
    claim_due_excludes first_claim second_claim two_enrollments between_claims after_claims
      (claimed_of (leased first_claim 0 e2) ∷ []) (claimed_of (leased second_claim 0 e1) ∷ []) refl
      refl (omega arith)

claim_due-Claims_example :
    Claims first_claim two_enrollments (claim_due first_claim two_enrollments)
claim_due-Claims_example = claim_due-Claims first_claim two_enrollments

abbrev done : SequenceEnrollment
done = record e2 { status = completed }

complete_claim-IsSpent_example :
    IsSpent (leased first_claim 0 e2) (complete_claim (leased first_claim 0 e2) done between_claims)
complete_claim-IsSpent_example =
    complete_claim-IsSpent (leased first_claim 0 e2) done between_claims refl refl

abbrev empty_store : SequenceStore
empty_store = record { definitions = []; enrollments = [] }

abbrev operations : List RepositoryOperation
operations =
    creates_definition onboarding_definition
    ∷ creates_enrollment e1
    ∷ creates_enrollment (enrollment_of "e3" 41 9)
    ∷ deletes_definition "s1"
    ∷ []

apply_operations-IsWellFormed_example :
    IsWellFormed (apply_operations (λ d. ok d) (λ s. s) operations empty_store)
apply_operations-IsWellFormed_example =
    apply_operations-IsWellFormed (λ d. ok d) (λ s. s) operations empty_store (tt, tt)

retry_enrollment-IsBackedOff_example :
    let next = retry_enrollment e1 100 "unavailable" (some 250) in
    (next.retry_count ≡ e1.retry_count + 1)
    × (next.current_step_id ≡ e1.current_step_id)
    × (next.lease_token ≡ none)
    × IsBackedOff e1 100 next
retry_enrollment-IsBackedOff_example = retry_enrollment-IsBackedOff e1 100 "unavailable" (some 250)

abbrev last_attempt : SequenceEnrollment
last_attempt = record e1 { retry_count = 23 }

retry_enrollment-schema_example :
    (parse_sequence_enrollment (retry_enrollment last_attempt 100 "unavailable" none) ≡ err schema)
    ↔ ((last_attempt.retry_count ≡ 23) × (946 < text_count "unavailable"))
retry_enrollment-schema_example =
    retry_enrollment-schema last_attempt 100 "unavailable" none (omega arith) (omega arith)
      (omega arith)

claim_due-ClaimsSome_example : ClaimsSome (claim_due second_claim two_enrollments)
unfolding sequences_run
claim_due-ClaimsSome_example =
    claim_due-ClaimsSome second_claim two_enrollments e1
      (onboarding_definition, onboarding_revision) (refl, (refl, tt)) (omega arith) (inl refl) refl

execute-Releases_example :
    Releases
      (leased first_claim 0 e2)
      (execute_claimed_enrollment executor
        (claimed_of (leased first_claim 0 e2))
        delivering
        20
        idle_world).1
execute-Releases_example =
    execute-Releases executor (claimed_of (leased first_claim 0 e2)) delivering 20 idle_world
