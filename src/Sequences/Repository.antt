-- ===== src/Sequences/Repository.antt =====
-- packages/automation/src/sequences.ts, `createFileSequenceRepository`: the callbacks that its
-- operations pass to `updateJsonFileStore`, on a parsed store, and `createSequenceEnrollment`.
pub mod Claiming
pub mod Definitions
pub mod WellFormed
pub mod Leases
pub mod Enrollments
pub mod Completion
pub mod Liveness
use listmonk_ops.Prelude.{
  ℕ, zero, suc, ◌+◌, ◌*◌, String, Option, none, some, Bool, true, false, Result, ok, err,
  if◌then◌else◌, List, [], ◌∷◌, ◌++◌, same, leb, ltb, ◌==◌, ◌&&◌, ◌||◌, not, find, any, all, filter,
  map, get_elem?, take, length,
}
use listmonk_ops.Sequences.{
  SequenceDefinition, SequenceEnrollment, SequenceRevision, SequenceStore, SequenceError,
  definition_not_found, enrollment_not_found, conflict, ClaimedSequenceEnrollment,
  SequenceDefinitionStatus, active, paused_definition, SequenceEnrollmentStatus, pending, running,
  ambiguous, is_active, is_runnable, enrollment_is_terminal, parse_sequence_enrollment, step_id,
}
use listmonk_ops.Sequences.Values.{Fields}

unfoldable pub get_file_definition :
    SequenceStore → String → Result SequenceError SequenceDefinition
get_file_definition store id = elim (find (λ d. same d.id id) store.definitions) [
  | none ↦ err definition_not_found
  | some d ↦ ok d
]

unfoldable pub get_file_enrollment :
    SequenceStore → String → Result SequenceError SequenceEnrollment
get_file_enrollment store id = elim (find (λ e. same e.id id) store.enrollments) [
  | none ↦ err enrollment_not_found
  | some e ↦ ok e
]

-- `replaceById`, for enrollments and for definitions.
unfoldable pub replace_enrollment :
    List SequenceEnrollment → SequenceEnrollment → List SequenceEnrollment
replace_enrollment [] value = []
replace_enrollment (e ∷ rest) value =
    (if same e.id value.id then value else e) ∷ replace_enrollment rest value

unfoldable pub replace_definition :
    List SequenceDefinition → SequenceDefinition → List SequenceDefinition
replace_definition [] value = []
replace_definition (d ∷ rest) value =
    (if same d.id value.id then value else d) ∷ replace_definition rest value

pub record CreateSequenceEnrollmentInput : Type 0 where
  pub id : String
  pub subscriber_id : ℕ
  pub context : Option Fields
  pub start_at : Option ℕ

abbrev or_else {ℓ} : {A : Type ℓ} → Option A → A → A
or_else none a = a
or_else (some b) a = b

-- `createSequenceEnrollment`: on the first step of the current revision of an active sequence.
unfoldable pub create_sequence_enrollment :
    SequenceDefinition → CreateSequenceEnrollmentInput → ℕ → Result SequenceError SequenceEnrollment
create_sequence_enrollment definition input now =
    if is_active definition.status
    then elim (find (λ r. r.revision == definition.current_revision) definition.revisions) [
      | none ↦ err conflict
      | some revision ↦ elim (get_elem? revision.steps 0) [
        | none ↦ err conflict
        | some first_step ↦ parse_sequence_enrollment (record {
          id = input.id;
          sequence_id = definition.id;
          revision = revision.revision;
          subscriber_id = input.subscriber_id;
          context = or_else input.context Fields.end_fields;
          status = pending;
          retry_count = 0;
          current_step_id = step_id first_step;
          next_run_at = or_else input.start_at now;
          lease_token = none;
          lease_expires_at = none;
          last_error = none;
          last_transition_at = now;
          created_at = now;
          updated_at = now;
        })
      ]
    ]
    else err conflict

-- The stored enrollment that keeps another one out.
abbrev pub blocks : SequenceEnrollment → SequenceEnrollment → Bool
blocks candidate e =
    same candidate.id e.id
    || (same candidate.sequence_id e.sequence_id
        && candidate.subscriber_id == e.subscriber_id
        && not (enrollment_is_terminal candidate.status))

unfoldable pub create_enrollment :
    SequenceEnrollment → SequenceStore → Result SequenceError (SequenceStore × SequenceEnrollment)
unfolding get_file_definition
create_enrollment enrollment store = elim (get_file_definition store enrollment.sequence_id) [
  | err e ↦ err e
  | ok definition ↦
      if any (λ c. blocks c enrollment) store.enrollments
      then err conflict
      else ok (record store { enrollments = store.enrollments ++ (enrollment ∷ []) }, enrollment)
]

-- `token n` is the n-th identifier that the claim draws from `randomUUID`.
pub record ClaimDueOptions : Type 0 where
  pub limit : ℕ
  pub now : ℕ
  pub lease_ms : ℕ
  pub token : ℕ → String

abbrev pub is_free_at : ℕ → Option ℕ → Bool
is_free_at now none = true
is_free_at now (some expires) = leb expires now

-- The guards on a candidate's own fields.
abbrev pub is_due : ℕ → SequenceEnrollment → Bool
is_due now e = is_runnable e.status && leb e.next_run_at now && is_free_at now e.lease_expires_at

-- The definition and the revision that a candidate is executed with; `none` skips it.
unfoldable pub claimable :
    ClaimDueOptions
    → SequenceStore
    → SequenceEnrollment
    → Option (SequenceDefinition × SequenceRevision)
claimable o store e =
    if is_due o.now e
    then elim (find (λ d. same d.id e.sequence_id) store.definitions) [
      | none ↦ none
      | some definition ↦
          if is_active definition.status
          then elim (find (λ r. r.revision == e.revision) definition.revisions) [
            | none ↦ none
            | some revision ↦ some (definition, revision)
          ]
          else none
    ]
    else none

abbrev pub leased : ClaimDueOptions → ℕ → SequenceEnrollment → SequenceEnrollment
leased o n e = record e {
  status = running;
  lease_token = some (o.token n);
  lease_expires_at = some (o.now + o.lease_ms);
  updated_at = o.now;
}

-- The loop of `claimDue`: `n` have been claimed.
unfoldable pub claim_candidates :
    ClaimDueOptions
    → SequenceStore
    → List SequenceEnrollment
    → List SequenceEnrollment
    → ℕ
    → Result SequenceError (List SequenceEnrollment × List ClaimedSequenceEnrollment)
claim_candidates o store [] enrollments n = ok (enrollments, [])
claim_candidates o store (c ∷ rest) enrollments n =
    if leb o.limit n then ok (enrollments, []) else elim (claimable o store c) [
      | none ↦ claim_candidates o store rest enrollments n
      | some (definition, revision) ↦ elim (parse_sequence_enrollment (leased o n c)) [
        | err e ↦ err e
        | ok l ↦ elim (claim_candidates o store rest (replace_enrollment enrollments l) (suc n)) [
          | err e ↦ err e
          | ok (final, claimed) ↦ ok (
            final,
            record { enrollment = l; definition = definition; revision = revision } ∷ claimed,
          )
        ]
      ]
    ]

-- The stable sort by `nextRunAt`.
unfoldable pub insert_by_next_run :
    SequenceEnrollment → List SequenceEnrollment → List SequenceEnrollment
insert_by_next_run e [] = e ∷ []
insert_by_next_run e (f ∷ rest) =
    if leb e.next_run_at f.next_run_at then e ∷ f ∷ rest else f ∷ insert_by_next_run e rest

unfoldable pub sort_by_next_run : List SequenceEnrollment → List SequenceEnrollment
unfolding insert_by_next_run
sort_by_next_run [] = []
sort_by_next_run (e ∷ rest) = insert_by_next_run e (sort_by_next_run rest)

unfoldable pub claim_due :
    ClaimDueOptions
    → SequenceStore
    → Result SequenceError (SequenceStore × List ClaimedSequenceEnrollment)
unfolding claim_candidates sort_by_next_run
claim_due o store =
    elim (claim_candidates o store (sort_by_next_run store.enrollments) store.enrollments 0) [
      | err e ↦ err e
      | ok (enrollments, claimed) ↦ ok (record store { enrollments = enrollments }, claimed)
    ]

-- `stored.leaseToken !== undefined && stored.leaseToken === token`.
abbrev pub holds_lease : Option String → Option String → Bool
holds_lease (some a) (some b) = same a b
holds_lease _ _ = false

unfoldable pub complete_claim :
    SequenceEnrollment
    → SequenceEnrollment
    → SequenceStore
    → Result SequenceError (SequenceStore × SequenceEnrollment)
unfolding get_file_enrollment replace_enrollment
complete_claim enrollment next store = elim (get_file_enrollment store enrollment.id) [
  | err e ↦ err e
  | ok stored ↦
      if holds_lease stored.lease_token enrollment.lease_token
      then elim (parse_sequence_enrollment next) [
        | err e ↦ err e
        | ok completed ↦ ok (
          record store { enrollments = replace_enrollment store.enrollments completed },
          completed,
        )
      ]
      else err conflict
]

abbrev pub is_ambiguous : SequenceEnrollmentStatus → Bool
is_ambiguous ambiguous = true
is_ambiguous _ = false

unfoldable pub resolve_ambiguous :
    SequenceEnrollment
    → SequenceEnrollment
    → SequenceStore
    → Result SequenceError (SequenceStore × SequenceEnrollment)
unfolding get_file_enrollment replace_enrollment
resolve_ambiguous enrollment next store = elim (get_file_enrollment store enrollment.id) [
  | err e ↦ err e
  | ok stored ↦
      if is_ambiguous stored.status && stored.updated_at == enrollment.updated_at
      then elim (parse_sequence_enrollment next) [
        | err e ↦ err e
        | ok resolved ↦
            ok (
              record store { enrollments = replace_enrollment store.enrollments resolved },
              resolved,
            )
      ]
      else err conflict
]
