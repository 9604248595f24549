-- ===== src/Sequences/Accounts.antt =====
-- A tick accounts for every enrollment that it claims.
use listmonk_ops.Prelude.{
  ℕ, suc, ◌+◌, ◌≤◌, String, Bool, true, false, Result, ok, err, List, [], ◌∷◌, ◌==◌, length, ◌≡◌,
  refl, ap, subst, arith, Bool-cases, Result-cases, inl, inr,
}
use listmonk_ops.Sequences.{
  SequenceEnrollment, SequenceEnrollmentStatus, pending, running, paused, waiting, completed,
  failed, ambiguous, cancelled, ClaimedSequenceEnrollment,
}
use listmonk_ops.Sequences.Execute.{Executor, StepEnvironment}
use listmonk_ops.Sequences.Repository.{ClaimDueOptions, claim_due}
use listmonk_ops.Sequences.Repository.Leases.{Claims, claim_due-Claims}
use listmonk_ops.Sequences.Tick.{
  TickCounts, no_counts, count_outcome, EntryError, TickError, claim_failed, aggregate,
  SequenceTickSummary, TickState, count_fulfilled, rejected_reasons, execute_entry, execute_entries,
  run_sequence_tick,
}

-- The results of executions that did not fail.
abbrev pub fulfilled : List (Result EntryError SequenceEnrollment) → List SequenceEnrollment
fulfilled [] = []
fulfilled (ok e ∷ rest) = e ∷ fulfilled rest
fulfilled (err x ∷ rest) = fulfilled rest

abbrev pub bit : Bool → ℕ
bit true = 1
bit false = 0

-- How many enrollments have a status that passes a test.
abbrev pub count_of : (SequenceEnrollmentStatus → Bool) → List SequenceEnrollment → ℕ
count_of p [] = 0
count_of p (e ∷ es) = bit (p e.status) + count_of p es

abbrev pub is_waiting : SequenceEnrollmentStatus → Bool
is_waiting waiting = true
is_waiting _ = false

abbrev pub is_completed : SequenceEnrollmentStatus → Bool
is_completed completed = true
is_completed _ = false

abbrev pub is_failed : SequenceEnrollmentStatus → Bool
is_failed failed = true
is_failed _ = false

abbrev pub is_unclear : SequenceEnrollmentStatus → Bool
is_unclear ambiguous = true
is_unclear _ = false

abbrev pub is_cancelled : SequenceEnrollmentStatus → Bool
is_cancelled cancelled = true
is_cancelled _ = false

-- What is counted as advanced.
abbrev pub is_other : SequenceEnrollmentStatus → Bool
is_other pending = true
is_other running = true
is_other paused = true
is_other _ = false

-- Every count grows by the number of the enrollments with its status.
abbrev pub Grows : TickCounts → TickCounts → List SequenceEnrollment → Type 0
Grows c after es =
    (after.advanced ≡ c.advanced + count_of is_other es)
    × (after.waiting_count ≡ c.waiting_count + count_of is_waiting es)
    × (after.completed_count ≡ c.completed_count + count_of is_completed es)
    × (after.failed_count ≡ c.failed_count + count_of is_failed es)
    × (after.ambiguous_count ≡ c.ambiguous_count + count_of is_unclear es)
    × (after.cancelled_count ≡ c.cancelled_count + count_of is_cancelled es)

-- One more enrollment raises the count of its status.
abbrev Raises : TickCounts → TickCounts → SequenceEnrollmentStatus → Type 0
Raises c after status =
    (after.advanced ≡ c.advanced + bit (is_other status))
    × (after.waiting_count ≡ c.waiting_count + bit (is_waiting status))
    × (after.completed_count ≡ c.completed_count + bit (is_completed status))
    × (after.failed_count ≡ c.failed_count + bit (is_failed status))
    × (after.ambiguous_count ≡ c.ambiguous_count + bit (is_unclear status))
    × (after.cancelled_count ≡ c.cancelled_count + bit (is_cancelled status))

count_outcome-Raises :
    (c : TickCounts) (status : SequenceEnrollmentStatus) → Raises c (count_outcome c status) status
unfolding count_outcome
count_outcome-Raises c pending = omega arith
count_outcome-Raises c running = omega arith
count_outcome-Raises c paused = omega arith
count_outcome-Raises c waiting = omega arith
count_outcome-Raises c completed = omega arith
count_outcome-Raises c failed = omega arith
count_outcome-Raises c ambiguous = omega arith
count_outcome-Raises c cancelled = omega arith

count_fulfilled-Grows :
    (c : TickCounts) (results : List (Result EntryError SequenceEnrollment))
    → Grows c (count_fulfilled c results) (fulfilled results)
unfolding count_fulfilled
count_fulfilled-Grows c [] = omega arith
count_fulfilled-Grows c (err x ∷ rest) = count_fulfilled-Grows c rest
count_fulfilled-Grows c (ok e ∷ rest) =
    omega (
      arith,
      count_fulfilled-Grows (count_outcome c e.status) rest,
      count_outcome-Raises c e.status,
    )

length-fulfilled :
    (results : List (Result EntryError SequenceEnrollment))
    → length (fulfilled results) + length (rejected_reasons results) ≡ length results
unfolding rejected_reasons
length-fulfilled [] = refl
length-fulfilled (ok e ∷ rest) = omega (arith, length-fulfilled rest)
length-fulfilled (err x ∷ rest) = omega (arith, length-fulfilled rest)

length-execute_entries :
    {S E : Type 0} (x : Executor S E) (answers : String → StepEnvironment)
    (entries : List ClaimedSequenceEnrollment) (now : ℕ) (s : TickState S)
    → length (execute_entries x answers entries now s).1 ≡ length entries
unfolding execute_entries
length-execute_entries x answers [] now s = refl
length-execute_entries x answers (entry ∷ rest) now s =
    ap suc (length-execute_entries x answers rest now (execute_entry x answers entry now s).0)

-- The results of the executions of what a tick claims.
unfoldable pub tick_results :
    {S E : Type 0}
    → Executor S E
    → (String → StepEnvironment)
    → ClaimDueOptions
    → TickState S
    → List (Result EntryError SequenceEnrollment)
tick_results x answers o s = elim (claim_due o s.store) [
  | err e ↦ []
  | ok (store, claimed) ↦ (execute_entries x answers claimed o.now (record s { store = store })).1
]

-- What a tick reports of the results of its executions.
abbrev pub IsAccounted :
    ℕ → List (Result EntryError SequenceEnrollment) → Result TickError SequenceTickSummary → Type 0
IsAccounted limit results (ok summary) =
    Grows no_counts summary.counts (fulfilled results)
    × (length (fulfilled results) ≡ summary.claimed)
    × (summary.claimed ≤ limit)
IsAccounted limit results (err (aggregate failures)) =
    (1 ≤ length failures)
    × (length failures + length (fulfilled results) ≡ length results)
    × (length results ≤ limit)
IsAccounted limit results (err (claim_failed e)) = Unit

-- A tick that does not throw claims at most the limit, executes all that it claims without a failure,
-- and reports for each status how many of the executions have that status as their result. A tick
-- that throws for its enrollments names as many failures as executions that failed, at least one, of
-- at most the limit that it claimed.
pub tick-IsAccounted :
    {S E : Type 0} (x : Executor S E) (answers : String → StepEnvironment) (o : ClaimDueOptions)
    (s : TickState S)
    → IsAccounted o.limit (tick_results x answers o s) (run_sequence_tick x answers o s).1
unfolding run_sequence_tick tick_results
tick-IsAccounted x answers o s = elim (Result-cases (claim_due o s.store)) [
  | inl (e, n) ↦ rw (n, run_sequence_tick, tick_results) tt
  | inr ((store, claimed), n) ↦
      let results = (execute_entries x answers claimed o.now (record s { store = store })).1 in
      let (held, leases, bound) = subst (Claims o s.store) n (claim_due-Claims o s.store) in
      let counted = length-fulfilled results in
      let same_length =
        length-execute_entries x answers claimed o.now (record s { store = store }) in
      elim (Bool-cases (length (rejected_reasons results) == 0)) [
        | inl b ↦
            let none_left : length (rejected_reasons results) ≡ 0 = ground arith in
            rw (n, b, run_sequence_tick, tick_results)
              (
                count_fulfilled-Grows no_counts results,
                omega (arith, none_left, counted, same_length),
                bound,
              )
        | inr b ↦
            let some_left : 1 ≤ length (rejected_reasons results) = ground arith in
            rw (n, b, run_sequence_tick, tick_results)
              (some_left, omega (arith, counted), omega (arith, same_length, bound))
      ]
]
