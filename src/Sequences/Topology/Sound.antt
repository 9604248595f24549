-- ===== src/Sequences/Topology/Sound.antt =====
-- Validation against an independent description of a well-formed list of steps.
use listmonk_ops.Prelude.{
  ℕ, zero, suc, ◌<◌, String, some, Result, ok, err, List, [], ◌∷◌, same, length, any, All,
  any-same_iff, All-both, both-All, All-imp, ◌≡◌, ◌≢◌, ◌↔◌, refl, arith, subst, ◌⊎◌, Bool-cases,
  Option-cases, inl, inr,
}
use listmonk_ops.Sequences.{
  SequenceStep, send, wait, wait_until, condition, stop, ConditionStep, step_id, SequenceError,
}
use listmonk_ops.Sequences.Topology.{
  find_step_index, check_unique, check_target, check_targets, check_step, check_steps,
  validate_sequence_step_topology,
}

-- No step of the list has the identifier.
abbrev pub IsFresh : String → List SequenceStep → Type 0
IsFresh id = All (λ s. id ≢ step_id s)

abbrev pub UniqueIds : List SequenceStep → Type 0
UniqueIds [] = Unit
UniqueIds (s ∷ rest) = IsFresh (step_id s) rest × UniqueIds rest

-- The identifier names a step behind position `i`.
abbrev pub IsLater : List SequenceStep → ℕ → String → Type 0
IsLater parsed i target = (j : ℕ) × (find_step_index target parsed ≡ some j) × (i < j)

-- What each kind of step at position `i` needs of the steps behind it.
abbrev pub Continues : List SequenceStep → ℕ → SequenceStep → Type 0
Continues parsed i (send s) = Unit
Continues parsed i (wait id n) = suc i < length parsed
Continues parsed i (wait_until id at) = suc i < length parsed
Continues parsed i (condition c) = IsLater parsed i c.on_true × IsLater parsed i c.on_false
Continues parsed i (stop id) = Unit

abbrev pub IsPlaced : List SequenceStep → SequenceStep → Type 0
IsPlaced parsed s = (i : ℕ) × (find_step_index (step_id s) parsed ≡ some i) × Continues parsed i s

pub find_step_index-lt :
    (id : String) (steps : List SequenceStep) (i : ℕ)
    → find_step_index id steps ≡ some i
    → i < length steps
unfolding find_step_index
find_step_index-lt id [] i e = ground arith
find_step_index-lt id (s ∷ rest) zero e = omega arith
find_step_index-lt id (s ∷ rest) (suc i) e = ground (arith, find_step_index-lt id rest i)

Clear : List String → List SequenceStep → Type 0
Clear ids steps = All (λ s. All (λ i. i ≢ step_id s) ids) steps

check_unique_sound :
    (ids : List String) (steps : List SequenceStep)
    → check_unique ids steps ≡ ok tt
    → Clear ids steps × UniqueIds steps
unfolding check_unique Clear
check_unique_sound ids [] e = (tt, tt)
check_unique_sound ids (s ∷ rest) e = elim (Bool-cases (any (λ i. same i (step_id s)) ids)) [
  | inl seen ↦ absurd (ground arith)
  | inr fresh ↦
      let (clear, unique) = check_unique_sound (step_id s ∷ ids) rest (ground arith) in
      let (head, tail) =
        All-both (λ t. step_id s ≢ step_id t) (λ t. All (λ i. i ≢ step_id t) ids) rest clear in
      (((any-same_iff ids (step_id s)).0 fresh, tail), (head, unique))
]

check_unique_complete :
    (ids : List String) (steps : List SequenceStep)
    → Clear ids steps
    → UniqueIds steps
    → check_unique ids steps ≡ ok tt
unfolding check_unique Clear
check_unique_complete ids [] c u = refl
check_unique_complete ids (s ∷ rest) c u =
    rw ((any-same_iff ids (step_id s)).1 c.0, check_unique)
      (check_unique_complete (step_id s ∷ ids) rest
        (both-All (λ t. step_id s ≢ step_id t) (λ t. All (λ i. i ≢ step_id t) ids) rest u.0 c.1)
        u.1)

Clear-nil : (steps : List SequenceStep) → Clear [] steps
unfolding Clear
Clear-nil [] = tt
Clear-nil (s ∷ rest) = (tt, Clear-nil rest)

-- Every step is found by its identifier.
abbrev IsFound : List SequenceStep → SequenceStep → Type 0
IsFound parsed s = (i : ℕ) × (find_step_index (step_id s) parsed ≡ some i)

IsFound-cons :
    (x s : SequenceStep) (rest : List SequenceStep) → IsFound rest s → IsFound (x ∷ rest) s
unfolding find_step_index
IsFound-cons x s rest (i, e) = elim (Bool-cases (same (step_id x) (step_id s))) [
  | inl b ↦ (0, ground arith)
  | inr b ↦ (suc i, ground arith)
]

IsFound-head : (x : SequenceStep) (rest : List SequenceStep) → IsFound (x ∷ rest) x
unfolding find_step_index
IsFound-head x rest = (0, ground arith)

IsFound-All : (parsed : List SequenceStep) → All (IsFound parsed) parsed
IsFound-All [] = tt
IsFound-All (x ∷ rest) = (
  IsFound-head x rest,
  All-imp (IsFound rest) (IsFound (x ∷ rest)) rest (λ s. IsFound-cons x s rest) (IsFound-All rest),
)

check_target_sound :
    (parsed : List SequenceStep) (i : ℕ) (target : String)
    → check_target parsed (some i) target ≡ ok tt
    → IsLater parsed i target
unfolding check_target
check_target_sound parsed i target e = elim (Option-cases (find_step_index target parsed)) [
  | inl n ↦ absurd (ground arith)
  | inr (j, f) ↦ (j, f, ground arith)
]

check_target_complete :
    (parsed : List SequenceStep) (i : ℕ) (target : String)
    → IsLater parsed i target
    → check_target parsed (some i) target ≡ ok tt
unfolding check_target
check_target_complete parsed i target (j, f, lt) = rw (f, check_target) (ground arith)

Unit-ok : (r : Result SequenceError (Unit {0})) → ((e : SequenceError) × (r ≡ err e)) ⊎ (r ≡ ok tt)
Unit-ok (ok tt) = inr refl
Unit-ok (err e) = inl (e, refl)

check_targets_sound :
    (parsed : List SequenceStep) (i : ℕ) (c : ConditionStep)
    → check_targets parsed (some i) c ≡ ok tt
    → IsLater parsed i c.on_true × IsLater parsed i c.on_false
unfolding check_targets
check_targets_sound parsed i c e = elim (Unit-ok (check_target parsed (some i) c.on_true)) [
  | inl (x, f) ↦ absurd (ground arith)
  | inr f ↦ (
    check_target_sound parsed i c.on_true f,
    check_target_sound parsed i c.on_false (ground arith),
  )
]

check_targets_complete :
    (parsed : List SequenceStep) (i : ℕ) (c : ConditionStep)
    → IsLater parsed i c.on_true × IsLater parsed i c.on_false
    → check_targets parsed (some i) c ≡ ok tt
unfolding check_targets
check_targets_complete parsed i c h =
    rw (check_target_complete parsed i c.on_true h.0, check_targets)
      (check_target_complete parsed i c.on_false h.1)

check_step_sound :
    (parsed : List SequenceStep) (s : SequenceStep) (i : ℕ)
    → find_step_index (step_id s) parsed ≡ some i
    → check_step parsed s ≡ ok tt
    → Continues parsed i s
unfolding check_step
check_step_sound parsed (send s) i f e = tt
check_step_sound parsed (wait id n) i f e = ground (arith, find_step_index-lt id parsed i f)
check_step_sound parsed (wait_until id at) i f e = ground (arith, find_step_index-lt id parsed i f)
check_step_sound parsed (condition c) i f e =
    check_targets_sound parsed i c (subst (λ o. check_targets parsed o c ≡ ok tt) f e)
check_step_sound parsed (stop id) i f e = tt

check_step_complete :
    (parsed : List SequenceStep) (s : SequenceStep)
    → IsPlaced parsed s
    → check_step parsed s ≡ ok tt
unfolding check_step
check_step_complete parsed (send s) (i, f, h) = refl
check_step_complete parsed (wait id n) (i, f, h) = ground arith
check_step_complete parsed (wait_until id at) (i, f, h) = ground arith
check_step_complete parsed (condition c) (i, f, h) = rw f (check_targets_complete parsed i c h)
check_step_complete parsed (stop id) (i, f, h) = refl

check_steps_sound :
    (parsed steps : List SequenceStep)
    → All (IsFound parsed) steps
    → check_steps parsed steps ≡ ok tt
    → All (IsPlaced parsed) steps
unfolding check_steps
check_steps_sound parsed [] f e = tt
check_steps_sound parsed (s ∷ rest) ((i, found), f) e = elim (Unit-ok (check_step parsed s)) [
  | inl (x, c) ↦ absurd (ground arith)
  | inr c ↦ (
    (i, found, check_step_sound parsed s i found c),
    check_steps_sound parsed rest f (ground arith),
  )
]

check_steps_complete :
    (parsed steps : List SequenceStep)
    → All (IsPlaced parsed) steps
    → check_steps parsed steps ≡ ok tt
unfolding check_steps
check_steps_complete parsed [] h = refl
check_steps_complete parsed (s ∷ rest) h =
    rw (check_step_complete parsed s h.0, check_steps) (check_steps_complete parsed rest h.1)

validate_sound :
    (parsed : List SequenceStep)
    → validate_sequence_step_topology parsed ≡ ok parsed
    → UniqueIds parsed × All (IsPlaced parsed) parsed
unfolding validate_sequence_step_topology
validate_sound parsed e = elim (Unit-ok (check_unique [] parsed)) [
  | inl (x, u) ↦ absurd (ground arith)
  | inr u ↦ elim (Unit-ok (check_steps parsed parsed)) [
    | inl (x, c) ↦ absurd (ground arith)
    | inr c ↦
        ((check_unique_sound [] parsed u).1, check_steps_sound parsed parsed (IsFound-All parsed) c)
  ]
]

validate_complete :
    (parsed : List SequenceStep)
    → UniqueIds parsed
    → All (IsPlaced parsed) parsed
    → validate_sequence_step_topology parsed ≡ ok parsed
unfolding validate_sequence_step_topology
validate_complete parsed u h =
    rw (check_unique_complete [] parsed (Clear-nil parsed) u, validate_sequence_step_topology)
      (rw (check_steps_complete parsed parsed h) refl)

-- Validation accepts exactly the lists whose identifiers are unique, in which every wait is followed
-- by a step, and in which both branches of every condition name steps behind it.
pub validate_iff :
    (parsed : List SequenceStep)
    → (validate_sequence_step_topology parsed ≡ ok parsed)
      ↔ (UniqueIds parsed × All (IsPlaced parsed) parsed)
validate_iff parsed = (validate_sound parsed, λ h. validate_complete parsed h.0 h.1)
