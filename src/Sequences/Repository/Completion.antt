-- ===== src/Sequences/Repository/Completion.antt =====
-- `completeClaim` of packages/automation/src/sequences.ts: a lease is completed once.
use listmonk_ops.Prelude.{
  none, some, Result, ok, err, List, [], ◌∷◌, same, find, ◌≡◌, refl, sym, ap, arith, ◌∙◌, subst,
  Bool-cases, Option-cases, inl, inr,
}
use listmonk_ops.Sequences.{
  SequenceEnrollment, SequenceStore, SequenceError, conflict, parse_sequence_enrollment,
}
use listmonk_ops.Sequences.Repository.{
  get_file_enrollment, replace_enrollment, holds_lease, complete_claim,
}
use listmonk_ops.Sequences.Repository.Claiming.{parsed}

find-replace :
    (v e : SequenceEnrollment) (es : List SequenceEnrollment)
    → find (λ x. same x.id v.id) es ≡ some e
    → find (λ x. same x.id v.id) (replace_enrollment es v) ≡ some v
unfolding replace_enrollment
find-replace v e [] h = absurd (ground arith)
find-replace v e (x ∷ rest) h = elim (Bool-cases (same x.id v.id)) [
  | inl b ↦ rw (b, replace_enrollment) (ground arith)
  | inr b ↦ rw (b, replace_enrollment) (rw b (find-replace v e rest (ground arith)))
]

-- What is left to a second completion of the same claim.
abbrev pub IsSpent :
    SequenceEnrollment → Result SequenceError (SequenceStore × SequenceEnrollment) → Type 0
IsSpent e (err x) = Unit
IsSpent e (ok (after, c)) =
    (again : SequenceEnrollment) → complete_claim e again after ≡ err conflict

spent_after :
    (e v stored : SequenceEnrollment) (store : SequenceStore)
    → v.id ≡ e.id
    → v.lease_token ≡ none
    → find (λ x. same x.id e.id) store.enrollments ≡ some stored
    → (again : SequenceEnrollment)
    → complete_claim e again (record store { enrollments = replace_enrollment store.enrollments v })
      ≡ err conflict
unfolding complete_claim get_file_enrollment
spent_after e v stored store same_id free f again =
    let there =
      subst (λ id. find (λ x. same x.id id) (replace_enrollment store.enrollments v) ≡ some v)
        same_id
        (find-replace v stored store.enrollments (
          subst (λ id. find (λ x. same x.id id) store.enrollments ≡ some stored) (sym same_id)
            f)) in
    rw (there, complete_claim, get_file_enrollment) (rw free refl)

parse-IsSpent :
    (e next stored : SequenceEnrollment) (store : SequenceStore)
    (p : Result SequenceError SequenceEnrollment)
    → parse_sequence_enrollment next ≡ p
    → next.id ≡ e.id
    → next.lease_token ≡ none
    → find (λ x. same x.id e.id) store.enrollments ≡ some stored
    → IsSpent e (elim p [
      | err x ↦ err x
      | ok completed ↦
          ok (
            record store { enrollments = replace_enrollment store.enrollments completed },
            completed,
          )
    ])
parse-IsSpent e next stored store (err x) h same_id free f = tt
parse-IsSpent e next stored store (ok v) h same_id free f =
    let is_next = parsed next v h in
    λ again.
      spent_after e v stored store (ap (λ x. x.id) is_next ∙ same_id)
        (ap (λ x. x.lease_token) is_next ∙ free) f again

-- After a claim was completed with a next state of the same identifier and no lease, every other
-- completion of that claim is a conflict.
pub complete_claim-IsSpent :
    (e next : SequenceEnrollment) (store : SequenceStore)
    → next.id ≡ e.id
    → next.lease_token ≡ none
    → IsSpent e (complete_claim e next store)
unfolding complete_claim get_file_enrollment
complete_claim-IsSpent e next store same_id free =
    elim (Option-cases (find (λ x. same x.id e.id) store.enrollments)) [
      | inl n ↦ rw (n, complete_claim, get_file_enrollment) tt
      | inr (stored, f) ↦ elim (Bool-cases (holds_lease stored.lease_token e.lease_token)) [
        | inl b ↦
            rw (f, b, complete_claim, get_file_enrollment)
              (parse-IsSpent e next stored store (parse_sequence_enrollment next) refl same_id free
                f)
        | inr b ↦ rw (f, b, complete_claim, get_file_enrollment) tt
      ]
    ]
