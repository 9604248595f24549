-- ===== src/Sequences/Repository/Leases.antt =====
-- `claimDue`: a lease is of a due enrollment, and keeps other claims out.
use listmonk_ops.Prelude.{
  ◌+◌, ◌≤◌, ◌<◌, some, true, false, Result, ok, err, List, [], ◌∷◌, leb, length, All, All-imp, IsIn,
  ◌≡◌, ◌≢◌, inl, inr, refl, sym, ap, arith, ◌∙◌, subst, Bool-cases,
}
use listmonk_ops.Sequences.{
  SequenceDefinition, SequenceRevision, SequenceEnrollment, SequenceStore, SequenceError,
  ClaimedSequenceEnrollment,
}
use listmonk_ops.Sequences.Repository.{
  ClaimDueOptions, is_due, is_free_at, claimable, claim_candidates, insert_by_next_run,
  sort_by_next_run, claim_due,
}
use listmonk_ops.Sequences.Repository.Claiming.{
  IsHeld, IsLeaseOf, Outcome, claim_candidates-Outcome,
}

module _ (P : SequenceEnrollment → Type 0) where
  All-insert :
      (e : SequenceEnrollment) (es : List SequenceEnrollment)
      → P e
      → All P es
      → All P (insert_by_next_run e es)
  unfolding insert_by_next_run
  All-insert e [] p h = (p, tt)
  All-insert e (f ∷ rest) p h = elim (Bool-cases (leb e.next_run_at f.next_run_at)) [
    | inl b ↦ rw (b, insert_by_next_run) (p, h)
    | inr b ↦ rw (b, insert_by_next_run) (h.0, All-insert e rest p h.1)
  ]

  pub All-sort : (es : List SequenceEnrollment) → All P es → All P (sort_by_next_run es)
  unfolding sort_by_next_run
  All-sort [] h = tt
  All-sort (e ∷ rest) h = All-insert e (sort_by_next_run rest) h.0 (All-sort rest h.1)

All-IsIn_self : (es : List SequenceEnrollment) → All (λ e. IsIn e es) es
All-IsIn_self [] = tt
All-IsIn_self (e ∷ rest) = (
  inl refl,
  All-imp (λ x. IsIn x rest) (λ x. IsIn x (e ∷ rest)) rest (λ x i. inr i) (All-IsIn_self rest),
)

All-IsIn :
    (P : SequenceEnrollment → Type 0) (es : List SequenceEnrollment) (e : SequenceEnrollment)
    → All P es
    → IsIn e es
    → P e
All-IsIn P [] e h i = elim i [ ]
All-IsIn P (x ∷ rest) e h (inl i) = subst P (sym i) h.0
All-IsIn P (x ∷ rest) e h (inr i) = All-IsIn P rest e h.1 i

-- What a claim yields, in every case in which it yields a store.
abbrev pub Claims :
    ClaimDueOptions
    → SequenceStore
    → Result SequenceError (SequenceStore × List ClaimedSequenceEnrollment)
    → Type 0
Claims o store (err e) = Unit
Claims o store (ok (after, claimed)) =
    All (λ c. All (IsHeld c.enrollment.id (o.now + o.lease_ms)) after.enrollments) claimed
    × All (IsLeaseOf o store store.enrollments) claimed
    × (length claimed ≤ o.limit)

Outcome-Claims :
    (o : ClaimDueOptions) (store : SequenceStore)
    (r : Result SequenceError (List SequenceEnrollment × List ClaimedSequenceEnrollment))
    → Outcome o store (sort_by_next_run store.enrollments) store.enrollments 0 r
    → Claims o store (elim r [
      | err e ↦ err e
      | ok (enrollments, claimed) ↦ ok (record store { enrollments = enrollments }, claimed)
    ])
Outcome-Claims o store (err e) h = tt
Outcome-Claims o store (ok (final, claimed)) (a, b, l, m) = (
  b,
  All-imp (IsLeaseOf o store (sort_by_next_run store.enrollments))
      (IsLeaseOf o store store.enrollments) claimed
      (λ c (e, n, i, can, k). (
        e,
        n,
        All-IsIn (λ x. IsIn x store.enrollments) (sort_by_next_run store.enrollments) e
            (All-sort (λ x. IsIn x store.enrollments) store.enrollments
              (All-IsIn_self store.enrollments))
            i,
        can,
        k,
      ))
      l,
  omega (arith, m),
)

-- A claim that does not throw returns at most `limit` leases. Each is a stored enrollment that was
-- claimable (due, runnable, under no running lease, of an active definition and a stored revision),
-- now running under a token that the claim drew, with its definition and revision; and in the new
-- store every enrollment of its identifier is leased until `now + leaseMs`.
pub claim_due-Claims :
    (o : ClaimDueOptions) (store : SequenceStore) → Claims o store (claim_due o store)
unfolding claim_due
claim_due-Claims o store =
    Outcome-Claims o store
      (claim_candidates o store (sort_by_next_run store.enrollments) store.enrollments 0)
      (claim_candidates-Outcome o store (sort_by_next_run store.enrollments) store.enrollments 0)

claimable_is_free :
    (o : ClaimDueOptions) (store : SequenceStore) (e : SequenceEnrollment)
    (x : SequenceDefinition × SequenceRevision)
    → claimable o store e ≡ some x
    → is_free_at o.now e.lease_expires_at ≡ true
unfolding claimable
claimable_is_free o store e x h = elim (Bool-cases (is_free_at o.now e.lease_expires_at)) [
  | inl b ↦ b
  | inr b ↦ let not_due : is_due o.now e ≡ false = ground arith in absurd (ground arith)
]

-- Two claims one after the other, the second before the leases of the first expire, return no
-- enrollment twice.
pub claim_due_excludes :
    (first second : ClaimDueOptions) (store between after : SequenceStore)
    (claimed again : List ClaimedSequenceEnrollment)
    → claim_due first store ≡ ok (between, claimed)
    → claim_due second between ≡ ok (after, again)
    → second.now < first.now + first.lease_ms
    → All (λ c. All (λ d. d.enrollment.id ≢ c.enrollment.id) again) claimed
claim_due_excludes first second store between after claimed again f s early =
    let (held, _, _) = subst (Claims first store) f (claim_due-Claims first store) in
    let (_, leases, _) = subst (Claims second between) s (claim_due-Claims second between) in
    All-imp (λ c. All (IsHeld c.enrollment.id (first.now + first.lease_ms)) between.enrollments)
      (λ c. All (λ d. d.enrollment.id ≢ c.enrollment.id) again) claimed
      (λ c h.
        All-imp (IsLeaseOf second between between.enrollments)
          (λ d. d.enrollment.id ≢ c.enrollment.id) again (λ d l. not_again c h d l) leases)
      held
  where
    not_again :
        (c : ClaimedSequenceEnrollment)
        → All (IsHeld c.enrollment.id (first.now + first.lease_ms)) between.enrollments
        → (d : ClaimedSequenceEnrollment) → IsLeaseOf second between between.enrollments d
        → d.enrollment.id ≢ c.enrollment.id
    not_again c h d (e, n, i, can, k) same_id =
        let expires =
          All-IsIn (IsHeld c.enrollment.id (first.now + first.lease_ms)) between.enrollments e h
            i in
        elim expires [
          | inl other ↦ absurd (other (ap (λ x. x.id) (sym k) ∙ same_id))
          | inr until ↦
              let free =
                subst (λ x. is_free_at second.now x ≡ true) until
                  (claimable_is_free second between e (d.definition, d.revision) can) in
              absurd (ground arith)
        ]
