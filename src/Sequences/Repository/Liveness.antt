-- ===== src/Sequences/Repository/Liveness.antt =====
-- `claimDue` of packages/automation/src/sequences.ts: what can be claimed is.
use listmonk_ops.Prelude.{
  ℕ, suc, ◌<◌, Option, none, some, false, Result, ok, err, List, [], ◌∷◌, leb, ltb, ◌&&◌, All, IsIn,
  ◌≡◌, ◌⊎◌, inl, inr, refl, sym, ap, ◌∙◌, arith, Bool-cases, Option-cases,
}
use listmonk_ops.Sequences.{
  SequenceDefinition, SequenceRevision, SequenceEnrollment, SequenceStore, SequenceError,
  ClaimedSequenceEnrollment, parse_sequence_enrollment, error_fits,
}
use listmonk_ops.Sequences.Repository.Leases.{All-sort}
use listmonk_ops.Sequences.Repository.{
  replace_enrollment, ClaimDueOptions, claimable, leased, claim_candidates, insert_by_next_run,
  sort_by_next_run, claim_due,
}

-- An enrollment that the schema accepts, as every enrollment of a store that was read is.
abbrev pub IsAccepted : SequenceEnrollment → Type 0
IsAccepted e = parse_sequence_enrollment e ≡ ok e

leased-IsAccepted :
    (o : ClaimDueOptions) (n : ℕ) (e : SequenceEnrollment)
    → IsAccepted e
    → IsAccepted (leased o n e)
unfolding parse_sequence_enrollment
leased-IsAccepted o n e h =
    elim (Bool-cases (ltb 0 e.revision && ltb 0 e.subscriber_id && error_fits e.last_error)) [
      | inl b ↦ rw (b, parse_sequence_enrollment) refl
      | inr b ↦ absurd (ground arith)
    ]

module _ (o : ClaimDueOptions) (store : SequenceStore) where
  -- The loop yields a result.
  abbrev Yields :
      Result SequenceError (List SequenceEnrollment × List ClaimedSequenceEnrollment) → Type 0
  Yields (err e) = ⊥
  Yields (ok r) = Unit

  -- The loop claims something.
  abbrev Takes :
      Result SequenceError (List SequenceEnrollment × List ClaimedSequenceEnrollment) → Type 0
  Takes (err e) = ⊥
  Takes (ok (final, [])) = ⊥
  Takes (ok (final, c ∷ rest)) = Unit

  lease-Takes :
      (l : SequenceEnrollment) (d : SequenceDefinition) (v : SequenceRevision)
      (r : Result SequenceError (List SequenceEnrollment × List ClaimedSequenceEnrollment))
      → Yields r
      → Takes (elim r [
        | err e ↦ err e
        | ok (final, claimed) ↦
            ok (final, record { enrollment = l; definition = d; revision = v } ∷ claimed)
      ])
  lease-Takes l d v (err e) y = y
  lease-Takes l d v (ok (final, claimed)) y = tt

  Takes-Yields :
      (r : Result SequenceError (List SequenceEnrollment × List ClaimedSequenceEnrollment))
      → Takes r
      → Yields r
  Takes-Yields (err e) t = t
  Takes-Yields (ok r) t = tt

  claim_candidates-Yields :
      (candidates es : List SequenceEnrollment) (n : ℕ)
      → All IsAccepted candidates
      → Yields (claim_candidates o store candidates es n)
  unfolding claim_candidates
  claim_candidates-Yields [] es n h = tt
  claim_candidates-Yields (c ∷ rest) es n h = elim (Bool-cases (leb o.limit n)) [
    | inl b ↦ rw (b, claim_candidates) tt
    | inr b ↦ elim (Option-cases (claimable o store c)) [
      | inl e ↦ rw (b, e, claim_candidates) (claim_candidates-Yields rest es n h.1)
      | inr ((d, v), e) ↦
          let r = claim_candidates o store rest (replace_enrollment es (leased o n c)) (suc n) in
          rw (b, e, leased-IsAccepted o n c h.0, claim_candidates)
            (Takes-Yields _ (
              lease-Takes (leased o n c) d v r
                (claim_candidates-Yields rest (replace_enrollment es (leased o n c)) (suc n) h.1)))
    ]
  ]

  claim_candidates-Takes :
      (candidates es : List SequenceEnrollment) (n : ℕ) (e : SequenceEnrollment)
      (x : SequenceDefinition × SequenceRevision)
      → All IsAccepted candidates
      → n < o.limit
      → IsIn e candidates
      → claimable o store e ≡ some x
      → Takes (claim_candidates o store candidates es n)
  unfolding claim_candidates
  claim_candidates-Takes [] es n e x h few i can = elim i [ ]
  claim_candidates-Takes (c ∷ rest) es n e x h few i can =
      let b : leb o.limit n ≡ false = ground arith in
      elim (Option-cases (claimable o store c)) [
        | inl k ↦ elim i [
          | inl here ↦ absurd (none_some (sym k ∙ ap (claimable o store) (sym here) ∙ can))
          | inr there ↦
              rw (b, k, claim_candidates) (claim_candidates-Takes rest es n e x h.1 few there can)
        ]
        | inr ((d, v), k) ↦
            rw (b, k, leased-IsAccepted o n c h.0, claim_candidates)
              (lease-Takes (leased o n c) d v
                (claim_candidates o store rest (replace_enrollment es (leased o n c)) (suc n))
                (claim_candidates-Yields rest (replace_enrollment es (leased o n c)) (suc n) h.1))
      ]
    where
      none_some : ◌≡◌ {A = Option (SequenceDefinition × SequenceRevision)} none (some x) → ⊥
      none_some p = ground arith

IsIn-insert :
    (e f : SequenceEnrollment) (es : List SequenceEnrollment)
    → (e ≡ f) ⊎ IsIn e es
    → IsIn e (insert_by_next_run f es)
unfolding insert_by_next_run
IsIn-insert e f [] i = i
IsIn-insert e f (g ∷ rest) i = elim (Bool-cases (leb f.next_run_at g.next_run_at)) [
  | inl b ↦ rw (b, insert_by_next_run) i
  | inr b ↦
      rw (b, insert_by_next_run)
        (elim i [
          | inl here ↦ inr (IsIn-insert e f rest (inl here))
          | inr there ↦ elim there [
            | inl next ↦ inl next
            | inr later ↦ inr (IsIn-insert e f rest (inr later))
          ]
        ])
]

IsIn-sort :
    (e : SequenceEnrollment) (es : List SequenceEnrollment)
    → IsIn e es
    → IsIn e (sort_by_next_run es)
unfolding sort_by_next_run
IsIn-sort e [] i = i
IsIn-sort e (f ∷ rest) i = elim i [
  | inl here ↦ IsIn-insert e f (sort_by_next_run rest) (inl here)
  | inr there ↦ IsIn-insert e f (sort_by_next_run rest) (inr (IsIn-sort e rest there))
]

abbrev pub ClaimsSome :
    Result SequenceError (SequenceStore × List ClaimedSequenceEnrollment) → Type 0
ClaimsSome (err e) = ⊥
ClaimsSome (ok (after, [])) = ⊥
ClaimsSome (ok (after, c ∷ rest)) = Unit

Takes-ClaimsSome :
    (o : ClaimDueOptions) (store : SequenceStore)
    (r : Result SequenceError (List SequenceEnrollment × List ClaimedSequenceEnrollment))
    → Takes o store r
    → ClaimsSome (elim r [
      | err e ↦ err e
      | ok (enrollments, claimed) ↦ ok (record store { enrollments = enrollments }, claimed)
    ])
Takes-ClaimsSome o store (err e) t = t
Takes-ClaimsSome o store (ok (final, [])) t = t
Takes-ClaimsSome o store (ok (final, c ∷ rest)) t = tt

-- On a store whose enrollments the schema accepts, a claim with a positive limit does not throw and
-- returns at least one enrollment if one of the stored enrollments is claimable.
pub claim_due-ClaimsSome :
    (o : ClaimDueOptions) (store : SequenceStore) (e : SequenceEnrollment)
    (x : SequenceDefinition × SequenceRevision)
    → All IsAccepted store.enrollments
    → 0 < o.limit
    → IsIn e store.enrollments
    → claimable o store e ≡ some x
    → ClaimsSome (claim_due o store)
unfolding claim_due
claim_due-ClaimsSome o store e x h few i can =
    let candidates = sort_by_next_run store.enrollments in
    Takes-ClaimsSome o store (claim_candidates o store candidates store.enrollments 0) (
      claim_candidates-Takes o store candidates store.enrollments 0 e x
        (All-sort IsAccepted store.enrollments h) few (IsIn-sort e store.enrollments i) can)
