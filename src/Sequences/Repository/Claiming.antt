-- ===== src/Sequences/Repository/Claiming.antt =====
-- The loop of `claimDue`: what holds of the enrollments that it leaves and of those that it claims.
use listmonk_ops.Prelude.{
  ℕ, suc, ◌+◌, ◌-◌, ◌≤◌, ◌<◌, String, some, Result, ok, err, List, [], ◌∷◌, same, leb, length, All,
  All-imp, IsIn, ◌≡◌, ◌≢◌, ◌⊎◌, inl, inr, refl, ap, arith, Bool-cases, Option-cases,
}
use listmonk_ops.Sequences.{
  SequenceDefinition, SequenceRevision, SequenceEnrollment, SequenceStore, SequenceError,
  ClaimedSequenceEnrollment, parse_sequence_enrollment,
}
use listmonk_ops.Sequences.Repository.{
  replace_enrollment, ClaimDueOptions, claimable, leased, claim_candidates,
}

-- Every stored enrollment of that identifier is leased until that time.
abbrev pub IsHeld : String → ℕ → SequenceEnrollment → Type 0
IsHeld id until e = (e.id ≢ id) ⊎ (e.lease_expires_at ≡ some until)

pub parsed : (e f : SequenceEnrollment) → parse_sequence_enrollment e ≡ ok f → f ≡ e
unfolding parse_sequence_enrollment
parsed e f h = ground arith

replace-IsHeld :
    (id : String) (until : ℕ) (es : List SequenceEnrollment) (v : SequenceEnrollment)
    → v.lease_expires_at ≡ some until
    → All (IsHeld id until) es
    → All (IsHeld id until) (replace_enrollment es v)
unfolding replace_enrollment
replace-IsHeld id until [] v held h = tt
replace-IsHeld id until (e ∷ rest) v held h = elim (Bool-cases (same e.id v.id)) [
  | inl b ↦ rw (b, replace_enrollment) (inr held, replace-IsHeld id until rest v held h.1)
  | inr b ↦ rw (b, replace_enrollment) (h.0, replace-IsHeld id until rest v held h.1)
]

replaced-IsHeld :
    (until : ℕ) (es : List SequenceEnrollment) (v : SequenceEnrollment)
    → v.lease_expires_at ≡ some until
    → All (IsHeld v.id until) (replace_enrollment es v)
unfolding replace_enrollment
replaced-IsHeld until [] v held = tt
replaced-IsHeld until (e ∷ rest) v held = elim (Bool-cases (same e.id v.id)) [
  | inl b ↦ rw (b, replace_enrollment) (inr held, replaced-IsHeld until rest v held)
  | inr b ↦
      rw (b, replace_enrollment)
        (inl (λ k. absurd (ground arith)), replaced-IsHeld until rest v held)
]

-- What a claim returns is a lease of a claimable candidate, with its definition and revision.
abbrev pub IsLeaseOf :
    ClaimDueOptions → SequenceStore → List SequenceEnrollment → ClaimedSequenceEnrollment → Type 0
IsLeaseOf o store candidates c =
    (e : SequenceEnrollment) × (n : ℕ) × (IsIn e candidates)
    × (claimable o store e ≡ some (c.definition, c.revision))
    × (c.enrollment ≡ leased o n e)

module _ (o : ClaimDueOptions) (store : SequenceStore) where
  abbrev pub Outcome :
      List SequenceEnrollment
      → List SequenceEnrollment
      → ℕ
      → Result SequenceError (List SequenceEnrollment × List ClaimedSequenceEnrollment)
      → Type 0
  Outcome candidates es n (err e) = Unit
  Outcome candidates es n (ok (final, claimed)) =
      ((id : String)
        → All (IsHeld id (o.now + o.lease_ms)) es
        → All (IsHeld id (o.now + o.lease_ms)) final)
      × All (λ c. All (IsHeld c.enrollment.id (o.now + o.lease_ms)) final) claimed
      × All (IsLeaseOf o store candidates) claimed
      × (length claimed ≤ o.limit - n)

  more_candidates :
      (c : SequenceEnrollment) (rest : List SequenceEnrollment)
      (claimed : List ClaimedSequenceEnrollment)
      → All (IsLeaseOf o store rest) claimed
      → All (IsLeaseOf o store (c ∷ rest)) claimed
  more_candidates c rest claimed =
      All-imp (IsLeaseOf o store rest) (IsLeaseOf o store (c ∷ rest)) claimed
        (λ x (e, n, i, h, k). (e, n, inr i, h, k))

  skip :
      (c : SequenceEnrollment) (rest es : List SequenceEnrollment) (n : ℕ)
      (r : Result SequenceError (List SequenceEnrollment × List ClaimedSequenceEnrollment))
      → Outcome rest es n r
      → Outcome (c ∷ rest) es n r
  skip c rest es n (err e) h = tt
  skip c rest es n (ok (final, claimed)) (a, b, l, m) = (a, b, more_candidates c rest claimed l, m)

  lease :
      (c : SequenceEnrollment) (rest es : List SequenceEnrollment) (n : ℕ) (l : SequenceEnrollment)
      (d : SequenceDefinition) (v : SequenceRevision)
      (r : Result SequenceError (List SequenceEnrollment × List ClaimedSequenceEnrollment))
      → l ≡ leased o n c
      → claimable o store c ≡ some (d, v)
      → n < o.limit
      → Outcome rest (replace_enrollment es l) (suc n) r
      → Outcome (c ∷ rest) es n (elim r [
        | err e ↦ err e
        | ok (final, claimed) ↦
            ok (final, record { enrollment = l; definition = d; revision = v } ∷ claimed)
      ])
  lease c rest es n l d v (err e) is_leased can few h = tt
  lease c rest es n l d v (ok (final, claimed)) is_leased can few (a, b, all_leases, m) =
      let held : l.lease_expires_at ≡ some (o.now + o.lease_ms) =
        ap (λ x. x.lease_expires_at) is_leased in
      (
        λ id h. a id (replace-IsHeld id (o.now + o.lease_ms) es l held h),
        ((a l.id (replaced-IsHeld (o.now + o.lease_ms) es l held)), b),
        ((c, n, inl refl, can, is_leased), more_candidates c rest claimed all_leases),
        omega (arith, m, few),
      )

  after_parse :
      (c : SequenceEnrollment) (rest es : List SequenceEnrollment) (n : ℕ) (d : SequenceDefinition)
      (v : SequenceRevision) (p : Result SequenceError SequenceEnrollment)
      → parse_sequence_enrollment (leased o n c) ≡ p
      → claimable o store c ≡ some (d, v)
      → n < o.limit
      → ((l : SequenceEnrollment)
          → Outcome rest
              (replace_enrollment es l)
              (suc n)
              (claim_candidates o store rest (replace_enrollment es l) (suc n)))
      → Outcome (c ∷ rest) es n (elim p [
        | err e ↦ err e
        | ok l ↦ elim (claim_candidates o store rest (replace_enrollment es l) (suc n)) [
          | err e ↦ err e
          | ok (final, claimed) ↦
              ok (final, record { enrollment = l; definition = d; revision = v } ∷ claimed)
        ]
      ])
  after_parse c rest es n d v (err e) h can few ih = tt
  after_parse c rest es n d v (ok l) h can few ih =
      lease c rest es n l d v (claim_candidates o store rest (replace_enrollment es l) (suc n))
        (parsed (leased o n c) l h) can few (ih l)

  pub claim_candidates-Outcome :
      (candidates es : List SequenceEnrollment) (n : ℕ)
      → Outcome candidates es n (claim_candidates o store candidates es n)
  unfolding claim_candidates
  claim_candidates-Outcome [] es n = (λ id h. h, tt, tt, omega arith)
  claim_candidates-Outcome (c ∷ rest) es n = elim (Bool-cases (leb o.limit n)) [
    | inl b ↦ rw (b, claim_candidates) (λ id h. h, tt, tt, omega arith)
    | inr b ↦ elim (Option-cases (claimable o store c)) [
      | inl e ↦
          rw (b, e, claim_candidates)
            (skip c rest es n (claim_candidates o store rest es n)
              (claim_candidates-Outcome rest es n))
      | inr ((d, v), e) ↦
          rw (b, e, claim_candidates)
            (after_parse c rest es n d v (parse_sequence_enrollment (leased o n c)) refl e
              (ground arith) (λ l. claim_candidates-Outcome rest (replace_enrollment es l) (suc n)))
    ]
  ]
