-- ===== src/AbTest/Division.antt =====
-- packages/abtest/src/allocation.ts, allocateTestAndHoldout: the two groups of an audience.
use listmonk_ops.Prelude.{
  ℕ, ◌+◌, ◌-◌, ◌*◌, ◌<◌, ◌≤◌, false, Bool-cases, Result, ok, [], ◌∷◌, ltb, ◌==◌, ◌≡◌, refl, ap,
  subst, arith, inl, inr,
}
use listmonk_ops.AbTest.Allocation.{
  Arithmetic, AllocationResult, AllocationError, GroupSizes, sizes_of, allocate_test_and_holdout,
}
use listmonk_ops.AbTest.Doubles.{IsDouble, safe}
use listmonk_ops.AbTest.Seats.{IsExact, allocate_by_largest_remainder-IsExact}

module _ {F : Type 0} (x : Arithmetic F) where
  -- What the division of an audience promises: two groups of whole sizes that make up the audience.
  abbrev pub IsDivided : ℕ → Result AllocationError (GroupSizes F) → Type 0
  IsDivided n r =
      (a : ℕ) × (b : ℕ) × (r
        ≡ ok record { test_group_size = x.number a; holdout_group_size = x.number b })
      × (a + b ≡ n)

  two_counts :
      (n : ℕ) (r : Result AllocationError (AllocationResult F))
      → IsExact x n 2 r
      → IsDivided n (sizes_of x r)
  two_counts n r ([], e, s, l) = absurd (omega (arith, l))
  two_counts n r (a ∷ [], e, s, l) = absurd (omega (arith, l))
  two_counts n r (a ∷ b ∷ [], e, s, l) = (a, b, ap (sizes_of x) e, omega (arith, s))
  two_counts n r (a ∷ b ∷ c ∷ cs, e, s, l) = absurd (omega (arith, l))

  module _ (d : IsDouble x) where
    -- For every whole percentage up to 100 an audience whose hundredfold is below 2 ** 53 is divided
    -- without an error, into a test group and a holdout group that make up the audience. The operations
    -- are exact on doubles that are safe integers.
    pub allocate_test_and_holdout-IsDivided :
        (n p : ℕ)
        → n * 100 < safe
        → p ≤ 100
        → IsDivided n (allocate_test_and_holdout x (x.number n) (x.number p))
    unfolding allocate_test_and_holdout
    allocate_test_and_holdout-IsDivided n p m h =
        let k : n < safe = omega (arith, m) in
        let not_negative : ltb n 0 ≡ false = ground arith in
        let p_not_negative : ltb p 0 ≡ false = ground arith in
        let in_range : ltb 100 p ≡ false = ground (arith, h) in
        rw
          (
            d.finite_safe n k,
            d.integer_safe n k,
            d.less_safe n 0 k (omega arith),
            d.finite_safe p (omega (arith, h)),
            d.less_safe p 0 (omega (arith, h)) (omega arith),
            d.less_safe 100 p (omega arith) (omega (arith, h)),
            d.equal_safe n 0 k (omega arith),
            d.equal_safe p 0 (omega (arith, h)) (omega arith),
            d.equal_safe p 100 (omega (arith, h)) (omega arith),
          )
          (rw (not_negative, p_not_negative, in_range)
            (elim (Bool-cases (n == 0)) [
              | inl z ↦ rw z (0, 0, refl, ground arith)
              | inr z ↦ elim (Bool-cases (p == 0)) [
                | inl q ↦ rw (z, q) (0, n, refl, omega arith)
                | inr q ↦ elim (Bool-cases (p == 100)) [
                  | inl f ↦ rw (z, q, f) (n, 0, refl, omega arith)
                  | inr f ↦
                      rw (z, q, f, d.sub_safe 100 p h (omega arith))
                        (two_counts n _ (
                          allocate_by_largest_remainder-IsExact x d n (p ∷ (100 - p) ∷ [])
                            (omega arith, (ground arith, (ground (arith, h), tt)))
                            (omega (arith, h))
                            (subst (λ y. n * y < safe) {x = 100} (omega (arith, h)) m)))
                ]
              ]
            ]))
