-- ===== src/AbTest/Allocation.antt =====
-- packages/abtest/src/allocation.ts: seats by the largest remainder. The operations on doubles are a
-- parameter; a count that a list does not have reads as 0.
use listmonk_ops.Prelude.{
  ℕ, zero, suc, Bool, if◌then◌else◌, not, any, ◌||◌, Result, ok, err, List, [], ◌∷◌, map, leb,
  sort_by,
}

-- The operations on doubles that the code uses, with the doubles of natural numbers.
pub record Arithmetic (F : Type 0) : Type 0 where
  pub number : ℕ → F
  pub add : F → F → F
  pub sub : F → F → F
  pub mul : F → F → F
  pub div : F → F → F
  pub floor : F → F
  pub is_finite : F → Bool
  pub is_integer : F → Bool
  pub less : F → F → Bool
  pub at_most : F → F → Bool
  pub equal : F → F → Bool

pub record AllocationInput (F : Type 0) : Type 0 where
  pub total : F
  pub weights : List F

pub record AllocationResult (F : Type 0) : Type 0 where
  pub counts : List F
  pub total : F

pub data AllocationError : Type 0 where
  input_error value_error invariant_error : AllocationError

pub record Ranking (F : Type 0) : Type 0 where
  pub index : ℕ
  pub remainder : F

pub record GroupSizes (F : Type 0) : Type 0 where
  pub test_group_size : F
  pub holdout_group_size : F

module _ {F : Type 0} (x : Arithmetic F) where
  -- `reduce` with addition.
  abbrev pub sum_from : F → List F → F
  sum_from acc [] = acc
  sum_from acc (n ∷ ns) = sum_from (x.add acc n) ns

  abbrev pub sum : List F → F
  sum = sum_from (x.number 0)

  abbrev pub is_non_negative_integer : F → Bool
  is_non_negative_integer n =
      not (not (x.is_finite n) || x.less n (x.number 0) || not (x.is_integer n))

  abbrev pub is_bad_weight : F → Bool
  is_bad_weight w = not (x.is_finite w) || x.at_most w (x.number 0)

  abbrev pub validate_weights : List F → Result AllocationError (Unit {0})
  validate_weights [] = err input_error
  validate_weights (w ∷ ws) = if any is_bad_weight (w ∷ ws) then err input_error else ok tt

  unfoldable pub validate_allocation_input : AllocationInput F → Result AllocationError (Unit {0})
  validate_allocation_input input =
      if is_non_negative_integer input.total
      then validate_weights input.weights
      else err value_error

  abbrev pub quotas : F → F → List F → List F
  quotas total weight_sum = map (λ w. x.div (x.mul total w) weight_sum)

  abbrev pub rankings : ℕ → List F → List F → List (Ranking F)
  rankings index [] base = []
  rankings index (q ∷ qs) [] =
      record { index = index; remainder = x.sub q (x.number 0) } ∷ rankings (suc index) qs []
  rankings index (q ∷ qs) (b ∷ bs) =
      record { index = index; remainder = x.sub q b } ∷ rankings (suc index) qs bs

  -- The comparison of the sort is at most 0.
  abbrev pub ranked_before : Ranking F → Ranking F → Bool
  ranked_before a b =
      if x.equal b.remainder a.remainder
      then leb a.index b.index
      else x.at_most (x.sub b.remainder a.remainder) (x.number 0)

  -- `counts[index] = (counts[index] ?? 0) + 1`.
  abbrev pub add_seat : ℕ → List F → List F
  add_seat zero [] = x.add (x.number 0) (x.number 1) ∷ []
  add_seat (suc index) [] = x.number 0 ∷ add_seat index []
  add_seat zero (n ∷ ns) = x.add n (x.number 1) ∷ ns
  add_seat (suc index) (n ∷ ns) = n ∷ add_seat index ns

  -- The seats that remain, and the counts, after the loop over the rankings.
  abbrev pub give_seats : F → List (Ranking F) → List F → F × List F
  give_seats remaining [] counts = (remaining, counts)
  give_seats remaining (r ∷ rs) counts =
      let rest = give_seats (x.sub remaining (x.number 1)) rs (add_seat r.index counts) in
      if x.at_most remaining (x.number 0) then (remaining, counts) else rest

  abbrev pub checked_result : F → F × List F → Result AllocationError (AllocationResult F)
  checked_result total (remaining, counts) =
      if not (x.equal remaining (x.number 0))
      then err invariant_error
      else if not (x.equal (sum counts) total)
      then err invariant_error
      else ok record { counts = counts; total = sum counts }

  unfoldable pub allocate_quotas : F → List F → Result AllocationError (AllocationResult F)
  allocate_quotas total quotas =
      let base = map x.floor quotas in
      let remaining = x.sub total (sum base) in
      if x.less remaining (x.number 0)
      then err invariant_error
      else checked_result total
          (give_seats remaining (sort_by ranked_before (rankings 0 quotas base)) base)

  unfoldable pub allocate_by_largest_remainder :
      AllocationInput F → Result AllocationError (AllocationResult F)
  unfolding allocate_quotas validate_allocation_input
  allocate_by_largest_remainder input = elim (validate_allocation_input input) [
    | err e ↦ err e
    | ok u ↦
        if x.equal input.total (x.number 0)
        then ok record { counts = map (λ w. x.number 0) input.weights; total = x.number 0 }
        else allocate_quotas input.total (quotas input.total (sum input.weights) input.weights)
  ]

  abbrev pub count_at : ℕ → List F → F
  count_at n [] = x.number 0
  count_at zero (c ∷ cs) = c
  count_at (suc n) (c ∷ cs) = count_at n cs

  abbrev pub sizes_of :
      Result AllocationError (AllocationResult F) → Result AllocationError (GroupSizes F)
  sizes_of (err e) = err e
  sizes_of (ok r) =
      ok record { test_group_size = count_at 0 r.counts; holdout_group_size = count_at 1 r.counts }

  unfoldable pub allocate_test_and_holdout : F → F → Result AllocationError (GroupSizes F)
  allocate_test_and_holdout audience percentage =
      if not (is_non_negative_integer audience)
      then err value_error
      else if not (x.is_finite percentage)
          || x.less percentage (x.number 0)
          || x.less (x.number 100) percentage
      then err value_error
      else if x.equal audience (x.number 0)
      then ok record { test_group_size = x.number 0; holdout_group_size = x.number 0 }
      else if x.equal percentage (x.number 0)
      then ok record { test_group_size = x.number 0; holdout_group_size = audience }
      else if x.equal percentage (x.number 100)
      then ok record { test_group_size = audience; holdout_group_size = x.number 0 }
      else sizes_of (
          allocate_by_largest_remainder record {
            total = audience;
            weights = percentage ∷ x.sub (x.number 100) percentage ∷ [];
          })
