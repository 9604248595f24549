-- ===== src/AbTest/Seats.antt =====
-- packages/abtest/src/allocation.ts: that the seats of an allocation are those there are.
use native.Mathlib.Nat.{le-mul_of_pos_right}
use listmonk_ops.Prelude.{
  ℕ, suc, ◌+◌, ◌-◌, ◌*◌, ◌<◌, ◌≤◌, Bool-cases, false, any, Result, ok, List, [], ◌∷◌, map, length,
  All, ltb, ◌==◌, sort_by, ◌≡◌, refl, sym, ap, ◌∙◌, subst, arith, inl, inr, length-sort_by,
  length-map, sort-All,
}
use listmonk_ops.AbTest.Allocation.{
  Arithmetic, AllocationResult, AllocationError, sum, quotas, rankings, ranked_before, give_seats,
  checked_result, is_bad_weight, validate_allocation_input, allocate_quotas,
  allocate_by_largest_remainder,
}
use listmonk_ops.AbTest.Remainders.{base_seats_bounds}
use listmonk_ops.AbTest.Doubles.{
  IsDouble, safe, total_of, base_seats, give, give_lem, length-give, sum_from-number, floor-quotas,
  give_seats-number,
}

-- There are weights, and none is zero.
abbrev pub IsWeighted : List ℕ → Type 0
IsWeighted ws = (0 < length ws) × All (λ w. 0 < w) ws

total_of_pos : (ws : List ℕ) → IsWeighted ws → 0 < total_of ws
total_of_pos [] h = absurd (omega (arith, h.0))
total_of_pos (w ∷ ws) h = omega (arith, h.1.0)

total_of-zeros : (ws : List ℕ) → total_of (map (λ w. 0) ws) ≡ 0
total_of-zeros [] = refl
total_of-zeros (w ∷ ws) = omega (arith, total_of-zeros ws)

module _ {F : Type 0} (x : Arithmetic F) where
  length-rankings : (i : ℕ) (qs bs : List F) → length (rankings x i qs bs) ≡ length qs
  length-rankings i [] bs = refl
  length-rankings i (q ∷ qs) [] = ap suc (length-rankings (suc i) qs [])
  length-rankings i (q ∷ qs) (b ∷ bs) = ap suc (length-rankings (suc i) qs bs)

  rankings-in_range :
      (i n : ℕ) (qs bs : List F) → i + length qs ≤ n → All (λ r. r.index < n) (rankings x i qs bs)
  rankings-in_range i n [] bs h = tt
  rankings-in_range i n (q ∷ qs) [] h =
      (omega (arith, h), rankings-in_range (suc i) n qs [] (omega (arith, h)))
  rankings-in_range i n (q ∷ qs) (b ∷ bs) h =
      (omega (arith, h), rankings-in_range (suc i) n qs bs (omega (arith, h)))

  -- What an allocation promises: a result with so many counts, which are whole numbers and add up to
  -- the seats.
  abbrev pub IsExact : ℕ → ℕ → Result AllocationError (AllocationResult F) → Type 0
  IsExact t n r =
      (cs : List ℕ) × (r ≡ ok record { counts = map x.number cs; total = x.number t })
      × (total_of cs ≡ t)
      × (length cs ≡ n)

  module _ (d : IsDouble x) where
    checked_result-number :
        (t : ℕ) (cs : List ℕ)
        → t < safe
        → total_of cs ≡ t
        → checked_result x (x.number t) (x.number 0, map x.number cs)
          ≡ ok record { counts = map x.number cs; total = x.number t }
    checked_result-number t cs h e =
        let summed : sum x (map x.number cs) ≡ x.number t =
          sum_from-number x d 0 cs (omega (arith, h, e)) ∙ ap x.number (omega (arith, e)) in
        rw (d.equal_safe 0 0 (omega arith) (omega arith), summed, d.equal_safe t t h h)
          (ground arith)

    -- The loop over the rankings gives every seat, and leaves one count for each quota.
    pub allocate_quotas-IsExact :
        (t : ℕ) (qs : List F) (base : List ℕ)
        → t < safe
        → map x.floor qs ≡ map x.number base
        → total_of base ≤ t
        → t - total_of base ≤ length qs
        → IsExact t (length qs) (allocate_quotas x (x.number t) qs)
    unfolding allocate_quotas
    allocate_quotas-IsExact t qs base h e below near =
        let b = total_of base in
        let floors = map x.number base in
        let ranked = sort_by (ranked_before x) (rankings x 0 qs floors) in
        let size : length base ≡ length qs =
          sym (length-map x.number base) ∙ sym (ap length e) ∙ length-map x.floor qs in
        let allocated : sum x floors ≡ x.number b =
          sum_from-number x d 0 base (omega (arith, h, below)) ∙ ap x.number (omega arith) in
        let remaining : x.sub (x.number t) (sum x floors) ≡ x.number (t - b) =
          ap (x.sub (x.number t)) allocated ∙ d.sub_safe t b below h in
        let in_range =
          sort-All (λ r. r.index < length base) (ranked_before x) (rankings x 0 qs floors)
            (rankings-in_range 0 (length base) qs floors (omega (arith, size))) in
        let (none_left, all) = give_lem (t - b) ranked base (
          omega (
            arith,
            near,
            length-sort_by (ranked_before x) (rankings x 0 qs floors),
            length-rankings 0 qs floors,
          )) in
        let given = give (t - b) ranked base in
        let loop : give_seats x (x.number (t - b)) ranked floors
            ≡ (x.number 0, map x.number given.1) =
          give_seats-number x d (t - b) ranked base (omega (arith, h, below))
          ∙ ap (λ n. (x.number n, map x.number given.1)) none_left in
        let not_less : ltb (t - b) 0 ≡ false = ground arith in
        (
          given.1,
          rw (e, allocate_quotas, remaining, d.less_safe (t - b) 0 (omega (arith, h)) (omega arith))
              (rw not_less (
                ap (checked_result x (x.number t)) loop
                ∙ checked_result-number t given.1 h (omega (arith, all, below)))),
          omega (arith, all, below),
          length-give (t - b) ranked base in_range ∙ size,
        )

    valid_weights :
        (ws : List ℕ)
        → All (λ w. 0 < w) ws
        → total_of ws < safe
        → any (is_bad_weight x) (map x.number ws) ≡ false
    valid_weights [] p h = refl
    valid_weights (w ∷ ws) p h =
        rw
          (
            d.finite_safe w (omega (arith, h)),
            d.at_most_safe w 0 (omega (arith, h)) (omega arith),
            valid_weights ws p.1 (omega (arith, h)),
          )
          (ground (arith, p.0))

    valid_input :
        (t : ℕ) (ws : List ℕ)
        → t < safe
        → IsWeighted ws
        → total_of ws < safe
        → validate_allocation_input x record { total = x.number t; weights = map x.number ws }
          ≡ ok tt
    unfolding validate_allocation_input
    valid_input t [] k p h = absurd (omega (arith, p.0))
    valid_input t (w ∷ ws) k p h =
        rw
          (
            d.finite_safe t k,
            d.less_safe t 0 k (omega arith),
            d.integer_safe t k,
            valid_weights (w ∷ ws) p.1 h,
          )
          (ground arith)

    zeros-number :
        (ws : List ℕ) → map (λ w. x.number 0) (map x.number ws) ≡ map x.number (map (λ w. 0) ws)
    zeros-number [] = refl
    zeros-number (w ∷ ws) = ap (◌∷◌ (x.number 0)) (zeros-number ws)

    weighted_quotas-IsExact :
        (t : ℕ) (ws : List ℕ)
        → t < safe
        → IsWeighted ws
        → total_of ws < safe
        → t * total_of ws < safe
        → IsExact t (length ws) (
            allocate_quotas x
              (x.number t)
              (quotas x (x.number t) (sum x (map x.number ws)) (map x.number ws)))
    weighted_quotas-IsExact t ws k p h m =
        let s = total_of ws in
        let pos = total_of_pos ws p in
        let summed : sum x (map x.number ws) ≡ x.number s =
          sum_from-number x d 0 ws (omega (arith, h)) ∙ ap x.number (omega arith) in
        let qs = quotas x (x.number t) (x.number s) (map x.number ws) in
        let (below, near) = base_seats_bounds t ws pos in
        let size : length qs ≡ length ws =
          length-map (λ w. x.div (x.mul (x.number t) w) (x.number s)) (map x.number ws)
          ∙ length-map x.number ws in
        rw summed (
          subst (λ n. IsExact t n (allocate_quotas x (x.number t) qs)) size
            (allocate_quotas-IsExact t qs (base_seats t s ws) k (floor-quotas x d t s ws pos h m)
              below (omega (arith, near, size))))

    -- Whole weights, at least one and none of them zero, and a whole total have an allocation, never an
    -- error, if the sum of the weights and its product with the total are below 2 ** 53: it has one whole
    -- count for each weight, and the counts add up to the total. The operations are exact on doubles
    -- that are safe integers.
    pub allocate_by_largest_remainder-IsExact :
        (t : ℕ) (ws : List ℕ)
        → IsWeighted ws
        → total_of ws < safe
        → t * total_of ws < safe
        → IsExact t (length ws) (
            allocate_by_largest_remainder x
              record { total = x.number t; weights = map x.number ws })
    unfolding allocate_by_largest_remainder
    allocate_by_largest_remainder-IsExact t ws p h m =
        let k : t < safe = omega (arith, m, le-mul_of_pos_right t (total_of_pos ws p)) in
        rw (valid_input t ws k p h, allocate_by_largest_remainder, d.equal_safe t 0 k (omega arith))
          (elim (Bool-cases (t == 0)) [
            | inl z ↦
                let none : t ≡ 0 = ground arith in
                rw z (
                  map (λ w. 0) ws,
                  rw none
                      (ap (λ cs. ok record { counts = cs; total = x.number 0 }) (zeros-number ws)),
                  total_of-zeros ws ∙ sym none,
                  length-map (λ w. 0) ws,
                )
            | inr z ↦ rw z (weighted_quotas-IsExact t ws k p h m)
          ])
