-- ===== src/AbTest/Remainders.antt =====
-- packages/abtest/src/allocation.ts: what the whole parts of the quotas leave, in natural numbers.
use native.Mathlib.Nat.{mul-zero, mul-add, mul_comm, mod-lt, div-add-mod, le_of_mul-le-mul_left}
use listmonk_ops.Prelude.{
  ℕ, ◌+◌, ◌-◌, ◌*◌, ◌/◌, ◌%◌, ◌<◌, ◌≤◌, List, [], ◌∷◌, map, length, ◌≡◌, arith,
}
use listmonk_ops.AbTest.Doubles.{total_of, base_seats}

-- The numerators of the fractions that the base seats leave.
abbrev left_over : ℕ → ℕ → List ℕ → List ℕ
left_over t s = map (λ w. t * w % s)

base_seats-left_over :
    (t s : ℕ) (ws : List ℕ)
    → s * total_of (base_seats t s ws) + total_of (left_over t s ws) ≡ t * total_of ws
base_seats-left_over t s [] = omega (arith, mul-zero s, mul-zero t)
base_seats-left_over t s (w ∷ ws) = omega (
  arith,
  mul-add s (t * w / s) (total_of (base_seats t s ws)),
  mul-add t w (total_of ws),
  div-add-mod (t * w) s,
  base_seats-left_over t s ws,
)

left_over_le :
    (t s : ℕ) (ws : List ℕ) → 0 < s → total_of (left_over t s ws) + length ws ≤ s * length ws
left_over_le t s [] h = omega (arith, mul-zero s)
left_over_le t s (w ∷ ws) h =
    omega (arith, mul-add s 1 (length ws), mod-lt (t * w) {m = s} h, left_over_le t s ws h)

-- The base seats are no more than the seats, and the rest no more than the weights.
pub base_seats_bounds :
    (t : ℕ) (ws : List ℕ)
    → 0 < total_of ws
    → (total_of (base_seats t (total_of ws) ws) ≤ t)
      × (t - total_of (base_seats t (total_of ws) ws) ≤ length ws)
base_seats_bounds t ws h =
    let s = total_of ws in
    let b = total_of (base_seats t s ws) in
    let c = b + length ws in
    let below : b ≤ t =
      le_of_mul-le-mul_left {m = b} {n = t} {k = s}
        (omega (arith, base_seats-left_over t s ws, mul_comm s t)) h in
    let near : t ≤ c =
      le_of_mul-le-mul_left {m = t} {n = c} {k = s}
        (omega (
          arith,
          base_seats-left_over t s ws,
          mul_comm s t,
          left_over_le t s ws h,
          mul-add s b (length ws),
        ))
        h in
    (below, omega (arith, near))
