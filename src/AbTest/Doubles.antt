-- ===== src/AbTest/Doubles.antt =====
-- packages/abtest/src/allocation.ts: what doubles do on safe integers, and the sums and counts of an
-- allocation as natural numbers.
use native.Mathlib.Nat.{mul-add}
use listmonk_ops.Prelude.{
  ℕ, zero, suc, ◌+◌, ◌-◌, ◌*◌, ◌/◌, ◌<◌, ◌≤◌, true, false, List, [], ◌∷◌, map, ltb, leb, ◌==◌, ◌≡◌,
  refl, sym, ap, subst, ◌∙◌, arith, length, All,
}
use listmonk_ops.AbTest.Allocation.{Arithmetic, Ranking, sum_from, quotas, add_seat, give_seats}

-- `2 ** 53`: below it every natural number is a double.
abbrev pub safe : ℕ
safe = 9_007_199_254_740_992

-- Doubles are exact on safe integers, and the whole part of a quotient is that of the integers: a
-- quotient below 2 ** 53 is too far below the next whole number to be rounded up to it.
pub record IsDouble {F : Type 0} (x : Arithmetic F) : Type 0 where
  pub add_safe : (a b : ℕ) → a + b < safe → x.add (x.number a) (x.number b) ≡ x.number (a + b)
  pub sub_safe : (a b : ℕ) → b ≤ a → a < safe → x.sub (x.number a) (x.number b) ≡ x.number (a - b)
  pub mul_safe : (a b : ℕ) → a * b < safe → x.mul (x.number a) (x.number b) ≡ x.number (a * b)
  pub floor_safe :
      (a b : ℕ)
      → a < safe
      → 0 < b
      → b < safe
      → x.floor (x.div (x.number a) (x.number b)) ≡ x.number (a / b)
  pub finite_safe : (a : ℕ) → a < safe → x.is_finite (x.number a) ≡ true
  pub integer_safe : (a : ℕ) → a < safe → x.is_integer (x.number a) ≡ true
  pub less_safe : (a b : ℕ) → a < safe → b < safe → x.less (x.number a) (x.number b) ≡ ltb a b
  pub at_most_safe : (a b : ℕ) → a < safe → b < safe → x.at_most (x.number a) (x.number b) ≡ leb a b
  pub equal_safe : (a b : ℕ) → a < safe → b < safe → x.equal (x.number a) (x.number b) ≡ (a == b)

abbrev pub total_of : List ℕ → ℕ
total_of [] = 0
total_of (n ∷ ns) = n + total_of ns

-- The whole parts of the quotas.
abbrev pub base_seats : ℕ → ℕ → List ℕ → List ℕ
base_seats t s = map (λ w. t * w / s)

abbrev pub one_more : ℕ → List ℕ → List ℕ
one_more zero [] = 1 ∷ []
one_more (suc i) [] = 0 ∷ one_more i []
one_more zero (n ∷ ns) = suc n ∷ ns
one_more (suc i) (n ∷ ns) = n ∷ one_more i ns

abbrev pub give : {F : Type 0} → ℕ → List (Ranking F) → List ℕ → ℕ × List ℕ
give n [] ns = (n, ns)
give zero (r ∷ rs) ns = (0, ns)
give (suc n) (r ∷ rs) ns = give n rs (one_more r.index ns)

total_of-one_more : (i : ℕ) (ns : List ℕ) → total_of (one_more i ns) ≡ suc (total_of ns)
total_of-one_more zero [] = refl
total_of-one_more (suc i) [] = omega (arith, total_of-one_more i [])
total_of-one_more zero (n ∷ ns) = omega arith
total_of-one_more (suc i) (n ∷ ns) = omega (arith, total_of-one_more i ns)

-- When there are no more seats than rankings, all are given.
pub give_lem :
    {F : Type 0} (n : ℕ) (rs : List (Ranking F)) (ns : List ℕ)
    → n ≤ length rs
    → ((give n rs ns).0 ≡ 0) × (total_of (give n rs ns).1 ≡ total_of ns + n)
give_lem zero [] ns h = (refl, omega arith)
give_lem (suc n) [] ns h = absurd (omega (arith, h))
give_lem zero (r ∷ rs) ns h = (refl, omega arith)
give_lem (suc n) (r ∷ rs) ns h =
    let (none_left, all) = give_lem n rs (one_more r.index ns) (omega (arith, h)) in
    (none_left, omega (arith, all, total_of-one_more r.index ns))

length-one_more : (i : ℕ) (ns : List ℕ) → i < length ns → length (one_more i ns) ≡ length ns
length-one_more zero [] h = absurd (omega (arith, h))
length-one_more (suc i) [] h = absurd (omega (arith, h))
length-one_more zero (n ∷ ns) h = refl
length-one_more (suc i) (n ∷ ns) h = ap suc (length-one_more i ns (omega (arith, h)))

pub length-give :
    {F : Type 0} (n : ℕ) (rs : List (Ranking F)) (ns : List ℕ)
    → All (λ r. r.index < length ns) rs
    → length (give n rs ns).1 ≡ length ns
length-give zero [] ns h = refl
length-give (suc n) [] ns h = refl
length-give zero (r ∷ rs) ns h = refl
length-give (suc n) (r ∷ rs) ns h =
    let kept = length-one_more r.index ns h.0 in
    length-give n rs (one_more r.index ns) (subst (λ m. All (λ y. y.index < m) rs) (sym kept) h.1)
    ∙ kept

cons_both :
    {A : Type 0} {x y : A} {xs ys : List A} → x ≡ y → xs ≡ ys → ◌≡◌ {A = List A} (x ∷ xs) (y ∷ ys)
cons_both {y = y} {xs = xs} p q = ap (λ z. z ∷ xs) p ∙ ap (◌∷◌ y) q

module _ {F : Type 0} (x : Arithmetic F) (d : IsDouble x) where
  pub sum_from-number :
      (acc : ℕ) (ns : List ℕ)
      → acc + total_of ns < safe
      → sum_from x (x.number acc) (map x.number ns) ≡ x.number (acc + total_of ns)
  sum_from-number acc [] h = ap x.number (omega arith)
  sum_from-number acc (n ∷ ns) h =
      ap (λ y. sum_from x y (map x.number ns)) (d.add_safe acc n (omega (arith, h)))
      ∙ sum_from-number (acc + n) ns (omega (arith, h))
      ∙ ap x.number (omega arith)

  pub floor-quotas :
      (t s : ℕ) (ws : List ℕ)
      → 0 < s
      → s < safe
      → t * total_of ws < safe
      → map x.floor (quotas x (x.number t) (x.number s) (map x.number ws))
        ≡ map x.number (base_seats t s ws)
  floor-quotas t s [] p q h = refl
  floor-quotas t s (w ∷ ws) p q h =
      let parts = mul-add t w (total_of ws) in
      cons_both
        (ap (λ y. x.floor (x.div y (x.number s))) (d.mul_safe t w (omega (arith, h, parts)))
          ∙ d.floor_safe (t * w) s (omega (arith, h, parts)) p q)
        (floor-quotas t s ws p q (omega (arith, h, parts)))

  add_seat-number :
      (i : ℕ) (ns : List ℕ)
      → suc (total_of ns) < safe
      → add_seat x i (map x.number ns) ≡ map x.number (one_more i ns)
  add_seat-number zero [] h = ap (λ y. y ∷ []) (d.add_safe 0 1 (omega arith))
  add_seat-number (suc i) [] h = ap (◌∷◌ (x.number 0)) (add_seat-number i [] h)
  add_seat-number zero (n ∷ ns) h =
      ap (λ y. y ∷ map x.number ns) (d.add_safe n 1 (omega (arith, h)) ∙ ap x.number (omega arith))
  add_seat-number (suc i) (n ∷ ns) h =
      ap (◌∷◌ (x.number n)) (add_seat-number i ns (omega (arith, h)))

  pub give_seats-number :
      (n : ℕ) (rs : List (Ranking F)) (ns : List ℕ)
      → n + total_of ns < safe
      → give_seats x (x.number n) rs (map x.number ns)
        ≡ (x.number (give n rs ns).0, map x.number (give n rs ns).1)
  give_seats-number zero [] ns h = refl
  give_seats-number (suc n) [] ns h = refl
  give_seats-number zero (r ∷ rs) ns h = rw (d.at_most_safe 0 0 (omega arith) (omega arith)) refl
  give_seats-number (suc n) (r ∷ rs) ns h =
      let some_left : x.at_most (x.number (suc n)) (x.number 0) ≡ false =
        d.at_most_safe (suc n) 0 (omega (arith, h)) (omega arith) ∙ ground arith in
      let one_less : x.sub (x.number (suc n)) (x.number 1) ≡ x.number n =
        d.sub_safe (suc n) 1 (omega arith) (omega (arith, h)) ∙ ap x.number (omega arith) in
      rw some_left (
        ap (λ y. give_seats x y rs (add_seat x r.index (map x.number ns))) one_less
        ∙ ap (give_seats x (x.number n) rs) (add_seat-number r.index ns (omega (arith, h)))
        ∙ give_seats-number n rs (one_more r.index ns)
            (omega (arith, h, total_of-one_more r.index ns)))
