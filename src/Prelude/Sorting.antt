-- ===== src/Prelude/Sorting.antt =====
-- What sorting by a number keeps, and which values stand at the front.
use Prim.Native.Nat.{ℕ, zero, suc, ◌≤◌, ◌<◌}
use mathlib.Core.Path.{◌≡◌, refl, ap, ◌∙◌, sym, subst}
use mathlib.Core.Logic.{◌⊎◌, inl, inr}
use mathlib.Core.Bool.{Bool}
use mathlib.Core.List.{List, [], ◌∷◌}
use native.Mathlib.Omega.{arith}
use listmonk_ops.Prelude.Tests.{Bool-cases, leb}
use listmonk_ops.Prelude.Lists.{length, take, filter, All, IsIn, All-imp}
use listmonk_ops.Prelude.Membership.{insert_by, sort_by, insert-All}

module _ {A : Type 0} where
  insert-IsIn :
      (before : A → A → Bool) (x : A) (xs : List A) (d : A)
      → (d ≡ x) ⊎ IsIn d xs
      → IsIn d (insert_by before x xs)
  insert-IsIn before x [] d i = i
  insert-IsIn before x (y ∷ ys) d i = elim (Bool-cases (before x y)) [
    | inl b ↦ rw b i
    | inr b ↦ rw b (elim i [
      | inl e ↦ inr (insert-IsIn before x ys d (inl e))
      | inr (inl e) ↦ inl e
      | inr (inr j) ↦ inr (insert-IsIn before x ys d (inr j))
    ])
  ]

  pub sort-IsIn :
      (before : A → A → Bool) (xs : List A) (d : A) → IsIn d xs → IsIn d (sort_by before xs)
  sort-IsIn before [] d i = i
  sort-IsIn before (x ∷ xs) d (inl e) = insert-IsIn before x (sort_by before xs) d (inl e)
  sort-IsIn before (x ∷ xs) d (inr i) =
      insert-IsIn before x (sort_by before xs) d (inr (sort-IsIn before xs d i))

  -- How many values pass a test does not depend on their order.
  insert-count :
      (p : A → Bool) (before : A → A → Bool) (x : A) (xs : List A)
      → length (filter p (insert_by before x xs)) ≡ length (filter p (x ∷ xs))
  insert-count p before x [] = refl
  insert-count p before x (y ∷ ys) = elim (Bool-cases (before x y)) [
    | inl b ↦ rw b refl
    | inr b ↦ rw b (ground (arith, insert-count p before x ys))
  ]

  pub sort-count :
      (p : A → Bool) (before : A → A → Bool) (xs : List A)
      → length (filter p (sort_by before xs)) ≡ length (filter p xs)
  sort-count p before [] = refl
  sort-count p before (x ∷ xs) =
      insert-count p before x (sort_by before xs) ∙ ground (arith, sort-count p before xs)

module _ {A : Type 0} (key : A → ℕ) where
  abbrev by_key : A → A → Bool
  by_key a b = leb (key a) (key b)

  -- Every value is at most those behind it.
  abbrev Ordered : List A → Type 0
  Ordered [] = Unit
  Ordered (x ∷ xs) = All (λ y. key x ≤ key y) xs × Ordered xs

  insert-Ordered : (x : A) (xs : List A) → Ordered xs → Ordered (insert_by by_key x xs)
  insert-Ordered x [] h = (tt, tt)
  insert-Ordered x (y ∷ ys) h = elim (Bool-cases (leb (key x) (key y))) [
    | inl b ↦
        let le : key x ≤ key y = ground arith in
        rw b ((le, All-imp _ (λ z. key x ≤ key z) ys (λ z q. omega (arith, le, q)) h.0), h)
    | inr b ↦
        rw b
          (insert-All (λ z. key y ≤ key z) by_key x ys (ground arith) h.0, insert-Ordered x ys h.1)
  ]

  sort-Ordered : (xs : List A) → Ordered (sort_by by_key xs)
  sort-Ordered [] = tt
  sort-Ordered (x ∷ xs) = insert-Ordered x (sort_by by_key xs) (sort-Ordered xs)

  counts_self :
      (xs : List A) (d : A) → IsIn d xs → 0 < length (filter (λ x. leb (key x) (key d)) xs)
  counts_self [] d i = absurd i
  counts_self (x ∷ xs) d (inl e) = let same_key : key d ≡ key x = ap key e in ground arith
  counts_self (x ∷ xs) d (inr i) = ground (arith, counts_self xs d i)

  take_or_count :
      (n : ℕ) (xs : List A) (d : A)
      → Ordered xs
      → IsIn d xs
      → IsIn d (take n xs) ⊎ (n < length (filter (λ x. leb (key x) (key d)) xs))
  take_or_count n [] d o i = absurd i
  take_or_count zero (x ∷ xs) d o i = inr (counts_self (x ∷ xs) d i)
  take_or_count (suc n) (x ∷ xs) d o (inl e) = inl (inl e)
  take_or_count (suc n) (x ∷ xs) d o (inr i) = elim (take_or_count n xs d o.1 i) [
    | inl j ↦ inl (inr j)
    | inr m ↦ let le : key x ≤ key d = All-at xs o.0 i in inr (ground arith)
  ]
    where
      All-at : (ys : List A) → All (λ y. key x ≤ key y) ys → IsIn d ys → key x ≤ key d
      All-at [] h j = absurd j
      All-at (y ∷ ys) h (inl e) = subst (λ z. key x ≤ key z) (sym e) h.0
      All-at (y ∷ ys) h (inr j) = All-at ys h.1 j

  -- A value is among the first ones of a sorted list, or more values than those are at most as great.
  pub first_or_count :
      (n : ℕ) (xs : List A) (d : A)
      → IsIn d xs
      → IsIn d (take n (sort_by by_key xs)) ⊎ (n < length (filter (λ x. leb (key x) (key d)) xs))
  first_or_count n xs d i =
      elim (take_or_count n (sort_by by_key xs) d (sort-Ordered xs) (sort-IsIn by_key xs d i)) [
        | inl j ↦ inl j
        | inr m ↦ inr (subst (λ k. n < k) (sort-count (λ x. leb (key x) (key d)) by_key xs) m)
      ]
