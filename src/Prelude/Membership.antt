-- ===== src/Prelude/Membership.antt =====
-- Sorting by a test, membership, and lists without repetition.
use Prim.Native.Nat.{ℕ, zero, suc}
use mathlib.Core.Path.{◌≡◌, refl, sym, ap, subst, ◌∙◌}
use mathlib.Core.Logic.{◌≢◌, ◌↔◌, inl, inr}
use mathlib.Core.Bool.{Bool, true, false}
use mathlib.Core.List.{List, [], ◌∷◌, ◌++◌, map}
use Prim.Native.String.{String}
use native.Mathlib.Omega.{arith}
use listmonk_ops.Prelude.Tests.{if◌then◌else◌, Bool-cases, same}
use listmonk_ops.Prelude.Lists.{
  length, take, filter, any, All, IsIn, All-both, both-All, both-append,
}

module _ {ℓ} {A : Type ℓ} where
  -- `Array.prototype.sort` with a comparison, which is stable: `before` is `compare(a, b) <= 0`.
  abbrev pub insert_by : (A → A → Bool) → A → List A → List A
  insert_by before x [] = x ∷ []
  insert_by before x (y ∷ ys) = if before x y then x ∷ y ∷ ys else y ∷ insert_by before x ys

  abbrev pub sort_by : (A → A → Bool) → List A → List A
  sort_by before [] = []
  sort_by before (x ∷ xs) = insert_by before x (sort_by before xs)

  length-insert_by :
      (before : A → A → Bool) (x : A) (xs : List A)
      → length (insert_by before x xs) ≡ suc (length xs)
  length-insert_by before x [] = refl
  length-insert_by before x (y ∷ ys) = elim (Bool-cases (before x y)) [
    | inl b ↦ rw b refl
    | inr b ↦ rw b (ap suc (length-insert_by before x ys))
  ]

  pub length-sort_by :
      (before : A → A → Bool) (xs : List A) → length (sort_by before xs) ≡ length xs
  length-sort_by before [] = refl
  length-sort_by before (x ∷ xs) =
      length-insert_by before x (sort_by before xs) ∙ ap suc (length-sort_by before xs)

  abbrev pub Distinct : List A → Type ℓ
  Distinct [] = Unit
  Distinct (x ∷ xs) = All (λ y. x ≢ y) xs × Distinct xs

module _ {ℓ κ} {A : Type ℓ} (P : A → Type κ) where
  pub insert-All :
      (before : A → A → Bool) (x : A) (xs : List A) → P x → All P xs → All P (insert_by before x xs)
  insert-All before x [] p h = (p, tt)
  insert-All before x (y ∷ ys) p h = elim (Bool-cases (before x y)) [
    | inl b ↦ rw b (p, h)
    | inr b ↦ rw b (h.0, insert-All before x ys p h.1)
  ]

  pub sort-All : (before : A → A → Bool) (xs : List A) → All P xs → All P (sort_by before xs)
  sort-All before [] h = tt
  sort-All before (x ∷ xs) h = insert-All before x (sort_by before xs) h.0 (sort-All before xs h.1)

  pub take-All : (n : ℕ) (xs : List A) → All P xs → All P (take n xs)
  take-All zero xs h = tt
  take-All (suc n) [] h = tt
  take-All (suc n) (x ∷ xs) h = (h.0, take-All n xs h.1)

  pub filter-All : (p : A → Bool) (xs : List A) → All P xs → All P (filter p xs)
  filter-All p [] h = tt
  filter-All p (x ∷ xs) h = elim (Bool-cases (p x)) [
    | inl b ↦ rw b (h.0, filter-All p xs h.1)
    | inr b ↦ rw b (filter-All p xs h.1)
  ]

module _ {ℓ} {A : Type ℓ} (p : A → Bool) where
  pub filter_passes : (xs : List A) → All (λ x. p x ≡ true) (filter p xs)
  filter_passes [] = tt
  filter_passes (x ∷ xs) = elim (Bool-cases (p x)) [
    | inl b ↦ rw b (b, filter_passes xs)
    | inr b ↦ rw b (filter_passes xs)
  ]

module _ {A : Type 0} where
  pub All-IsIn {κ} : (P : A → Type κ) (xs : List A) (x : A) → All P xs → IsIn x xs → P x
  All-IsIn P [] x h i = absurd i
  All-IsIn P (y ∷ ys) x h (inl e) = subst P (sym e) h.0
  All-IsIn P (y ∷ ys) x h (inr i) = All-IsIn P ys x h.1 i

  IsIn-weaken : (ys xs : List A) (y : A) → All (λ x. IsIn x ys) xs → All (λ x. IsIn x (y ∷ ys)) xs
  IsIn-weaken ys [] y h = tt
  IsIn-weaken ys (x ∷ xs) y h = (inr h.0, IsIn-weaken ys xs y h.1)

  pub All-self : (xs : List A) → All (λ x. IsIn x xs) xs
  All-self [] = tt
  All-self (x ∷ xs) = (inl refl, IsIn-weaken xs xs x (All-self xs))

  pub filtered : (p : A → Bool) (xs : List A) → All (λ x. IsIn x xs × (p x ≡ true)) (filter p xs)
  filtered p xs =
      both-All (λ x. IsIn x xs) (λ x. p x ≡ true) (filter p xs)
        (filter-All (λ x. IsIn x xs) p xs (All-self xs)) (filter_passes p xs)

  pub filter_keeps :
      (p : A → Bool) (xs : List A) (x : A) → p x ≡ true → IsIn x xs → IsIn x (filter p xs)
  filter_keeps p [] x e i = i
  filter_keeps p (y ∷ ys) x e (inl q) = rw (sym (ap p q) ∙ e) (inl q)
  filter_keeps p (y ∷ ys) x e (inr i) = elim (Bool-cases (p y)) [
    | inl b ↦ rw b (inr (filter_keeps p ys x e i))
    | inr b ↦ rw b (filter_keeps p ys x e i)
  ]

  pub IsIn-left : (xs ys : List A) (x : A) → IsIn x xs → IsIn x (xs ++ ys)
  IsIn-left [] ys x i = absurd i
  IsIn-left (z ∷ zs) ys x (inl e) = inl e
  IsIn-left (z ∷ zs) ys x (inr i) = inr (IsIn-left zs ys x i)

  pub IsIn-right : (xs ys : List A) (x : A) → IsIn x ys → IsIn x (xs ++ ys)
  IsIn-right [] ys x i = i
  IsIn-right (z ∷ zs) ys x i = inr (IsIn-right zs ys x i)

-- Lists told apart by a key.
module _ {ℓ κ} {A : Type ℓ} {K : Type κ} (key : A → K) where
  pub All-map {ν} : (P : K → Type ν) (xs : List A) → All (λ x. P (key x)) xs → All P (map key xs)
  All-map P [] h = tt
  All-map P (x ∷ xs) h = (h.0, All-map P xs h.1)

  pub map-All {ν} : (P : K → Type ν) (xs : List A) → All P (map key xs) → All (λ x. P (key x)) xs
  map-All P [] h = tt
  map-All P (x ∷ xs) h = (h.0, map-All P xs h.1)

  pub filter-Distinct :
      (p : A → Bool) (xs : List A) → Distinct (map key xs) → Distinct (map key (filter p xs))
  filter-Distinct p [] h = tt
  filter-Distinct p (x ∷ xs) h = elim (Bool-cases (p x)) [
    | inl b ↦ rw b (
      All-map (λ y. key x ≢ y) (filter p xs)
          (filter-All (λ y. key x ≢ key y) p xs (map-All (λ y. key x ≢ y) xs h.0)),
      filter-Distinct p xs h.1,
    )
    | inr b ↦ rw b (filter-Distinct p xs h.1)
  ]

  pub append-Distinct :
      (xs ys : List A)
      → Distinct (map key xs)
      → Distinct (map key ys)
      → All (λ y. All (λ x. key x ≢ key y) xs) ys
      → Distinct (map key (xs ++ ys))
  append-Distinct [] ys h k m = k
  append-Distinct (x ∷ xs) ys h k m =
      let (p, q) = All-both (λ y. key x ≢ key y) (λ y. All (λ z. key z ≢ key y) xs) ys m in
      (
        All-map (λ s. key x ≢ s) (xs ++ ys)
            (both-append (λ y. key x ≢ key y) xs ys (map-All (λ s. key x ≢ s) xs h.0) p),
        append-Distinct xs ys h.1 k q,
      )

-- A text is not among the texts.
pub any-same_iff :
    (texts : List String) (s : String)
    → (any (λ t. same t s) texts ≡ false) ↔ All (λ t. t ≢ s) texts
any-same_iff [] s = (λ e. tt, λ a. refl)
any-same_iff (t ∷ texts) s =
    let (to, from) = any-same_iff texts s in
    (λ e. (ground arith, to (ground arith)), λ a. ground (arith, from a.1))
