-- ===== src/AbTest/SeatTests.antt =====
-- Allocations at concrete inputs, with natural numbers for the doubles that are whole.
use listmonk_ops.Prelude.{
  ℕ, ◌+◌, ◌-◌, ◌*◌, ◌/◌, true, ltb, leb, ◌==◌, ◌∷◌, [], ◌≡◌, refl, arith, ok,
}
use listmonk_ops.AbTest.Allocation.{
  Arithmetic, allocate_by_largest_remainder, allocate_test_and_holdout, allocate_quotas,
}
use listmonk_ops.AbTest.Doubles.{IsDouble}
use listmonk_ops.AbTest.Seats.{IsExact, allocate_by_largest_remainder-IsExact}
use listmonk_ops.AbTest.Division.{IsDivided, allocate_test_and_holdout-IsDivided}

-- A quotient is rounded down at once.
abbrev whole : Arithmetic ℕ
whole = record {
  number = λ n. n;
  add = λ a b. a + b;
  sub = λ a b. a - b;
  mul = λ a b. a * b;
  div = λ a b. a / b;
  floor = λ a. a;
  is_finite = λ a. true;
  is_integer = λ a. true;
  less = ltb;
  at_most = leb;
  equal = λ a b. a == b;
}

whole-IsDouble : IsDouble whole
whole-IsDouble = record {
  add_safe = λ a b h. refl;
  sub_safe = λ a b le h. refl;
  mul_safe = λ a b h. refl;
  floor_safe = λ a b h p k. refl;
  finite_safe = λ a h. refl;
  integer_safe = λ a h. refl;
  less_safe = λ a b h k. refl;
  at_most_safe = λ a b h k. refl;
  equal_safe = λ a b h k. refl;
}

-- Ten recipients for three variants of one weight.
allocates :
    allocate_by_largest_remainder whole record { total = 10; weights = 1 ∷ 1 ∷ 1 ∷ [] }
    ≡ ok record { counts = 4 ∷ 3 ∷ 3 ∷ []; total = 10 }
unfolding allocate_by_largest_remainder allocate_quotas
allocates = refl

allocate_by_largest_remainder-IsExact_example :
    IsExact whole 10 3
      (allocate_by_largest_remainder whole record { total = 10; weights = 1 ∷ 1 ∷ 1 ∷ [] })
allocate_by_largest_remainder-IsExact_example =
    allocate_by_largest_remainder-IsExact whole whole-IsDouble 10 (1 ∷ 1 ∷ 1 ∷ [])
      (omega arith, (omega arith, (omega arith, (omega arith, tt)))) (omega arith) (omega arith)

allocate_test_and_holdout-IsDivided_example :
    IsDivided whole 7 (allocate_test_and_holdout whole 7 30)
allocate_test_and_holdout-IsDivided_example =
    allocate_test_and_holdout-IsDivided whole whole-IsDouble 7 30 (omega arith) (omega arith)
