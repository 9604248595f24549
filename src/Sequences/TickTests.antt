-- ===== src/Sequences/TickTests.antt =====
-- A tick at a concrete input.
use listmonk_ops.Sequences.Tick.{TickState, run_sequence_tick}
use listmonk_ops.Sequences.Accounts.{IsAccounted, tick_results, tick-IsAccounted}
use listmonk_ops.Sequences.Tests.{two_enrollments, second_claim, executor, delivering, idle_world}

abbrev before_tick : TickState (Unit {0})
before_tick = record { store = two_enrollments; world = idle_world }

tick-IsAccounted_example :
    IsAccounted second_claim.limit
      (tick_results executor (λ id. delivering) second_claim before_tick)
      (run_sequence_tick executor (λ id. delivering) second_claim before_tick).1
tick-IsAccounted_example = tick-IsAccounted executor (λ id. delivering) second_claim before_tick
