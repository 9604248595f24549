-- ===== src/JsonStore/Tests.antt =====
-- Schedules of the lock file.
use listmonk_ops.Prelude.{ℕ, true, List, [], ◌∷◌, ◌≡◌, refl, arith}
use listmonk_ops.JsonStore.Locking.{holds_lock, Event, advance, crash, happens, unlocked, is_alive}
use listmonk_ops.JsonStore.Exclusion.{AreCareful, lock_excludes}

-- Each acquisition is in a process of its own.
abbrev own_process : ℕ → ℕ
own_process a = a

-- The holder of the lock dies, and another acquisition recovers the lock and takes it.
abbrev recovery_schedule : List Event
recovery_schedule =
    advance 1
    ∷ crash 1
    ∷ advance 2
    ∷ advance 2
    ∷ advance 2
    ∷ advance 2
    ∷ advance 2
    ∷ advance 2
    ∷ advance 2
    ∷ advance 2
    ∷ []

recovers : (happens own_process unlocked recovery_schedule).phase 2 ≡ holds_lock
unfolding happens
recovers = refl

recovers_alive : is_alive own_process (happens own_process unlocked recovery_schedule) 2 ≡ true
unfolding happens
recovers_alive = refl

recovery_schedule-AreCareful : AreCareful own_process unlocked recovery_schedule
unfolding happens
recovery_schedule-AreCareful =
    (tt, ((λ r e. absurd (ground arith)), (tt, (tt, (tt, (tt, (tt, (tt, (tt, (tt, tt))))))))))

lock_excludes_example : ◌≡◌ {A = ℕ} 2 2
lock_excludes_example =
    lock_excludes own_process recovery_schedule 2 2 recovery_schedule-AreCareful recovers recovers
      recovers_alive recovers_alive

-- The acquisition 1 dies with the lock and 2 with the sentinel. Then 3 and 4 both find 2 dead; 3 removes
-- its sentinel, takes its own, and 4 removes that one. Both recover the lock: 4 removes it, 5 takes it,
-- and 3 removes the lock of 5, so that 6 takes it too.
abbrev crashed_recovery : List Event
crashed_recovery =
    advance 1
    ∷ crash 1
    ∷ advance 2
    ∷ advance 2
    ∷ crash 2
    ∷ advance 3
    ∷ advance 3
    ∷ advance 3
    ∷ advance 3
    ∷ advance 4
    ∷ advance 4
    ∷ advance 4
    ∷ advance 4
    ∷ advance 3
    ∷ advance 3
    ∷ advance 3
    ∷ advance 3
    ∷ advance 3
    ∷ advance 4
    ∷ advance 4
    ∷ advance 4
    ∷ advance 4
    ∷ advance 4
    ∷ advance 4
    ∷ advance 5
    ∷ advance 3
    ∷ advance 6
    ∷ []

two_holders :
    ((happens own_process unlocked crashed_recovery).phase 5 ≡ holds_lock)
    × ((happens own_process unlocked crashed_recovery).phase 6 ≡ holds_lock)
    × (is_alive own_process (happens own_process unlocked crashed_recovery) 5 ≡ true)
    × (is_alive own_process (happens own_process unlocked crashed_recovery) 6 ≡ true)
unfolding happens
two_holders = (refl, refl, refl, refl)
