-- ===== src/Idempotency/Sweep.antt =====
-- What the sweep of expired records leaves: every record that is still live, and no other.
use listmonk_ops.Prelude.{
  ℕ, ◌≤◌, String, Option, none, some, ◌≡◌, refl, if◌then◌else◌, [], ◌∷◌, leb, length, arith,
}
use listmonk_ops.Idempotency.{Document, TransactionalSendRecord, sweep_expired_records}
use listmonk_ops.Idempotency.Records.{get_own_record, Distinct}

-- The record if it has not expired at `now`.
abbrev pub live : ℕ → Option TransactionalSendRecord → Option TransactionalSendRecord
live now none = none
live now (some r) = if leb now r.expires_at then some r else none

pub live-live :
    (now later : ℕ) (o : Option TransactionalSendRecord)
    → now ≤ later
    → live later (live now o) ≡ live later o
live-live now later none h = refl
live-live now later (some r) h = ground arith

pub get-sweep :
    (d : Document) (now : ℕ) (k : String)
    → Distinct d
    → get_own_record (sweep_expired_records d now) k ≡ live now (get_own_record d k)
unfolding get_own_record sweep_expired_records
get-sweep [] now k h = refl
get-sweep ((i, r) ∷ rest) now k h = ground (arith, get-sweep rest now k h.1)

pub sweep-Distinct : (d : Document) (now : ℕ) → Distinct d → Distinct (sweep_expired_records d now)
unfolding sweep_expired_records
sweep-Distinct [] now h = tt
sweep-Distinct ((i, r) ∷ rest) now h =
    ground (arith, sweep-Distinct rest now h.1, get-sweep rest now i h.1)

pub length-sweep-le : (d : Document) (now : ℕ) → length (sweep_expired_records d now) ≤ length d
unfolding sweep_expired_records
length-sweep-le [] now = omega arith
length-sweep-le ((i, r) ∷ rest) now = ground (arith, length-sweep-le rest now)
