-- ===== src/Webhooks/Leasing.antt =====
-- Claims: a delivery has one worker until its lease ends, and an open circuit holds it back.
use listmonk_ops.Prelude.{
  ℕ, suc, ◌+◌, ◌<◌, ◌≤◌, String, none, some, true, false, List, [], ◌∷◌, filter, sort_by, leb, ◌≡◌,
  ◌≢◌, ◌⊎◌, refl, arith, All, IsIn, Option-cases, inl, inr, All-imp, All-IsIn, All-self, filtered,
  sort-All, take-All,
}
use listmonk_ops.Webhooks.{
  OutboundWebhookDelivery, OutboundWebhookStore, OutboundWebhookEndpointRuntime, delivering,
  is_delivering, is_terminal, map_get, replace_deliveries,
}
use listmonk_ops.Webhooks.Claiming.{
  ClaimOptions, is_claimable, is_due, is_after, circuit_open_until_of, claimable_deliveries,
  leased_delivery, leased_deliveries, claimed_by_id, claim_outbound_webhook_deliveries,
}
use listmonk_ops.Webhooks.Keys.{find-passes, map_of-All}

-- What holds of each claimable delivery with any token of the supply holds of each lease.
leased-All {κ} :
    (P : OutboundWebhookDelivery → Type κ) (uuid : ℕ → String) (n : ℕ) (options : ClaimOptions)
    (ds : List OutboundWebhookDelivery)
    → All (λ d. (m : ℕ) → P (leased_delivery options (uuid m) d)) ds
    → All P (leased_deliveries uuid n options ds)
unfolding leased_deliveries
leased-All P uuid n options [] h = tt
leased-All P uuid n options (d ∷ ds) h = (h.0 n, leased-All P uuid (suc n) options ds h.1)

-- What holds of the deliveries that are claimable holds of those that are taken.
claimable-All {κ} :
    (P : OutboundWebhookDelivery → Type κ) (options : ClaimOptions) (current : OutboundWebhookStore)
    → ((d : OutboundWebhookDelivery)
        → IsIn d current.deliveries
        → is_claimable current.endpoint_runtime options d ≡ true
        → P d)
    → All P (claimable_deliveries options current)
unfolding claimable_deliveries
claimable-All P options current f =
    let before = λ (a b : OutboundWebhookDelivery). leb a.next_attempt_at b.next_attempt_at in
    let p = is_claimable current.endpoint_runtime options in
    let found = filter p current.deliveries in
    let passes : All P found =
      All-imp (λ d. IsIn d current.deliveries × (p d ≡ true)) P found (λ d h. f d h.0 h.1)
        (filtered p current.deliveries) in
    take-All P options.limit (sort_by before found) (sort-All P before found passes)

pub claimed-All {κ} :
    (P : OutboundWebhookDelivery → Type κ) (uuid : ℕ → String) (options : ClaimOptions)
    (current : OutboundWebhookStore)
    → ((d : OutboundWebhookDelivery)
        → IsIn d current.deliveries
        → is_claimable current.endpoint_runtime options d ≡ true
        → (m : ℕ) → P (leased_delivery options (uuid m) d))
    → All P (claimed_by_id uuid options current)
unfolding claimed_by_id
claimed-All P uuid options current f =
    map_of-All P [] (leased_deliveries uuid 0 options (claimable_deliveries options current)) tt (
      leased-All P uuid 0 options (claimable_deliveries options current)
        (claimable-All (λ d. (m : ℕ) → P (leased_delivery options (uuid m) d)) options current f))

-- The replaced deliveries: each is a replacement, or its identifier has none.
pub replaced-All {κ} :
    (P : OutboundWebhookDelivery → Type κ) (rs ds : List OutboundWebhookDelivery)
    → All P rs
    → All (λ d. map_get rs d.id ≡ none → P d) ds
    → All P (replace_deliveries rs ds)
unfolding replace_deliveries
replaced-All P rs [] h k = tt
replaced-All P rs (d ∷ ds) h k = elim (Option-cases (map_get rs d.id)) [
  | inl n ↦ rw (n, replace_deliveries) (k.0 n, replaced-All P rs ds h k.1)
  | inr (v, e) ↦
      rw (e, replace_deliveries) ((find-passes P d.id rs v h e).0, replaced-All P rs ds h k.1)
]

find_none :
    (id : String) (ds : List OutboundWebhookDelivery)
    → map_get ds id ≡ none
    → All (λ d. d.id ≢ id) ds
find_none id [] e = tt
find_none id (d ∷ ds) e = (ground arith, find_none id ds (ground arith))

-- No worker has the delivery: it waits and its time has come, or its lease is over.
abbrev pub IsFree : ℕ → OutboundWebhookDelivery → Type 0
IsFree now d =
    ((is_delivering d.status ≡ false) × (is_terminal d.status ≡ false) × (d.next_attempt_at ≤ now))
    ⊎ ((d.status ≡ delivering) × ((t : ℕ) × (d.lease_expires_at ≡ some t) × (t ≤ now)))

pub due_IsFree : (now : ℕ) (d : OutboundWebhookDelivery) → is_due d now ≡ true → IsFree now d
due_IsFree now d h = ground arith

pub claimable_due :
    (runtimes : List OutboundWebhookEndpointRuntime) (options : ClaimOptions)
    (d : OutboundWebhookDelivery)
    → is_claimable runtimes options d ≡ true
    → (is_due d options.now ≡ true)
      × ((options.bypass_circuit_breaker ≡ true)
          ⊎ (is_after (circuit_open_until_of runtimes d.endpoint_id) options.now ≡ false))
unfolding is_claimable
claimable_due runtimes options d h = ground arith

module _ (uuid : ℕ → String) (options : ClaimOptions) (current : OutboundWebhookStore) where
  -- A delivery that was not claimed, or that is leased until the end of the claim.
  IsLeasedOrLeft : OutboundWebhookDelivery → Type 0
  IsLeasedOrLeft d =
      (map_get (claimed_by_id uuid options current) d.id ≡ none)
      ⊎ ((d.status ≡ delivering) × (d.lease_expires_at ≡ some (options.now + options.lease_ms)))

  after-IsLeasedOrLeft :
      All IsLeasedOrLeft (claim_outbound_webhook_deliveries uuid options current).0.deliveries
  unfolding claim_outbound_webhook_deliveries IsLeasedOrLeft
  after-IsLeasedOrLeft =
      replaced-All IsLeasedOrLeft (claimed_by_id uuid options current) current.deliveries
        (claimed-All IsLeasedOrLeft uuid options current (λ d i c m. inr (refl, refl)))
        (All-imp (λ d. IsIn d current.deliveries)
          (λ d. map_get (claimed_by_id uuid options current) d.id ≡ none → IsLeasedOrLeft d)
          current.deliveries (λ d i n. inl n) (All-self current.deliveries))

  left_only :
      (now : ℕ)
      → now < options.now + options.lease_ms
      → (d : OutboundWebhookDelivery) → IsLeasedOrLeft d
      → IsFree now d
      → All (λ x. x.id ≢ d.id) (claimed_by_id uuid options current)
  unfolding IsLeasedOrLeft
  left_only now early d (inl n) free = find_none d.id (claimed_by_id uuid options current) n
  left_only now early d (inr (st, lease)) (inl (f, g, h)) = absurd (ground arith)
  left_only now early d (inr (st, lease)) (inr (f, (t, g, h))) = absurd (ground arith)

-- Between two claims of which the second comes before the leases of the first end, no delivery is
-- given to two workers, whatever the second asks for.
pub claim-claim :
    (uuid uuid' : ℕ → String) (options options' : ClaimOptions) (current : OutboundWebhookStore)
    → options'.now < options.now + options.lease_ms
    → All
        (λ later. All (λ d. d.id ≢ later.id) (claimed_by_id uuid options current))
        (claimed_by_id uuid' options' (claim_outbound_webhook_deliveries uuid options current).0)
claim-claim uuid uuid' options options' current early =
    let claimed = claimed_by_id uuid options current in
    claimed-All (λ later. All (λ d. d.id ≢ later.id) claimed) uuid' options'
      (claim_outbound_webhook_deliveries uuid options current).0
      (λ d i c m.
        left_only uuid options current options'.now early d
          (All-IsIn (IsLeasedOrLeft uuid options current)
            (claim_outbound_webhook_deliveries uuid options current).0.deliveries d
            (after-IsLeasedOrLeft uuid options current) i)
          (due_IsFree options'.now d
            (claimable_due
              (claim_outbound_webhook_deliveries uuid options current).0.endpoint_runtime options' d
              c).0))

-- A lease of a delivery of the store that no worker had, and whose circuit lets it pass.
abbrev pub IsLeaseOf :
    ClaimOptions → OutboundWebhookStore → OutboundWebhookDelivery → OutboundWebhookDelivery → Type 0
IsLeaseOf options current leased d =
    IsIn d current.deliveries
    × IsFree options.now d
    × ((options.bypass_circuit_breaker ≡ true)
        ⊎ (is_after (circuit_open_until_of current.endpoint_runtime d.endpoint_id) options.now
            ≡ false))
    × (leased.id ≡ d.id)
    × (leased.attempt_count ≡ d.attempt_count + 1)

-- Each claimed delivery is the lease of a delivery of the store that was waiting with its time come,
-- or whose lease was over; unless the circuit is bypassed, no open circuit of its endpoint lasts
-- beyond the claim. The lease counts one attempt more.
pub claim-IsLeaseOf :
    (uuid : ℕ → String) (options : ClaimOptions) (current : OutboundWebhookStore)
    → All
        (λ leased. (d : OutboundWebhookDelivery) × IsLeaseOf options current leased d)
        (claimed_by_id uuid options current)
claim-IsLeaseOf uuid options current =
    claimed-All (λ leased. (d : OutboundWebhookDelivery) × IsLeaseOf options current leased d) uuid
      options current
      (λ d i c m.
        let (due, passes) = claimable_due current.endpoint_runtime options d c in
        (d, (i, due_IsFree options.now d due, passes, refl, refl)))
