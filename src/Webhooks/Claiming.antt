-- ===== src/Webhooks/Claiming.antt =====
-- packages/automation/src/outbound-webhooks.ts: leasing the deliveries that are due to a worker.
use listmonk_ops.Prelude.{
  ℕ, suc, ◌+◌, String, Option, none, some, Bool, false, if◌then◌else◌, List, [], ◌∷◌, same, leb,
  ltb, ◌&&◌, ◌||◌, not, filter, map, take, sort_by,
}
use listmonk_ops.Webhooks.{
  OutboundWebhookEndpoint, OutboundWebhookDelivery, OutboundWebhookStore,
  OutboundWebhookEndpointRuntime, pending, delivering, retry, map_of, replace_deliveries,
}
use listmonk_ops.Webhooks.Runtime.{is_closed}
use listmonk_ops.Webhooks.Queue.{has, is_selected}

pub record ClaimOptions : Type 0 where
  pub limit : ℕ
  pub now : ℕ
  pub lease_ms : ℕ
  pub delivery_ids : Option (List String)
  pub exclude_delivery_ids : List String
  pub bypass_circuit_breaker : Bool

pub record ClaimedOutboundWebhookDelivery : Type 0 where
  pub delivery : OutboundWebhookDelivery
  pub endpoint : Option OutboundWebhookEndpoint

-- The end of an open circuit; the last entry of an endpoint counts, as in `new Map(entries)`.
unfoldable pub circuit_open_until_of : List OutboundWebhookEndpointRuntime → String → Option ℕ
circuit_open_until_of [] id = none
circuit_open_until_of (r ∷ rest) id = elim (circuit_open_until_of rest id) [
  | some t ↦ some t
  | none ↦
      if same r.endpoint_id id && not (is_closed r.circuit_state)
      then r.circuit_open_until
      else none
]

-- `circuitOpenUntil !== undefined && circuitOpenUntil > at`.
abbrev pub is_after : Option ℕ → ℕ → Bool
is_after none at = false
is_after (some t) at = ltb at t

-- `leaseExpiresAt !== undefined && leaseExpiresAt <= at`.
abbrev pub is_expired : Option ℕ → ℕ → Bool
is_expired none at = false
is_expired (some t) at = leb t at

abbrev pub is_due : OutboundWebhookDelivery → ℕ → Bool
is_due d at = elim d.status [
  | delivering ↦ is_expired d.lease_expires_at at
  | pending ↦ leb d.next_attempt_at at
  | retry ↦ leb d.next_attempt_at at
  | _ ↦ false
]

unfoldable pub is_claimable :
    List OutboundWebhookEndpointRuntime → ClaimOptions → OutboundWebhookDelivery → Bool
unfolding circuit_open_until_of
is_claimable runtimes options d =
    (options.bypass_circuit_breaker
      || not (is_after (circuit_open_until_of runtimes d.endpoint_id) options.now))
    && not (has options.exclude_delivery_ids d.id)
    && is_selected options.delivery_ids d.id
    && is_due d options.now

unfoldable pub claimable_deliveries :
    ClaimOptions → OutboundWebhookStore → List OutboundWebhookDelivery
unfolding is_claimable
claimable_deliveries options current = take options.limit (
    sort_by (λ a b. leb a.next_attempt_at b.next_attempt_at)
      (filter (is_claimable current.endpoint_runtime options) current.deliveries))

abbrev pub leased_delivery :
    ClaimOptions → String → OutboundWebhookDelivery → OutboundWebhookDelivery
leased_delivery options token d = record d {
  status = delivering;
  attempt_count = d.attempt_count + 1;
  last_attempt_at = some options.now;
  lease_token = some token;
  lease_expires_at = some (options.now + options.lease_ms);
}

-- A supply of texts, read from a place on, stands for `randomUUID`.
unfoldable pub leased_deliveries :
    (ℕ → String) → ℕ → ClaimOptions → List OutboundWebhookDelivery → List OutboundWebhookDelivery
leased_deliveries uuid n options [] = []
leased_deliveries uuid n options (d ∷ rest) =
    leased_delivery options (uuid n) d ∷ leased_deliveries uuid (suc n) options rest

-- `endpointById.get`: the last endpoint of an identifier.
unfoldable pub endpoint_by_id :
    List OutboundWebhookEndpoint → String → Option OutboundWebhookEndpoint
endpoint_by_id [] id = none
endpoint_by_id (e ∷ rest) id = elim (endpoint_by_id rest id) [
  | some found ↦ some found
  | none ↦ if same e.id id then some e else none
]

unfoldable pub claimed_by_id :
    (ℕ → String) → ClaimOptions → OutboundWebhookStore → List OutboundWebhookDelivery
unfolding claimable_deliveries leased_deliveries map_of
claimed_by_id uuid options current =
    map_of [] (leased_deliveries uuid 0 options (claimable_deliveries options current))

unfoldable pub claim_outbound_webhook_deliveries :
    (ℕ → String)
    → ClaimOptions
    → OutboundWebhookStore
    → OutboundWebhookStore × List ClaimedOutboundWebhookDelivery
unfolding claimed_by_id replace_deliveries endpoint_by_id
claim_outbound_webhook_deliveries uuid options current =
    let claimed = claimed_by_id uuid options current in
    (
      record current { deliveries = replace_deliveries claimed current.deliveries },
      map (λ d. record { delivery = d; endpoint = endpoint_by_id current.endpoints d.endpoint_id })
          claimed,
    )
