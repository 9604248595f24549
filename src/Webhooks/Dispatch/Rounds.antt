-- ===== src/Webhooks/Dispatch/Rounds.antt =====
-- packages/automation/src/outbound-webhooks.ts, `dispatchOutboundWebhooks`: rounds of claims until the
-- limit is reached or nothing is left. Each round claims a delivery, so that the limit is fuel enough.
use listmonk_ops.Prelude.{
  ℕ, zero, suc, ◌+◌, ◌-◌, min, String, Option, none, some, Bool, false, Result, ok, err,
  if◌then◌else◌, List, [], ◌∷◌, ◌++◌, map, leb, ltb, ◌==◌, ◌&&◌, ◌||◌, not, length,
}
use listmonk_ops.Webhooks.{
  OutboundWebhookDeliveryStatus, OutboundWebhookStore, WebhookError, out_of_range,
  delivery_not_found,
}
use listmonk_ops.Webhooks.Completion.{complete_outbound_webhook_delivery}
use listmonk_ops.Webhooks.Claiming.{
  ClaimOptions, ClaimedOutboundWebhookDelivery, claim_outbound_webhook_deliveries,
}
use listmonk_ops.Webhooks.Dispatch.{
  OutboundWebhookDispatchErrorCode, DeliveryEnvironment, deliver_claimed_webhook,
}

pub data DispatchStatus : Type 0 where
  completed : OutboundWebhookDeliveryStatus → DispatchStatus
  skipped : DispatchStatus

pub record DispatchResultEntry : Type 0 where
  pub delivery_id : String
  pub endpoint_id : String
  pub status : DispatchStatus
  pub status_code : Option ℕ
  pub error_code : Option OutboundWebhookDispatchErrorCode

pub record DispatchOptions : Type 0 where
  pub limit : ℕ
  pub lease_ms : ℕ
  pub base_retry_delay_ms : ℕ
  pub concurrency : ℕ
  pub delivery_ids : Option (List String)
  pub bypass_circuit_breaker : Bool

-- What the rounds do not determine: the texts of `randomUUID`, the times, and the other processes.
pub record DispatchWorld : Type 0 where
  pub uuid : ℕ → ℕ → String
  pub claim_time : ℕ → ℕ
  pub complete_time : ℕ → String → ℕ
  pub before_claim : ℕ → OutboundWebhookStore → OutboundWebhookStore
  pub before_completion : ℕ → OutboundWebhookStore → OutboundWebhookStore

unfoldable pub is_in_range : DispatchOptions → Bool
is_in_range options =
    not (options.limit == 0)
    && leb options.limit 100
    && leb 1_000 options.lease_ms
    && leb 1_000 options.base_retry_delay_ms
    && not (options.concurrency == 0)
    && leb options.concurrency 10

-- Circuits are bypassed for named deliveries only.
abbrev pub names_deliveries : Option (List String) → Bool
names_deliveries none = false
names_deliveries (some ids) = not (length ids == 0)

-- `results.push(...batchResults)` before the results of the other rounds.
abbrev pub with_results :
    List DispatchResultEntry
    → Option (Result WebhookError (List DispatchResultEntry))
    → Option (Result WebhookError (List DispatchResultEntry))
with_results rs none = none
with_results rs (some (err e)) = some (err e)
with_results rs (some (ok more)) = some (ok (rs ++ more))

module _ (truncate : String → String) (env : DeliveryEnvironment) (options : DispatchOptions)
    (world : DispatchWorld) where
  unfoldable pub complete_attempt :
      ℕ
      → ClaimedOutboundWebhookDelivery
      → OutboundWebhookStore
      → OutboundWebhookStore × Result WebhookError DispatchResultEntry
  unfolding complete_outbound_webhook_delivery deliver_claimed_webhook
  complete_attempt round entry store =
      let attempt = deliver_claimed_webhook env entry in
      elim (complete_outbound_webhook_delivery truncate entry.delivery attempt.result entry.endpoint
        (world.complete_time round entry.delivery.id) options.base_retry_delay_ms store) [
          | ok (after, delivery) ↦ (
            after,
            ok (record {
              delivery_id = delivery.id;
              endpoint_id = delivery.endpoint_id;
              status = completed delivery.status;
              status_code = delivery.status_code;
              error_code = attempt.error_code;
            }),
          )
          | err delivery_not_found ↦ (store, err delivery_not_found)
          | err _ ↦ (
            store,
            ok (record {
              delivery_id = entry.delivery.id;
              endpoint_id = entry.delivery.endpoint_id;
              status = skipped;
              status_code = none;
              error_code = some OutboundWebhookDispatchErrorCode.lease_conflict;
            }),
          )
        ]

  -- `Promise.all`: every delivery of the batch is attempted, and one error is the batch's.
  unfoldable pub complete_batch :
      ℕ
      → List ClaimedOutboundWebhookDelivery
      → OutboundWebhookStore
      → OutboundWebhookStore × Result WebhookError (List DispatchResultEntry)
  unfolding complete_attempt
  complete_batch round [] store = (store, ok [])
  complete_batch round (entry ∷ rest) store =
      let (after, result) = complete_attempt round entry store in
      let (final, results) = complete_batch round rest after in
      (
        final,
        elim result [ err e ↦ err e | ok r ↦ elim results [ err e ↦ err e | ok rs ↦ ok (r ∷ rs) ] ],
      )

  abbrev pub round_options : ℕ → ℕ → List String → ClaimOptions
  round_options round count processed = record {
    limit = min options.concurrency (options.limit - count);
    now = world.claim_time round;
    lease_ms = options.lease_ms;
    delivery_ids = options.delivery_ids;
    exclude_delivery_ids = processed;
    bypass_circuit_breaker = options.bypass_circuit_breaker;
  }

  -- The rounds from one on, with the deliveries processed before; without fuel there is no result.
  unfoldable pub dispatch_rounds :
      ℕ
      → ℕ
      → ℕ
      → List String
      → OutboundWebhookStore
      → OutboundWebhookStore × Option (Result WebhookError (List DispatchResultEntry))
  unfolding complete_batch claim_outbound_webhook_deliveries
  dispatch_rounds zero round count processed store =
      (store, if ltb count options.limit then none else some (ok []))
  dispatch_rounds (suc fuel) round count processed store =
      if ltb count options.limit
      then (let (held, claimed) =
            claim_outbound_webhook_deliveries (world.uuid round)
              (round_options round count processed) (world.before_claim round store) in
          if length claimed == 0
          then (held, some (ok []))
          else (let (after, results) =
                complete_batch round claimed (world.before_completion round held) in
              elim results [
                | err e ↦ (after, some (err e))
                | ok rs ↦
                    let (final, rest) =
                      dispatch_rounds fuel (suc round) (count + length claimed)
                        (processed ++ map (λ c. c.delivery.id) claimed) after in
                    (final, with_results rs rest)
              ]))
      else (store, some (ok []))

  unfoldable pub dispatch_outbound_webhooks :
      OutboundWebhookStore
      → OutboundWebhookStore × Option (Result WebhookError (List DispatchResultEntry))
  unfolding dispatch_rounds is_in_range
  dispatch_outbound_webhooks store =
      if not (is_in_range options)
        || (options.bypass_circuit_breaker && not (names_deliveries options.delivery_ids))
      then (store, some (err out_of_range))
      else dispatch_rounds options.limit 0 0 [] store
