-- ===== src/Webhooks/Dispatch/Batches.antt =====
-- The results of a batch are those of its claims.
use listmonk_ops.Prelude.{
  ℕ, String, Option, err, AfterOk, AfterOk-ok, List, [], ◌∷◌, map, ◌&&◌, same, ◌≡◌, refl,
  Bool-cases, Option-cases, Result-cases, inl, inr, find, All-self, IsIn,
}
use listmonk_ops.Webhooks.{
  OutboundWebhookDelivery, OutboundWebhookStore, OutboundWebhookEndpoint, WebhookError,
  delivery_not_found, endpoint_not_found, conflict, endpoint_unavailable, delivery_state_conflict,
  lease_conflict, out_of_range, invalid_endpoint, is_delivering,
}
use listmonk_ops.Webhooks.Completion.{
  DeliveryResult, complete_outbound_webhook_delivery, completed_delivery, same_token,
}
use listmonk_ops.Webhooks.Claiming.{ClaimedOutboundWebhookDelivery}
use listmonk_ops.Webhooks.Keys.{find-passes, cons_both}
use listmonk_ops.Webhooks.Dispatch.{DeliveryEnvironment, deliver_claimed_webhook}
use listmonk_ops.Webhooks.Dispatch.Rounds.{
  DispatchResultEntry, DispatchOptions, DispatchWorld, complete_attempt, complete_batch,
}
use listmonk_ops.Webhooks.Dispatch.Claims.{claim_ids}

abbrev pub entry_ids : List DispatchResultEntry → List String
entry_ids rs = map (λ r. r.delivery_id) rs

module _ (truncate : String → String) (env : DeliveryEnvironment) (options : DispatchOptions)
    (world : DispatchWorld) where
  -- A completed delivery has the identifier of the claim.
  complete_id :
      (claimed : OutboundWebhookDelivery) (result : DeliveryResult)
      (endpoint : Option OutboundWebhookEndpoint) (now base : ℕ) (store : OutboundWebhookStore)
      → AfterOk
          (λ p. p.1.id ≡ claimed.id)
          (complete_outbound_webhook_delivery truncate claimed result endpoint now base store)
  unfolding complete_outbound_webhook_delivery completed_delivery
  complete_id claimed result endpoint now base store =
      elim (Option-cases (find (λ d. same d.id claimed.id) store.deliveries)) [
        | inl n ↦ rw (n, complete_outbound_webhook_delivery) tt
        | inr (latest, f) ↦
            elim (Bool-cases
              (is_delivering latest.status && same_token latest.lease_token claimed.lease_token)) [
                | inl b ↦
                    rw (f, b, complete_outbound_webhook_delivery)
                      (find-passes (λ d. IsIn d store.deliveries) claimed.id store.deliveries latest
                        (All-self store.deliveries) f).1
                | inr b ↦ rw (f, b, complete_outbound_webhook_delivery) tt
              ]
      ]

  attempt_id :
      (round : ℕ) (entry : ClaimedOutboundWebhookDelivery) (store : OutboundWebhookStore)
      → AfterOk
          (λ r. r.delivery_id ≡ entry.delivery.id)
          (complete_attempt truncate env options world round entry store).1
  unfolding complete_attempt
  attempt_id round entry store =
      let attempt = deliver_claimed_webhook env entry in
      let now = world.complete_time round entry.delivery.id in
      let r =
        complete_outbound_webhook_delivery truncate entry.delivery attempt.result entry.endpoint now
          options.base_retry_delay_ms store in
      elim (Result-cases r) [
        | inl (e, h) ↦ refused e h
        | inr (done, h) ↦
            rw (h, complete_attempt)
              (AfterOk-ok (λ p. p.1.id ≡ entry.delivery.id) r done
                (complete_id entry.delivery attempt.result entry.endpoint now
                  options.base_retry_delay_ms store)
                h)
      ]
    where
      refused :
          (e : WebhookError)
          → complete_outbound_webhook_delivery truncate entry.delivery
              (deliver_claimed_webhook env entry).result
              entry.endpoint
              (world.complete_time round entry.delivery.id)
              options.base_retry_delay_ms
              store
            ≡ err e
          → AfterOk
              (λ r. r.delivery_id ≡ entry.delivery.id)
              (complete_attempt truncate env options world round entry store).1
      refused delivery_not_found h = rw (h, complete_attempt) tt
      refused endpoint_not_found h = rw (h, complete_attempt) refl
      refused conflict h = rw (h, complete_attempt) refl
      refused endpoint_unavailable h = rw (h, complete_attempt) refl
      refused delivery_state_conflict h = rw (h, complete_attempt) refl
      refused lease_conflict h = rw (h, complete_attempt) refl
      refused out_of_range h = rw (h, complete_attempt) refl
      refused invalid_endpoint h = rw (h, complete_attempt) refl

  pub batch_ids :
      (round : ℕ) (cs : List ClaimedOutboundWebhookDelivery) (store : OutboundWebhookStore)
      → AfterOk
          (λ rs. entry_ids rs ≡ claim_ids cs)
          (complete_batch truncate env options world round cs store).1
  unfolding complete_batch
  batch_ids round [] store = refl
  batch_ids round (c ∷ cs) store =
      let (after, result) = complete_attempt truncate env options world round c store in
      let rest = complete_batch truncate env options world round cs after in
      elim (Result-cases result) [
        | inl (e, h) ↦ rw (h, complete_batch) tt
        | inr (r, h) ↦ elim (Result-cases rest.1) [
          | inl (e, k) ↦ rw (h, k, complete_batch) tt
          | inr (rs, k) ↦
              rw (h, k, complete_batch)
                (cons_both
                  (AfterOk-ok (λ r. r.delivery_id ≡ c.delivery.id) result r
                    (attempt_id round c store) h)
                  (AfterOk-ok (λ rs. entry_ids rs ≡ claim_ids cs) rest.1 rs
                    (batch_ids round cs after) k))
        ]
      ]
