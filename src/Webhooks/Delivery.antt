-- ===== src/Webhooks/Delivery.antt =====
-- Completing a delivery: a lease is completed once, and a retry waits a bounded time.
use listmonk_ops.Prelude.{
  ℕ, String, Option, some, false, Result, ok, err, List, [], ◌∷◌, same, ◌&&◌, find, ◌≡◌, refl, sym,
  ap, ◌∙◌, arith, Bool-cases, Option-cases, inl, inr,
}
use listmonk_ops.Webhooks.{
  OutboundWebhookDelivery, OutboundWebhookEndpoint, OutboundWebhookStore, WebhookError,
  lease_conflict, is_delivering, put_delivery,
}
use listmonk_ops.Webhooks.Completion.{
  DeliveryResult, same_token, completed_status, completed_delivery,
  complete_outbound_webhook_delivery,
}

find-put_delivery :
    (id : String) (v d : OutboundWebhookDelivery) (ds : List OutboundWebhookDelivery)
    → find (λ x. same x.id id) ds ≡ some d
    → v.id ≡ d.id
    → find (λ x. same x.id id) (put_delivery id v ds) ≡ some v
unfolding put_delivery
find-put_delivery id v d [] h e = absurd (ground arith)
find-put_delivery id v d (x ∷ rest) h e = elim (Bool-cases (same x.id id)) [
  | inl b ↦
      let is_x : x ≡ d = ground arith in
      rw (b, put_delivery) (rw (ap (λ k. same k id) (e ∙ ap (λ y. y.id) (sym is_x)) ∙ b) refl)
  | inr b ↦ rw (b, put_delivery) (rw b (find-put_delivery id v d rest (ground arith) e))
]

completed_status_ends :
    (latest : OutboundWebhookDelivery) (result : DeliveryResult)
    (endpoint : Option OutboundWebhookEndpoint)
    → is_delivering (completed_status latest result endpoint) ≡ false
unfolding completed_status
completed_status_ends latest result endpoint = ground arith

-- Nothing is left to a second completion of the same claim.
abbrev pub IsSettled :
    OutboundWebhookDelivery
    → Result WebhookError (OutboundWebhookStore × OutboundWebhookDelivery)
    → Type 0
IsSettled claimed (err e) = Unit
IsSettled claimed (ok (after, d)) =
    (truncate : String → String) (result : DeliveryResult)
    (endpoint : Option OutboundWebhookEndpoint) (now base : ℕ)
    → complete_outbound_webhook_delivery truncate claimed result endpoint now base after
      ≡ err lease_conflict

-- Once a claimed delivery was completed, every other completion of the claim is a lease conflict.
pub complete-IsSettled :
    (truncate : String → String) (claimed : OutboundWebhookDelivery) (result : DeliveryResult)
    (endpoint : Option OutboundWebhookEndpoint) (now base : ℕ) (current : OutboundWebhookStore)
    → IsSettled claimed
        (complete_outbound_webhook_delivery truncate claimed result endpoint now base current)
unfolding complete_outbound_webhook_delivery
complete-IsSettled truncate claimed result endpoint now base current =
    elim (Option-cases (find (λ d. same d.id claimed.id) current.deliveries)) [
      | inl n ↦ rw (n, complete_outbound_webhook_delivery) tt
      | inr (latest, f) ↦
          elim (Bool-cases
            (is_delivering latest.status && same_token latest.lease_token claimed.lease_token)) [
              | inl b ↦
                  let v =
                    completed_delivery truncate latest result
                      (completed_status latest result endpoint) now base in
                  rw (f, b, complete_outbound_webhook_delivery)
                    (λ t r e n k.
                      rw
                        (
                          find-put_delivery claimed.id v latest current.deliveries f refl,
                          complete_outbound_webhook_delivery,
                        )
                        (rw (completed_status_ends latest result endpoint) refl))
              | inr b ↦ rw (f, b, complete_outbound_webhook_delivery) tt
            ]
    ]
