-- ===== src/Webhooks/Completion.antt =====
-- packages/automation/src/outbound-webhooks.ts: completing a claimed delivery, and the retry delay.
use listmonk_ops.Prelude.{
  ℕ, ◌+◌, ◌-◌, ◌*◌, ◌^◌, min, String, Option, none, some, Bool, true, false, Result, ok, err,
  if◌then◌else◌, same, leb, ◌&&◌, ◌||◌, not, find,
}
use listmonk_ops.Webhooks.{
  OutboundWebhookDelivery, OutboundWebhookDeliveryStatus, succeeded, exhausted, retry,
  OutboundWebhookEndpoint, OutboundWebhookStore, WebhookError, delivery_not_found, lease_conflict,
  is_delivering, put_delivery,
}
use listmonk_ops.Webhooks.Runtime.{update_endpoint_runtime_after_attempt}

pub record DeliveryResult : Type 0 where
  pub success : Bool
  pub retryable : Bool
  pub status_code : Option ℕ
  pub error : Option String

abbrev pub max_outbound_webhook_retry_delay_ms : ℕ
max_outbound_webhook_retry_delay_ms = 3_600_000

unfoldable pub outbound_webhook_retry_delay_ms : ℕ → ℕ → ℕ
outbound_webhook_retry_delay_ms attempt_count base_delay_ms =
    min max_outbound_webhook_retry_delay_ms (base_delay_ms * 2 ^ (attempt_count - 1))

-- `left === right` on optional texts.
abbrev pub same_token : Option String → Option String → Bool
same_token none none = true
same_token (some a) (some b) = same a b
same_token _ _ = false

abbrev pub attempts_used : OutboundWebhookDelivery → Option OutboundWebhookEndpoint → Bool
attempts_used latest none = true
attempts_used latest (some endpoint) = leb endpoint.max_attempts latest.attempt_count

unfoldable pub completed_status :
    OutboundWebhookDelivery
    → DeliveryResult
    → Option OutboundWebhookEndpoint
    → OutboundWebhookDeliveryStatus
completed_status latest result endpoint =
    if result.success
    then succeeded
    else if not result.retryable || attempts_used latest endpoint
    then exhausted
    else retry

-- `truncate` is `truncateOutboundWebhookError`.
unfoldable pub completed_delivery :
    (String → String)
    → OutboundWebhookDelivery
    → DeliveryResult
    → OutboundWebhookDeliveryStatus
    → ℕ
    → ℕ
    → OutboundWebhookDelivery
unfolding outbound_webhook_retry_delay_ms
completed_delivery truncate latest result status now base = record latest {
  status = status;
  next_attempt_at = elim status [
    | retry ↦ now + outbound_webhook_retry_delay_ms latest.attempt_count base
    | _ ↦ latest.next_attempt_at
  ];
  completed_at = elim status [ succeeded ↦ some now | exhausted ↦ some now | _ ↦ none ];
  status_code = result.status_code;
  last_error = elim result.error [ none ↦ none | some e ↦ some (truncate e) ];
  lease_token = none;
  lease_expires_at = none;
}

unfoldable pub complete_outbound_webhook_delivery :
    (String → String)
    → OutboundWebhookDelivery
    → DeliveryResult
    → Option OutboundWebhookEndpoint
    → ℕ
    → ℕ
    → OutboundWebhookStore
    → Result WebhookError (OutboundWebhookStore × OutboundWebhookDelivery)
unfolding completed_delivery completed_status put_delivery update_endpoint_runtime_after_attempt
complete_outbound_webhook_delivery truncate claimed result endpoint now base current =
    elim (find (λ d. same d.id claimed.id) current.deliveries) [
      | none ↦ err delivery_not_found
      | some latest ↦
          if is_delivering latest.status && same_token latest.lease_token claimed.lease_token
          then (let delivery =
                completed_delivery truncate latest result (completed_status latest result endpoint)
                  now base in
              ok (
                record current {
                  deliveries = put_delivery claimed.id delivery current.deliveries;
                  endpoint_runtime =
                      update_endpoint_runtime_after_attempt current.endpoint_runtime endpoint
                        result.success now;
                },
                delivery,
              ))
          else err lease_conflict
    ]
