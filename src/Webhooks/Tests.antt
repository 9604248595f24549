-- ===== src/Webhooks/Tests.antt =====
-- Webhook deliveries at concrete inputs.
use listmonk_ops.Prelude.{
  ℕ, none, some, Bool, true, false, List, [], ◌∷◌, ◌≡◌, refl, arith, String_discrete,
}
use listmonk_ops.Sequences.Values.{end_fields}
use listmonk_ops.Webhooks.{
  OutboundWebhookEndpoint, OutboundWebhookDelivery, OutboundWebhookEvent, OutboundWebhookStore,
  delivering,
}
use listmonk_ops.Webhooks.Runtime.{
  is_closed, next_runtime, put_runtime, update_endpoint_runtime_after_attempt,
}
use listmonk_ops.Webhooks.Completion.{DeliveryResult, complete_outbound_webhook_delivery}
use listmonk_ops.Webhooks.Circuit.{
  Counts, runtime_of, run_attempts, trailing_failures, run_attempts-Counts,
}
use listmonk_ops.Webhooks.Delivery.{IsSettled, complete-IsSettled}

abbrev pub endpoint : OutboundWebhookEndpoint
endpoint = record {
  id = "w1";
  name = "Hook";
  url = "https://example.com/hook";
  secret_ref = "LISTMONK_OPS_WEBHOOK_SECRET";
  event_filters = "campaign.*" ∷ [];
  enabled = true;
  timeout_ms = 1_000;
  max_attempts = 3;
  circuit_failure_threshold = 2;
  circuit_cooldown_ms = 60_000;
  created_at = 1;
  updated_at = 1;
}

abbrev attempts : List (Bool × ℕ)
attempts = (false, 1) ∷ (true, 2) ∷ (false, 3) ∷ (false, 4) ∷ []

opens : is_closed (runtime_of "w1" (run_attempts endpoint attempts [])).circuit_state ≡ false
unfolding run_attempts update_endpoint_runtime_after_attempt put_runtime next_runtime
    String_discrete
opens = refl

run_attempts-Counts_example :
    Counts endpoint
      (trailing_failures 0 attempts)
      (runtime_of "w1" (run_attempts endpoint attempts []))
run_attempts-Counts_example =
    run_attempts-Counts endpoint attempts 0 [] refl (omega arith) (refl, refl)

abbrev pub started : OutboundWebhookEvent
started = record {
  id = "v1";
  event_type = "campaign.started";
  occurred_at = 4;
  source = "operation";
  correlation_id = none;
  subject = none;
  event_fields = end_fields;
}

abbrev pub claimed : OutboundWebhookDelivery
claimed = record {
  id = "d1";
  event_id = "v1";
  endpoint_id = "w1";
  event = started;
  status = delivering;
  attempt_count = 1;
  manual_retry_count = 0;
  next_attempt_at = 5;
  last_attempt_at = some 10;
  completed_at = none;
  status_code = none;
  last_error = none;
  lease_token = some "l1";
  lease_expires_at = some 100;
}

abbrev pub store : OutboundWebhookStore
store = record { endpoints = endpoint ∷ []; deliveries = claimed ∷ []; endpoint_runtime = [] }

abbrev pub unavailable : DeliveryResult
unavailable = record {
  success = false;
  retryable = true;
  status_code = some 503;
  error = some "unavailable";
}

complete-IsSettled_example :
    IsSettled claimed (
      complete_outbound_webhook_delivery
        (λ s. s)
        claimed
        unavailable
        (some endpoint)
        20
        1_000
        store)
complete-IsSettled_example =
    complete-IsSettled (λ s. s) claimed unavailable (some endpoint) 20 1_000 store
