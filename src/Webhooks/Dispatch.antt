-- ===== src/Webhooks/Dispatch.antt =====
-- packages/automation/src/outbound-webhooks.ts: one attempt at a claimed delivery, and the loop that
-- claims, attempts and completes. The secrets, the resolution of an address and the request, with its
-- timeouts, are functions. The deliveries of a batch run at once and are completed in some order under
-- the store's lock; the loop completes them in the order of the claim. What other processes do to the
-- store before a claim and before the completions of a batch is a function of the round.
pub mod Rounds
pub mod Claims
pub mod Batches
pub mod Bounds
use Prim.Native.String
use listmonk_ops.Prelude.{
  ℕ, zero, suc, ◌+◌, ◌-◌, min, String, Option, none, some, Bool, true, false, Result, ok, err,
  if◌then◌else◌, List, [], ◌∷◌, ◌++◌, map, leb, ltb, ◌==◌, ◌&&◌, ◌||◌, not, length,
}
use listmonk_ops.Webhooks.{
  OutboundWebhookDelivery, OutboundWebhookDeliveryStatus, OutboundWebhookEndpoint,
  OutboundWebhookEvent, OutboundWebhookStore, WebhookError, delivery_not_found,
}
use listmonk_ops.Webhooks.Completion.{DeliveryResult, complete_outbound_webhook_delivery}
use listmonk_ops.Webhooks.Claiming.{
  ClaimOptions, ClaimedOutboundWebhookDelivery, claim_outbound_webhook_deliveries,
}

pub data OutboundWebhookDispatchErrorCode : Type 0 where
  endpoint_unavailable delivery_unavailable signing_secret_unavailable :
      OutboundWebhookDispatchErrorCode
  url_policy_blocked http_rejected lease_conflict : OutboundWebhookDispatchErrorCode
  delivery_state_conflict delivery_failed : OutboundWebhookDispatchErrorCode

pub data WebhookAddressResolution : Type 0 where
  safe : WebhookAddressResolution
  unsafe : String → WebhookAddressResolution
  resolution_failed : String → WebhookAddressResolution

-- The status of an answer and whether it is a 2xx, or the error of the request.
pub data WebhookResponse : Type 0 where
  answered : Bool → ℕ → WebhookResponse
  request_failed : String → WebhookResponse

pub record DeliveryEnvironment : Type 0 where
  pub resolve_secret : String → Option String
  pub is_blank : String → Bool
  pub resolve_addresses : OutboundWebhookEndpoint → WebhookAddressResolution
  pub post : OutboundWebhookEndpoint → String → OutboundWebhookEvent → WebhookResponse
  pub describe_status : ℕ → String

pub record Attempt : Type 0 where
  pub result : DeliveryResult
  pub error_code : Option OutboundWebhookDispatchErrorCode

abbrev failed_attempt : Bool → String → OutboundWebhookDispatchErrorCode → Attempt
failed_attempt retryable error code = record {
  result = record {
    success = false;
    retryable = retryable;
    status_code = none;
    error = some error;
  };
  error_code = some code;
}

-- The statuses after which a delivery is worth another attempt.
abbrev pub is_retryable_status : ℕ → Bool
is_retryable_status status =
    status == 408 || status == 409 || status == 425 || status == 429 || leb 500 status

unfoldable pub send_webhook :
    DeliveryEnvironment → OutboundWebhookEndpoint → String → OutboundWebhookEvent → Attempt
send_webhook env endpoint secret event = elim (env.post endpoint secret event) [
  | answered true status ↦ record {
    result = record { success = true; retryable = false; status_code = some status; error = none };
    error_code = none;
  }
  | answered false status ↦ record {
    result = record {
      success = false;
      retryable = is_retryable_status status;
      status_code = some status;
      error = some (env.describe_status status);
    };
    error_code = some http_rejected;
  }
  | request_failed error ↦ failed_attempt true error delivery_failed
]

unfoldable pub deliver_to :
    DeliveryEnvironment → OutboundWebhookEndpoint → OutboundWebhookEvent → Attempt
unfolding send_webhook
deliver_to env endpoint event =
    if not endpoint.enabled
    then failed_attempt false "Endpoint is disabled" endpoint_unavailable
    else elim (env.resolve_secret endpoint.secret_ref) [
      | none ↦ failed_attempt true (no_secret endpoint) signing_secret_unavailable
      | some secret ↦
          if env.is_blank secret
          then failed_attempt true (no_secret endpoint) signing_secret_unavailable
          else elim (env.resolve_addresses endpoint) [
            | resolution_failed error ↦ failed_attempt true error delivery_failed
            | unsafe reason ↦
                failed_attempt false (String.◌++◌ "Endpoint blocked by URL policy: " reason)
                  url_policy_blocked
            | safe ↦ send_webhook env endpoint secret event
          ]
    ]
  where
    no_secret : OutboundWebhookEndpoint → String
    no_secret e = String.◌++◌ "Signing secret environment variable is unavailable: " e.secret_ref

unfoldable pub deliver_claimed_webhook :
    DeliveryEnvironment → ClaimedOutboundWebhookDelivery → Attempt
unfolding deliver_to
deliver_claimed_webhook env claimed = elim claimed.endpoint [
  | none ↦ failed_attempt false "Endpoint was deleted before delivery" endpoint_unavailable
  | some endpoint ↦ deliver_to env endpoint claimed.delivery.event
]
