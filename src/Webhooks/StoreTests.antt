-- ===== src/Webhooks/StoreTests.antt =====
-- The operations of the webhook store at concrete inputs.
use Prim.Native.String.{String, [], ◌∷◌}
use listmonk_ops.Prelude.{
  ℕ, zero, suc, ◌≤◌, none, Bool, true, false, ok, List, same, ◌≡◌, refl, ap, sym, ◌∙◌,
  String_discrete,
}
use listmonk_ops.Sequences.Values.{Fields, field, end_fields, text, object, text_count}
use listmonk_ops.Webhooks.{OutboundWebhookDelivery, OutboundWebhookStore, pending}
use listmonk_ops.Webhooks.Events.{
  redact_outbound_webhook_data, redact_value, max_redaction_depth, matches_outbound_webhook_event,
}
use listmonk_ops.Webhooks.Redaction.{IsCleanFields, height_fields, redact-IsClean}
use listmonk_ops.Webhooks.Queue.{
  EnqueueOptions, EnqueueOutboundWebhookResult, enqueue_outbound_webhook_event,
}
use listmonk_ops.Webhooks.Enqueue.{Enqueued, enqueue_lem}
use listmonk_ops.Webhooks.Queueing.{IsFresh}
use listmonk_ops.Webhooks.Tests.{endpoint, started}

abbrev is_secret : String → Bool
is_secret key = same key "password"

abbrev login : Fields
login =
    field "name" (text "Ada")
      (field "form" (object (field "password" (text "x") end_fields)) end_fields)

redacts :
    redact_outbound_webhook_data is_secret login
    ≡ field "name"
        (text "Ada")
        (field "form" (object (field "password" (text "[REDACTED]") end_fields)) end_fields)
unfolding redact_outbound_webhook_data redact_value String_discrete
redacts = refl

redact-IsClean_example :
    IsCleanFields is_secret (redact_outbound_webhook_data is_secret login)
    × (suc (height_fields (redact_outbound_webhook_data is_secret login)) ≤ max_redaction_depth)
redact-IsClean_example = redact-IsClean is_secret login

matches_prefix :
    matches_outbound_webhook_event (List.◌∷◌ "campaign.*" List.[]) "campaign.started" ≡ true
unfolding matches_outbound_webhook_event String_discrete
matches_prefix = refl

matches_no_longer_word :
    matches_outbound_webhook_event (List.◌∷◌ "campaign.*" List.[]) "campaigns.started" ≡ false
unfolding matches_outbound_webhook_event String_discrete
matches_no_longer_word = refl

-- A supply of texts: so many letters.
abbrev pub letters : ℕ → String
letters zero = []
letters (suc n) = "x" ∷ letters n

count_letters : (n : ℕ) → text_count (letters n) ≡ n
count_letters zero = refl
count_letters (suc n) = ap suc (count_letters n)

pub letters-IsFresh : IsFresh letters List.[]
letters-IsFresh = ((λ i j e. sym (count_letters i) ∙ ap text_count e ∙ count_letters j), λ i. tt)

abbrev pub empty_store : OutboundWebhookStore
empty_store = record {
  endpoints = List.◌∷◌ endpoint List.[];
  deliveries = List.[];
  endpoint_runtime = List.[];
}

abbrev pub to_all : EnqueueOptions
to_all = record { endpoint_ids = none; bypass_event_filters = false; limit = none; now = 5 }

abbrev pub waiting : OutboundWebhookDelivery
waiting = record {
  id = "";
  event_id = "v1";
  endpoint_id = "w1";
  event = started;
  status = pending;
  attempt_count = 0;
  manual_retry_count = 0;
  next_attempt_at = 5;
  last_attempt_at = none;
  completed_at = none;
  status_code = none;
  last_error = none;
  lease_token = none;
  lease_expires_at = none;
}

abbrev pub queued_store : OutboundWebhookStore
queued_store = record empty_store { deliveries = List.◌∷◌ waiting List.[] }

abbrev pub queued_result : EnqueueOutboundWebhookResult
queued_result = record {
  event = started;
  matched_count = 1;
  queued_count = 1;
  duplicate_count = 0;
  delivery_ids = List.◌∷◌ "" List.[];
}

pub enqueues :
    enqueue_outbound_webhook_event letters started to_all empty_store
    ≡ ok (queued_store, queued_result)
unfolding enqueue_outbound_webhook_event String_discrete
enqueues = refl

enqueue_lem_example : Enqueued letters started to_all empty_store (queued_store, queued_result)
enqueue_lem_example =
    enqueue_lem letters started to_all empty_store (queued_store, queued_result) letters-IsFresh
      ((tt, tt), (tt, tt)) enqueues
