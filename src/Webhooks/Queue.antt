-- ===== src/Webhooks/Queue.antt =====
-- packages/automation/src/outbound-webhooks.ts: queueing an event for the endpoints that ask for it.
-- A supply of texts stands for `randomUUID`.
use Prim.Native.String
use listmonk_ops.Prelude.{
  ℕ, suc, ◌-◌, String, Option, none, some, Bool, true, Result, ok, err, ◌>>=◌, if◌then◌else◌, List,
  [], ◌∷◌, ◌++◌, map, same, leb, ltb, ◌&&◌, ◌||◌, not, any, filter, length, take, sort_by,
}
use listmonk_ops.Webhooks.{
  OutboundWebhookEvent, OutboundWebhookEndpoint, OutboundWebhookDelivery, OutboundWebhookStore,
  pending, WebhookError, conflict, out_of_range, is_terminal,
}
use listmonk_ops.Webhooks.Events.{matches_outbound_webhook_event}

-- `Set.has` on a set of texts.
abbrev pub has : List String → String → Bool
has texts s = any (λ t. same t s) texts

-- `selected === undefined || selected.has(id)`.
abbrev pub is_selected : Option (List String) → String → Bool
is_selected none id = true
is_selected (some ids) id = has ids id

abbrev pub or_number : Option ℕ → ℕ → ℕ
or_number none n = n
or_number (some m) n = m

unfoldable pub resolve_store_limit : Option ℕ → Result WebhookError ℕ
resolve_store_limit limit =
    if ltb (or_number limit 5_000) 100 then err out_of_range else ok (or_number limit 5_000)

-- `${eventId}:${endpointId}`.
abbrev pub delivery_key : String → String → String
delivery_key event_id endpoint_id = String.◌++◌ event_id (String.◌++◌ ":" endpoint_id)

abbrev pub key_of : OutboundWebhookDelivery → String
key_of d = delivery_key d.event_id d.endpoint_id

-- The time by which finished deliveries are removed, the oldest first.
abbrev pub finished_at : OutboundWebhookDelivery → ℕ
finished_at d = or_number d.completed_at d.next_attempt_at

-- The identifiers of the finished deliveries that make room.
unfoldable pub removed_ids : List OutboundWebhookDelivery → ℕ → List String
removed_ids deliveries limit =
    map (λ d. d.id)
      (take (length deliveries - limit) (
        sort_by (λ a b. leb (finished_at a) (finished_at b))
          (filter (λ d. is_terminal d.status) deliveries)))

unfoldable pub prune_deliveries :
    List OutboundWebhookDelivery → ℕ → Result WebhookError (List OutboundWebhookDelivery)
unfolding removed_ids
prune_deliveries deliveries limit =
    if leb (length deliveries) limit
    then ok deliveries
    else (let pruned = filter (λ d. not (has (removed_ids deliveries limit) d.id)) deliveries in
        if ltb limit (length pruned) then err conflict else ok pruned)

-- The endpoints an event goes to.
unfoldable pub matched_endpoints :
    Option (List String)
    → Bool
    → OutboundWebhookEvent
    → List OutboundWebhookEndpoint
    → List OutboundWebhookEndpoint
unfolding matches_outbound_webhook_event
matched_endpoints selected bypass event endpoints =
    filter
      (λ e.
        e.enabled
        && is_selected selected e.id
        && (bypass || matches_outbound_webhook_event e.event_filters event.event_type))
      endpoints

abbrev pub new_delivery : String → OutboundWebhookEvent → String → ℕ → OutboundWebhookDelivery
new_delivery id event endpoint_id now = record {
  id = id;
  event_id = event.id;
  endpoint_id = endpoint_id;
  event = event;
  status = pending;
  attempt_count = 0;
  manual_retry_count = 0;
  next_attempt_at = now;
  last_attempt_at = none;
  completed_at = none;
  status_code = none;
  last_error = none;
  lease_token = none;
  lease_expires_at = none;
}

-- The deliveries of `flatMap`; the supply is read from a place on, once for each new delivery.
unfoldable pub queued_deliveries :
    (ℕ → String)
    → ℕ
    → List String
    → OutboundWebhookEvent
    → ℕ
    → List OutboundWebhookEndpoint
    → List OutboundWebhookDelivery
queued_deliveries uuid n existing event now [] = []
queued_deliveries uuid n existing event now (e ∷ rest) =
    let is_duplicate = has existing (delivery_key event.id e.id) in
    let others =
      queued_deliveries uuid (if is_duplicate then n else suc n) existing event now rest in
    if is_duplicate then others else new_delivery (uuid n) event e.id now ∷ others

unfoldable pub duplicate_deliveries :
    List String → OutboundWebhookEvent → List OutboundWebhookEndpoint → ℕ
duplicate_deliveries existing event endpoints =
    length (filter (λ e. has existing (delivery_key event.id e.id)) endpoints)

pub record EnqueueOutboundWebhookResult : Type 0 where
  pub event : OutboundWebhookEvent
  pub matched_count : ℕ
  pub queued_count : ℕ
  pub duplicate_count : ℕ
  pub delivery_ids : List String

pub record EnqueueOptions : Type 0 where
  pub endpoint_ids : Option (List String)
  pub bypass_event_filters : Bool
  pub limit : Option ℕ
  pub now : ℕ

unfoldable pub enqueue_outbound_webhook_event :
    (ℕ → String)
    → OutboundWebhookEvent
    → EnqueueOptions
    → OutboundWebhookStore
    → Result WebhookError (OutboundWebhookStore × EnqueueOutboundWebhookResult)
unfolding resolve_store_limit prune_deliveries matched_endpoints queued_deliveries
    duplicate_deliveries
enqueue_outbound_webhook_event uuid event options current =
    resolve_store_limit options.limit >>= (λ limit.
      let endpoints =
        matched_endpoints options.endpoint_ids options.bypass_event_filters event
          current.endpoints in
      let existing = map key_of current.deliveries in
      let queued = queued_deliveries uuid 0 existing event options.now endpoints in
      prune_deliveries (current.deliveries ++ queued) limit >>= (λ deliveries. ok (
        record current { deliveries = deliveries },
        record {
          event = event;
          matched_count = length endpoints;
          queued_count = length queued;
          duplicate_count = duplicate_deliveries existing event endpoints;
          delivery_ids = map (λ d. d.id) queued;
        },
      )))
