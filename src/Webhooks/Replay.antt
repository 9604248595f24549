-- ===== src/Webhooks/Replay.antt =====
-- packages/automation/src/outbound-webhooks.ts: a manual retry, and the replay of exhausted deliveries.
use listmonk_ops.Prelude.{
  ℕ, ◌+◌, String, Option, none, some, Bool, true, false, Result, ok, err, ◌>>=◌, if◌then◌else◌,
  List, [], map, same, leb, ltb, ◌==◌, ◌&&◌, ◌||◌, not, any, find, filter, length, take, sort_by,
}
use listmonk_ops.Webhooks.{
  OutboundWebhookEndpoint, OutboundWebhookDelivery, OutboundWebhookDeliveryStatus,
  OutboundWebhookStore, pending, retry, exhausted, WebhookError, delivery_not_found,
  delivery_state_conflict, endpoint_unavailable, out_of_range, is_exhausted, put_delivery, map_of,
  replace_deliveries,
}
use listmonk_ops.Webhooks.Queue.{has, or_number}

unfoldable pub resolve_maintenance_limit : Option ℕ → Result WebhookError ℕ
resolve_maintenance_limit limit =
    if or_number limit 100 == 0 || ltb 1_000 (or_number limit 100)
    then err out_of_range
    else ok (or_number limit 100)

-- A delivery that is queued again by hand.
abbrev pub requeued_delivery : ℕ → OutboundWebhookDelivery → OutboundWebhookDelivery
requeued_delivery now d = record d {
  status = pending;
  attempt_count = 0;
  manual_retry_count = d.manual_retry_count + 1;
  next_attempt_at = now;
  last_attempt_at = none;
  completed_at = none;
  status_code = none;
  last_error = none;
  lease_token = none;
  lease_expires_at = none;
}

-- What a status allows a manual retry to do.
pub data RetryDecision : Type 0 where
  already_queued refused requeued : RetryDecision

abbrev pub retry_decision : OutboundWebhookDeliveryStatus → RetryDecision
retry_decision pending = already_queued
retry_decision retry = requeued
retry_decision exhausted = requeued
retry_decision _ = refused

abbrev pub has_enabled_endpoint : List OutboundWebhookEndpoint → String → Bool
has_enabled_endpoint endpoints id = any (λ e. same e.id id && e.enabled) endpoints

pub record RetryOutboundWebhookDeliveryResult : Type 0 where
  pub delivery : OutboundWebhookDelivery
  pub retried : Bool

unfoldable pub retry_outbound_webhook_delivery :
    String
    → ℕ
    → OutboundWebhookStore
    → Result WebhookError (OutboundWebhookStore × RetryOutboundWebhookDeliveryResult)
unfolding put_delivery
retry_outbound_webhook_delivery id now current =
    elim (find (λ d. same d.id id) current.deliveries) [
      | none ↦ err delivery_not_found
      | some previous ↦ elim (retry_decision previous.status) [
        | already_queued ↦ ok (current, record { delivery = previous; retried = false })
        | refused ↦ err delivery_state_conflict
        | requeued ↦
            if has_enabled_endpoint current.endpoints previous.endpoint_id
            then ok (
              record current {
                deliveries = put_delivery id (requeued_delivery now previous) current.deliveries;
              },
              record { delivery = requeued_delivery now previous; retried = true },
            )
            else err endpoint_unavailable
      ]
    ]

pub record ReplayOptions : Type 0 where
  pub delivery_ids : Option (List String)
  pub endpoint_id : Option String
  pub limit : Option ℕ
  pub dry_run : Bool
  pub now : ℕ

pub record ReplayResult : Type 0 where
  pub eligible : ℕ
  pub replayed : ℕ
  pub failed : ℕ
  pub dry_run : Bool
  pub delivery_ids : List String
  pub errors : List String

abbrev pub is_of_endpoint : Option String → OutboundWebhookDelivery → Bool
is_of_endpoint none d = true
is_of_endpoint (some id) d = same d.endpoint_id id

abbrev pub is_dead_letter : ReplayOptions → OutboundWebhookDelivery → Bool
is_dead_letter options d = is_exhausted d.status && is_of_endpoint options.endpoint_id d

-- The newest dead letters up to the limit, or exactly the requested ones.
unfoldable pub dead_letters :
    ReplayOptions → ℕ → List OutboundWebhookDelivery → List OutboundWebhookDelivery
dead_letters options limit deliveries = elim options.delivery_ids [
  | none ↦ take limit (
      sort_by (λ a b. leb b.next_attempt_at a.next_attempt_at)
        (filter (is_dead_letter options) deliveries))
  | some ids ↦ filter (λ d. has ids d.id && is_dead_letter options d) deliveries
]

unfoldable pub replay_outbound_webhook_dead_letters :
    ReplayOptions → OutboundWebhookStore → Result WebhookError (OutboundWebhookStore × ReplayResult)
unfolding resolve_maintenance_limit dead_letters map_of replace_deliveries
replay_outbound_webhook_dead_letters options current =
    resolve_maintenance_limit options.limit >>= (λ limit.
      let found = dead_letters options limit current.deliveries in
      if options.dry_run
      then ok (
        current,
        record {
          eligible = length found;
          replayed = 0;
          failed = 0;
          dry_run = true;
          delivery_ids = map (λ d. d.id) found;
          errors = [];
        },
      )
      else (let is_enabled =
            λ (d : OutboundWebhookDelivery). has_enabled_endpoint current.endpoints d.endpoint_id in
          let replacements =
            map_of [] (map (requeued_delivery options.now) (filter is_enabled found)) in
          let errors = map (λ d. d.id) (filter (λ d. not (is_enabled d)) found) in
          ok (
            record current { deliveries = replace_deliveries replacements current.deliveries },
            record {
              eligible = length found;
              replayed = length replacements;
              failed = length errors;
              dry_run = false;
              delivery_ids = map (λ d. d.id) replacements;
              errors = errors;
            },
          )))
