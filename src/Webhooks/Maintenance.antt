-- ===== src/Webhooks/Maintenance.antt =====
-- packages/automation/src/outbound-webhooks.ts: the recovery of expired leases, and the removal of old
-- finished deliveries.
use listmonk_ops.Prelude.{
  ℕ, String, Option, none, some, Bool, true, false, Result, ok, ◌>>=◌, if◌then◌else◌, List, [], ◌∷◌,
  map, same, leb, ltb, ◌&&◌, not, filter, length, take, sort_by,
}
use listmonk_ops.Webhooks.{
  OutboundWebhookEndpoint, OutboundWebhookDelivery, OutboundWebhookStore, retry, exhausted,
  WebhookError, is_terminal, is_delivering, map_of, replace_deliveries,
}
use listmonk_ops.Webhooks.Queue.{has, or_number}
use listmonk_ops.Webhooks.Claiming.{endpoint_by_id}
use listmonk_ops.Webhooks.Replay.{resolve_maintenance_limit}

-- `leaseExpiresAt ?? lastAttemptAt ?? nextAttemptAt`.
abbrev pub lease_time : OutboundWebhookDelivery → ℕ
lease_time d = or_number d.lease_expires_at (or_number d.last_attempt_at d.next_attempt_at)

-- `leaseExpiresAt === undefined || leaseExpiresAt <= now`.
abbrev pub lease_is_over : ℕ → OutboundWebhookDelivery → Bool
lease_is_over now d = elim d.lease_expires_at [ none ↦ true | some t ↦ leb t now ]

abbrev pub can_retry : Option OutboundWebhookEndpoint → OutboundWebhookDelivery → Bool
can_retry none d = false
can_retry (some e) d = e.enabled && ltb d.attempt_count e.max_attempts

abbrev pub is_enabled_endpoint : Option OutboundWebhookEndpoint → Bool
is_enabled_endpoint none = false
is_enabled_endpoint (some e) = e.enabled

abbrev pub outbound_webhook_lease_reconciliation_error : Bool → Bool → String
outbound_webhook_lease_reconciliation_error true endpoint_enabled = "Recovered expired worker lease"
outbound_webhook_lease_reconciliation_error false true =
    "Maximum delivery attempts reached during lease reconciliation"
outbound_webhook_lease_reconciliation_error false false =
    "Endpoint missing or disabled during lease reconciliation"

unfoldable pub recovered_delivery :
    List OutboundWebhookEndpoint → ℕ → OutboundWebhookDelivery → OutboundWebhookDelivery
unfolding endpoint_by_id
recovered_delivery endpoints now d =
    let endpoint = endpoint_by_id endpoints d.endpoint_id in
    let again = can_retry endpoint d in
    record d {
      status = if again then retry else exhausted;
      next_attempt_at = now;
      completed_at = if again then none else some now;
      last_error =
          some (outbound_webhook_lease_reconciliation_error again (is_enabled_endpoint endpoint));
      lease_token = none;
      lease_expires_at = none;
    }

pub record ReconcileResult : Type 0 where
  pub scanned : ℕ
  pub recovered : ℕ
  pub exhausted_count : ℕ
  pub unchanged : ℕ
  pub dry_run : Bool

unfoldable pub reconcile_candidates :
    ℕ → List OutboundWebhookDelivery → List OutboundWebhookDelivery
reconcile_candidates limit deliveries = take limit (
    sort_by (λ a b. leb (lease_time a) (lease_time b))
      (filter (λ d. is_delivering d.status) deliveries))

unfoldable pub reconcile_outbound_webhook_deliveries :
    ℕ
    → Option ℕ
    → Bool
    → OutboundWebhookStore
    → Result WebhookError (OutboundWebhookStore × ReconcileResult)
unfolding resolve_maintenance_limit reconcile_candidates recovered_delivery map_of
    replace_deliveries
reconcile_outbound_webhook_deliveries now limit dry_run current =
    resolve_maintenance_limit limit >>= (λ limit.
      let candidates = reconcile_candidates limit current.deliveries in
      let expired = filter (lease_is_over now) candidates in
      let again = λ (d : OutboundWebhookDelivery).
        can_retry (endpoint_by_id current.endpoints d.endpoint_id) d in
      let replacements = map_of [] (map (recovered_delivery current.endpoints now) expired) in
      ok (
        if dry_run
            then current
            else record current { deliveries = replace_deliveries replacements current.deliveries },
        record {
          scanned = length candidates;
          recovered = length (filter again expired);
          exhausted_count = length (filter (λ d. not (again d)) expired);
          unchanged = length (filter (λ d. not (lease_is_over now d)) candidates);
          dry_run = dry_run;
        },
      ))

pub record PruneOptions : Type 0 where
  pub before : ℕ
  pub ids : Option (List String)
  pub limit : Option ℕ
  pub dry_run : Bool

pub record PruneResult : Type 0 where
  pub eligible : ℕ
  pub deleted : ℕ
  pub dry_run : Bool
  pub before : ℕ
  pub ids : List String

abbrev pub matches_cutoff : ℕ → OutboundWebhookDelivery → Bool
matches_cutoff before d =
    is_terminal d.status && elim d.completed_at [ none ↦ false | some t ↦ ltb t before ]

unfoldable pub prune_candidates :
    PruneOptions → ℕ → List OutboundWebhookDelivery → List OutboundWebhookDelivery
prune_candidates options limit deliveries = elim options.ids [
  | some ids ↦ filter (λ d. has ids d.id && matches_cutoff options.before d) deliveries
  | none ↦ take limit (
      sort_by (λ a b. leb (or_number a.completed_at 0) (or_number b.completed_at 0))
        (filter (matches_cutoff options.before) deliveries))
]

-- `new Set(ids)`: an identifier counts once.
unfoldable pub distinct_texts : List String → List String
distinct_texts [] = []
distinct_texts (s ∷ rest) = s ∷ filter (λ t. not (same t s)) (distinct_texts rest)

unfoldable pub prune_outbound_webhook_deliveries :
    PruneOptions → OutboundWebhookStore → Result WebhookError (OutboundWebhookStore × PruneResult)
unfolding resolve_maintenance_limit prune_candidates distinct_texts
prune_outbound_webhook_deliveries options current =
    resolve_maintenance_limit options.limit >>= (λ limit.
      let eligible_ids = map (λ d. d.id) (prune_candidates options limit current.deliveries) in
      let eligible = length (distinct_texts eligible_ids) in
      ok (
        if options.dry_run then current else record current {
          deliveries = filter (λ d. not (has eligible_ids d.id)) current.deliveries;
        },
        record {
          eligible = eligible;
          deleted = if options.dry_run then 0 else eligible;
          dry_run = options.dry_run;
          before = options.before;
          ids = eligible_ids;
        },
      ))
