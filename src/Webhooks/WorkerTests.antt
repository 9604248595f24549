-- ===== src/Webhooks/WorkerTests.antt =====
-- The workers of the webhook store, and its maintenance, at concrete inputs.
use listmonk_ops.Prelude.{
  ℕ, ◌≢◌, String, Option, none, some, true, false, ok, [], ◌∷◌, All, IsIn, ◌≡◌, ◌⊎◌, refl, ap,
  arith, inl, String_discrete,
}
use listmonk_ops.Webhooks.{
  OutboundWebhookEndpoint, OutboundWebhookDelivery, OutboundWebhookStore, succeeded, exhausted,
  map_get,
}
use listmonk_ops.Sequences.Values.{text_count}
use listmonk_ops.Webhooks.Completion.{complete_outbound_webhook_delivery}
use listmonk_ops.Webhooks.Claiming.{ClaimOptions, claimed_by_id, claim_outbound_webhook_deliveries}
use listmonk_ops.Webhooks.Endpoints.{delete_outbound_webhook_endpoint}
use listmonk_ops.Webhooks.Maintenance.{
  PruneOptions, PruneResult, ReconcileResult, reconcile_outbound_webhook_deliveries,
  prune_outbound_webhook_deliveries,
}
use listmonk_ops.Webhooks.Enqueue.{IsWellFormed}
use listmonk_ops.Webhooks.EndpointSteps.{KeepsId}
use listmonk_ops.Webhooks.Leasing.{IsLeaseOf, claim-claim, claim-IsLeaseOf}
use listmonk_ops.Webhooks.Recovery.{IsRefused, claim-IsRefused, Recovered, reconcile_lem}
use listmonk_ops.Webhooks.Retention.{IsOld, prune_lem, delete-claim}
use listmonk_ops.Webhooks.Steps.{
  Reachable, here, after, enqueued, claimed as claim_step, reachable-IsWellFormed,
}
use listmonk_ops.Webhooks.Dispatch.{DeliveryEnvironment, safe, answered}
use listmonk_ops.Webhooks.Dispatch.Rounds.{
  DispatchOptions, DispatchWorld, DispatchResultEntry, dispatch_outbound_webhooks,
}
use listmonk_ops.Webhooks.Dispatch.Bounds.{IsBounded, dispatch-IsBounded}
use listmonk_ops.Webhooks.Tests.{endpoint, claimed, store, unavailable}
use listmonk_ops.Webhooks.StoreTests.{
  letters, letters-IsFresh, empty_store, to_all, waiting, queued_store, queued_result, enqueues,
}
use listmonk_ops.Webhooks.Tests.{started}

abbrev tokens : ℕ → String
tokens n = "t"

abbrev at_time : ℕ → ClaimOptions
at_time now = record {
  limit = 5;
  now = now;
  lease_ms = 1_000;
  delivery_ids = none;
  exclude_delivery_ids = [];
  bypass_circuit_breaker = false;
}

keeps_all : KeepsId some
keeps_all = λ e value h.
    let is_value : e ≡ value = ground arith in ap (λ (x : OutboundWebhookEndpoint). x.id) is_value

abbrev path :
    Reachable
      (λ s. s)
      some
      (λ s. s)
      empty_store
      (claim_outbound_webhook_deliveries tokens (at_time 10) queued_store).0
path =
    after (after here (enqueued letters started to_all queued_result letters-IsFresh enqueues))
      (claim_step tokens (at_time 10))

reachable-IsWellFormed_example :
    IsWellFormed (claim_outbound_webhook_deliveries tokens (at_time 10) queued_store).0
reachable-IsWellFormed_example =
    reachable-IsWellFormed (λ s. s) some (λ s. s) keeps_all empty_store
      (claim_outbound_webhook_deliveries tokens (at_time 10) queued_store).0 ((tt, tt), (tt, tt))
      path

claim-claim_example :
    All
      (λ later. All (λ d. d.id ≢ later.id) (claimed_by_id tokens (at_time 10) queued_store))
      (claimed_by_id letters
        (at_time 500)
        (claim_outbound_webhook_deliveries tokens (at_time 10) queued_store).0)
claim-claim_example =
    claim-claim tokens letters (at_time 10) (at_time 500) queued_store (omega arith)

claims_again :
    map_get (claimed_by_id tokens (at_time 200) store) "d1"
    ≡ some (record claimed {
      attempt_count = 2;
      last_attempt_at = some 200;
      lease_token = some "t";
      lease_expires_at = some 1_200;
    })
unfolding claimed_by_id String_discrete
claims_again = refl

claim-IsLeaseOf_example :
    All
      (λ leased. (d : OutboundWebhookDelivery) × IsLeaseOf (at_time 200) store leased d)
      (claimed_by_id tokens (at_time 200) store)
claim-IsLeaseOf_example = claim-IsLeaseOf tokens (at_time 200) store

abbrev token_count : Option String → ℕ
token_count none = 0
token_count (some t) = text_count t

other_token : (i : ℕ) → ◌≢◌ {A = Option String} (some (tokens i)) claimed.lease_token
other_token i e = omega (arith, ap token_count e)

claim-IsRefused_example : IsRefused (
    complete_outbound_webhook_delivery
      (λ s. s)
      claimed
      unavailable
      (some endpoint)
      300
      1_000
      (claim_outbound_webhook_deliveries tokens (at_time 200) store).0)
claim-IsRefused_example =
    claim-IsRefused tokens (at_time 200) store (λ s. s) claimed _ unavailable (some endpoint) 300
      1_000 other_token claims_again

abbrev recovered_store : OutboundWebhookStore
recovered_store = record store {
  deliveries =
      record claimed {
        status = listmonk_ops.Webhooks.retry;
        next_attempt_at = 200;
        last_error = some "Recovered expired worker lease";
        lease_token = none;
        lease_expires_at = none;
      }
      ∷ [];
}

abbrev recovered_result : ReconcileResult
recovered_result = record {
  scanned = 1;
  recovered = 1;
  exhausted_count = 0;
  unchanged = 0;
  dry_run = false;
}

reconciles :
    reconcile_outbound_webhook_deliveries 200 none false store
    ≡ ok (recovered_store, recovered_result)
unfolding reconcile_outbound_webhook_deliveries String_discrete
reconciles = refl

reconcile_lem_example : Recovered 200 none false store (recovered_store, recovered_result)
reconcile_lem_example =
    reconcile_lem 200 none false store (recovered_store, recovered_result)
      (((tt, tt), (tt, tt)), (tt, tt)) reconciles

abbrev old : OutboundWebhookDelivery
old = record waiting { event_id = "earlier"; status = succeeded; completed_at = some 50 }

abbrev full_store : OutboundWebhookStore
full_store = record store { deliveries = old ∷ claimed ∷ [] }

abbrev before_100 : PruneOptions
before_100 = record { before = 100; ids = none; limit = none; dry_run = false }

abbrev pruned_result : PruneResult
pruned_result = record { eligible = 1; deleted = 1; dry_run = false; before = 100; ids = "" ∷ [] }

prunes : prune_outbound_webhook_deliveries before_100 full_store ≡ ok (store, pruned_result)
unfolding prune_outbound_webhook_deliveries String_discrete
prunes = refl

ids_differ : ◌≢◌ {A = String} "" "d1"
ids_differ e = omega (arith, ap text_count e)

keys_differ : ◌≢◌ {A = String} "earlier:w1" "v1:w1"
keys_differ e = omega (arith, ap text_count e)

full_store-IsWellFormed : IsWellFormed full_store
full_store-IsWellFormed = ((((ids_differ, tt), (tt, tt)), ((keys_differ, tt), (tt, tt))), (tt, tt))

prune_lem_example : IsIn old store.deliveries ⊎ IsOld 100 old
prune_lem_example =
    prune_lem before_100 full_store store pruned_result old full_store-IsWellFormed prunes
      (inl refl)

abbrev store_without : OutboundWebhookStore
store_without = record {
  endpoints = [];
  deliveries =
      record claimed {
        status = exhausted;
        completed_at = some 50;
        last_error = some "Endpoint deleted before delivery";
        lease_token = none;
        lease_expires_at = none;
      }
      ∷ [];
  endpoint_runtime = [];
}

deletes : delete_outbound_webhook_endpoint "w1" 50 store ≡ ok (store_without, endpoint)
unfolding delete_outbound_webhook_endpoint String_discrete
deletes = refl

delete-claim_example :
    All (λ d. d.endpoint_id ≢ "w1") (claimed_by_id tokens (at_time 200) store_without)
delete-claim_example =
    delete-claim "w1" 50 store store_without endpoint tokens (at_time 200) deletes

abbrev answering : DeliveryEnvironment
answering = record {
  resolve_secret = λ ref. some "s";
  is_blank = λ s. false;
  resolve_addresses = λ e. safe;
  post = λ e secret event. answered true 204;
  describe_status = λ status. "Endpoint returned an error";
}

abbrev two : DispatchOptions
two = record {
  limit = 2;
  lease_ms = 1_000;
  base_retry_delay_ms = 1_000;
  concurrency = 1;
  delivery_ids = none;
  bypass_circuit_breaker = false;
}

abbrev alone : DispatchWorld
alone = record {
  uuid = λ round. letters;
  claim_time = λ round. 200;
  complete_time = λ round id. 210;
  before_claim = λ round s. s;
  before_completion = λ round s. s;
}

delivers :
    (dispatch_outbound_webhooks (λ s. s) answering two alone store).1
    ≡ some (
        ok (
          record {
            delivery_id = "d1";
            endpoint_id = "w1";
            status = listmonk_ops.Webhooks.Dispatch.Rounds.completed succeeded;
            status_code = some 204;
            error_code = none;
          }
          ∷ []))
unfolding dispatch_outbound_webhooks String_discrete
delivers = refl

dispatch-IsBounded_example :
    IsBounded 2 [] (dispatch_outbound_webhooks (λ s. s) answering two alone store).1
dispatch-IsBounded_example = dispatch-IsBounded (λ s. s) answering two alone store
