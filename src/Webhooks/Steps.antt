-- ===== src/Webhooks/Steps.antt =====
-- The operations of the webhook store as steps between its versions, as the lock of its file puts them
-- one after the other, and what every version has.
use listmonk_ops.Prelude.{ℕ, String, Option, Bool, ok, All, ◌≡◌, ◌≢◌, AfterOk-ok}
use listmonk_ops.Webhooks.{
  OutboundWebhookEvent, OutboundWebhookEndpoint, OutboundWebhookDelivery,
  OutboundWebhookEndpointRuntime, OutboundWebhookStore,
}
use listmonk_ops.Webhooks.Endpoints.{
  UpdateOutboundWebhookEndpointInput, create_outbound_webhook_endpoint,
  update_outbound_webhook_endpoint, delete_outbound_webhook_endpoint,
}
use listmonk_ops.Webhooks.Runtime.{reset_outbound_webhook_endpoint_circuit}
use listmonk_ops.Webhooks.Completion.{DeliveryResult, complete_outbound_webhook_delivery}
use listmonk_ops.Webhooks.Queue.{
  EnqueueOptions, EnqueueOutboundWebhookResult, enqueue_outbound_webhook_event,
}
use listmonk_ops.Webhooks.Claiming.{ClaimOptions, claim_outbound_webhook_deliveries}
use listmonk_ops.Webhooks.Replay.{
  ReplayOptions, ReplayResult, RetryOutboundWebhookDeliveryResult, retry_outbound_webhook_delivery,
  replay_outbound_webhook_dead_letters,
}
use listmonk_ops.Webhooks.Maintenance.{
  PruneOptions, PruneResult, ReconcileResult, reconcile_outbound_webhook_deliveries,
  prune_outbound_webhook_deliveries,
}
use listmonk_ops.Webhooks.Queueing.{IsFresh}
use listmonk_ops.Webhooks.Enqueue.{IsWellFormed, enqueue_lem}
use listmonk_ops.Webhooks.Preservation.{
  Safe, claim-Safe, complete-Safe, retry-Safe, replay-Safe, reconcile-Safe, prune-Safe,
}
use listmonk_ops.Webhooks.EndpointSteps.{KeepsId, create-Safe, update-Safe, delete-Safe, reset-Safe}

module _ (to_lower_case : String → String)
    (normalized : OutboundWebhookEndpoint → Option OutboundWebhookEndpoint)
    (truncate : String → String) where
  -- One operation that does not throw. New identifiers are fresh.
  pub data Step : OutboundWebhookStore → OutboundWebhookStore → Type 0 where
    created :
        {s t : OutboundWebhookStore} (input e : OutboundWebhookEndpoint)
        → All (λ x. x.id ≢ input.id) s.endpoints
        → create_outbound_webhook_endpoint to_lower_case normalized input s ≡ ok (t, e)
        → Step s t
    updated :
        {s t : OutboundWebhookStore} (id : String) (input : UpdateOutboundWebhookEndpointInput)
        (now : ℕ) (e : OutboundWebhookEndpoint)
        → update_outbound_webhook_endpoint to_lower_case normalized id input now s ≡ ok (t, e)
        → Step s t
    deleted :
        {s t : OutboundWebhookStore} (id : String) (now : ℕ) (e : OutboundWebhookEndpoint)
        → delete_outbound_webhook_endpoint id now s ≡ ok (t, e)
        → Step s t
    enqueued :
        {s t : OutboundWebhookStore} (uuid : ℕ → String) (event : OutboundWebhookEvent)
        (options : EnqueueOptions) (result : EnqueueOutboundWebhookResult)
        → IsFresh uuid s.deliveries
        → enqueue_outbound_webhook_event uuid event options s ≡ ok (t, result)
        → Step s t
    claimed :
        {s : OutboundWebhookStore} (uuid : ℕ → String) (options : ClaimOptions)
        → Step s (claim_outbound_webhook_deliveries uuid options s).0
    completed :
        {s t : OutboundWebhookStore} (claim d : OutboundWebhookDelivery) (result : DeliveryResult)
        (endpoint : Option OutboundWebhookEndpoint) (now base : ℕ)
        → complete_outbound_webhook_delivery truncate claim result endpoint now base s ≡ ok (t, d)
        → Step s t
    retried :
        {s t : OutboundWebhookStore} (id : String) (now : ℕ)
        (result : RetryOutboundWebhookDeliveryResult)
        → retry_outbound_webhook_delivery id now s ≡ ok (t, result)
        → Step s t
    replayed :
        {s t : OutboundWebhookStore} (options : ReplayOptions) (result : ReplayResult)
        → replay_outbound_webhook_dead_letters options s ≡ ok (t, result)
        → Step s t
    reconciled :
        {s t : OutboundWebhookStore} (now : ℕ) (limit : Option ℕ) (dry_run : Bool)
        (result : ReconcileResult)
        → reconcile_outbound_webhook_deliveries now limit dry_run s ≡ ok (t, result)
        → Step s t
    pruned :
        {s t : OutboundWebhookStore} (options : PruneOptions) (result : PruneResult)
        → prune_outbound_webhook_deliveries options s ≡ ok (t, result)
        → Step s t
    reset :
        {s t : OutboundWebhookStore} (id : String) (runtime : OutboundWebhookEndpointRuntime)
        → reset_outbound_webhook_endpoint_circuit id s ≡ ok (t, runtime)
        → Step s t

  -- The versions that operations lead to from one version.
  pub data Reachable (start : OutboundWebhookStore) : OutboundWebhookStore → Type 0 where
    here : Reachable start start
    after : {s t : OutboundWebhookStore} → Reachable start s → Step s t → Reachable start t

  module _ (keeps : KeepsId normalized) where
    step-IsWellFormed : (s t : OutboundWebhookStore) → IsWellFormed s → Step s t → IsWellFormed t
    step-IsWellFormed s t wf (created input e fresh h) =
        AfterOk-ok Safe _ (t, e) (create-Safe to_lower_case normalized keeps input s wf fresh) h
    step-IsWellFormed s t wf (updated id input now e h) =
        AfterOk-ok Safe _ (t, e) (update-Safe to_lower_case normalized keeps id input now s wf) h
    step-IsWellFormed s t wf (deleted id now e h) =
        AfterOk-ok Safe _ (t, e) (delete-Safe s wf id now) h
    step-IsWellFormed s t wf (enqueued uuid event options result fresh h) =
        (enqueue_lem uuid event options s (t, result) fresh wf h).0
    step-IsWellFormed s t wf (claimed uuid options) = claim-Safe s wf uuid options
    step-IsWellFormed s t wf (completed claim d result endpoint now base h) =
        AfterOk-ok Safe _ (t, d) (complete-Safe s wf truncate claim result endpoint now base) h
    step-IsWellFormed s t wf (retried id now result h) =
        AfterOk-ok Safe _ (t, result) (retry-Safe s wf id now) h
    step-IsWellFormed s t wf (replayed options result h) =
        AfterOk-ok Safe _ (t, result) (replay-Safe s wf options) h
    step-IsWellFormed s t wf (reconciled now limit dry_run result h) =
        AfterOk-ok Safe _ (t, result) (reconcile-Safe s wf now limit dry_run) h
    step-IsWellFormed s t wf (pruned options result h) =
        AfterOk-ok Safe _ (t, result) (prune-Safe s wf options) h
    step-IsWellFormed s t wf (reset id runtime h) =
        AfterOk-ok Safe _ (t, runtime) (reset-Safe s wf id) h

-- Whatever operations run in whatever order, from a store with distinct endpoints and deliveries: the
-- identifiers of endpoints and of deliveries stay distinct, and no two deliveries are of one event to
-- one endpoint. New identifiers are fresh, and reading an endpoint's texts leaves its identifier.
pub reachable-IsWellFormed :
    (to_lower_case : String → String)
    (normalized : OutboundWebhookEndpoint → Option OutboundWebhookEndpoint)
    (truncate : String → String)
    → KeepsId normalized
    → (start s : OutboundWebhookStore) → IsWellFormed start
    → Reachable to_lower_case normalized truncate start s
    → IsWellFormed s
reachable-IsWellFormed to_lower_case normalized truncate keeps start s wf here = wf
reachable-IsWellFormed to_lower_case normalized truncate keeps start s wf
      (after {s = r} path step) =
    step-IsWellFormed to_lower_case normalized truncate keeps r s
      (reachable-IsWellFormed to_lower_case normalized truncate keeps start r wf path) step
