-- ===== src/Webhooks/Enqueue.antt =====
-- `enqueueOutboundWebhookEvent` as a whole: who gets the event, and what the store keeps.
use listmonk_ops.Prelude.{
  ℕ, suc, ◌≤◌, String, true, false, ok, AfterOk, AfterOk-ok, bind-AfterOk, List, [], ◌∷◌, ◌++◌, map,
  length, ◌≡◌, ◌⊎◌, refl, sym, ap, ◌∙◌, arith, IsIn, Distinct, Bool-cases, inl, inr,
  filter-Distinct, All, All-IsIn, IsIn-left, IsIn-right,
}
use listmonk_ops.Webhooks.{
  OutboundWebhookEvent, OutboundWebhookEndpoint, OutboundWebhookDelivery, OutboundWebhookStore,
  pending, is_terminal,
}
use listmonk_ops.Webhooks.Queue.{
  has, or_number, delivery_key, key_of, resolve_store_limit, matched_endpoints, queued_deliveries,
  new_delivery, prune_deliveries, enqueue_outbound_webhook_event, EnqueueOptions,
  EnqueueOutboundWebhookResult,
}
use listmonk_ops.Webhooks.Keys.{HasDistinctKeys, keys}
use listmonk_ops.Webhooks.Queueing.{IsFresh, queued-All, queued-HasDistinctKeys, prune-Keeps}
use listmonk_ops.Webhooks.Targets.{IsTarget, matched-IsTarget, IsTarget-matched}

-- Distinct endpoints, and distinct deliveries.
abbrev pub IsWellFormed : OutboundWebhookStore → Type 0
IsWellFormed store = HasDistinctKeys store.deliveries × Distinct (map (λ e. e.id) store.endpoints)

-- A delivery of the event to the endpoint that waits for a worker.
abbrev pub IsQueued :
    OutboundWebhookEvent → OutboundWebhookEndpoint → List OutboundWebhookDelivery → Type 0
IsQueued event e ds =
    (d : OutboundWebhookDelivery) × IsIn d ds
    × (key_of d ≡ delivery_key event.id e.id)
    × (d.status ≡ pending)

queued_deliveries-IsQueued :
    (uuid : ℕ → String) (n : ℕ) (existing : List String) (event : OutboundWebhookEvent) (now : ℕ)
    (es : List OutboundWebhookEndpoint) (e : OutboundWebhookEndpoint)
    → IsIn e es
    → has existing (delivery_key event.id e.id) ≡ false
    → IsQueued event e (queued_deliveries uuid n existing event now es)
unfolding queued_deliveries
queued_deliveries-IsQueued uuid n existing event now [] e i h = absurd i
queued_deliveries-IsQueued uuid n existing event now (x ∷ es) e (inl q) h =
    let b : has existing (delivery_key event.id x.id) ≡ false =
      ap (λ (y : OutboundWebhookEndpoint). has existing (delivery_key event.id y.id)) (sym q) ∙ h in
    rw (b, queued_deliveries)
      (
        new_delivery (uuid n) event x.id now,
        inl refl,
        ap (λ (y : OutboundWebhookEndpoint). delivery_key event.id y.id) (sym q),
        refl,
      )
queued_deliveries-IsQueued uuid n existing event now (x ∷ es) e (inr i) h =
    elim (Bool-cases (has existing (delivery_key event.id x.id))) [
      | inl b ↦
          rw (b, queued_deliveries) (queued_deliveries-IsQueued uuid n existing event now es e i h)
      | inr b ↦
          let (d, j, key, waits) =
            queued_deliveries-IsQueued uuid (suc n) existing event now es e i h in
          rw (b, queued_deliveries) (d, inr j, key, waits)
    ]

module _ (uuid : ℕ → String) (event : OutboundWebhookEvent) (options : EnqueueOptions)
    (current : OutboundWebhookStore) where
  abbrev pub targets : List OutboundWebhookEndpoint
  targets =
      matched_endpoints options.endpoint_ids options.bypass_event_filters event current.endpoints

  abbrev new_deliveries : List OutboundWebhookDelivery
  new_deliveries = queued_deliveries uuid 0 (keys current.deliveries) event options.now targets

  abbrev limit : ℕ
  limit = or_number options.limit 5_000

  -- A waiting delivery of the event to an endpoint that it is for.
  abbrev pub IsForTarget : OutboundWebhookDelivery → Type 0
  IsForTarget d =
      (e : OutboundWebhookEndpoint) × IsIn e current.endpoints
      × IsTarget event options e
      × (d.endpoint_id ≡ e.id)
      × (d.event ≡ event)
      × (d.status ≡ pending)

  new_deliveries-ForTarget : All IsForTarget new_deliveries
  new_deliveries-ForTarget =
      queued-All uuid (keys current.deliveries) event options.now IsForTarget 0 targets
        (λ m e le b i.
          let (j, target) = matched-IsTarget event options current.endpoints e i in
          (e, j, target, refl, refl, refl))

  IsIn-append :
      (xs ys : List OutboundWebhookDelivery) (d : OutboundWebhookDelivery)
      → IsIn d (xs ++ ys)
      → IsIn d xs ⊎ IsIn d ys
  IsIn-append [] ys d i = inr i
  IsIn-append (x ∷ xs) ys d (inl e) = inl (inl e)
  IsIn-append (x ∷ xs) ys d (inr i) = elim (IsIn-append xs ys d i) [
    | inl j ↦ inl (inr j)
    | inr j ↦ inr j
  ]

  come_from :
      (d : OutboundWebhookDelivery)
      → IsIn d (current.deliveries ++ new_deliveries)
      → IsIn d current.deliveries ⊎ IsForTarget d
  come_from d i = elim (IsIn-append current.deliveries new_deliveries d i) [
    | inl j ↦ inl j
    | inr j ↦ inr (All-IsIn IsForTarget new_deliveries d new_deliveries-ForTarget j)
  ]

  -- What a store is after the event.
  abbrev pub Enqueued : OutboundWebhookStore × EnqueueOutboundWebhookResult → Type 0
  Enqueued (after, result) =
      IsWellFormed after
      × (length after.deliveries ≤ limit)
      × ((d : OutboundWebhookDelivery)
          → IsIn d current.deliveries
          → is_terminal d.status ≡ false
          → IsIn d after.deliveries)
      × ((e : OutboundWebhookEndpoint)
          → IsIn e current.endpoints
          → IsTarget event options e
          → (has (keys current.deliveries) (delivery_key event.id e.id) ≡ true)
            ⊎ IsQueued event e after.deliveries)
      × ((d : OutboundWebhookDelivery)
          → IsIn d after.deliveries
          → IsIn d current.deliveries ⊎ IsForTarget d)

  kept-IsQueued :
      (after : List OutboundWebhookDelivery)
      → ((d : OutboundWebhookDelivery)
          → IsIn d (current.deliveries ++ new_deliveries)
          → is_terminal d.status ≡ false
          → IsIn d after)
      → (e : OutboundWebhookEndpoint) → IsIn e targets
      → (has (keys current.deliveries) (delivery_key event.id e.id) ≡ true) ⊎ IsQueued event e after
  kept-IsQueued after keeps e i =
      elim (Bool-cases (has (keys current.deliveries) (delivery_key event.id e.id))) [
        | inl b ↦ inl b
        | inr b ↦
            let (d, j, key, waits) =
              queued_deliveries-IsQueued uuid 0 (keys current.deliveries) event options.now targets
                e i b in
            inr (
              d,
              keeps d (IsIn-right current.deliveries new_deliveries d j) (rw waits refl),
              key,
              waits,
            )
      ]

  resolve_store_limit_value : (n : ℕ) → resolve_store_limit options.limit ≡ ok n → n ≡ limit
  unfolding resolve_store_limit
  resolve_store_limit_value n e = ground arith

  pub enqueue-Enqueued :
      IsFresh uuid current.deliveries
      → IsWellFormed current
      → AfterOk Enqueued (enqueue_outbound_webhook_event uuid event options current)
  unfolding enqueue_outbound_webhook_event matched_endpoints
  enqueue-Enqueued fresh wf = bind-AfterOk Enqueued (resolve_store_limit options.limit) _ (λ n e.
      bind-AfterOk Enqueued (prune_deliveries (current.deliveries ++ new_deliveries) n) _
        (λ after k.
          let distinct =
            queued-HasDistinctKeys uuid event options.now current.deliveries targets fresh
              (filter-Distinct (λ e. e.id) _ current.endpoints wf.1) wf.0 in
          let (bound, well, keeps, origin) =
            prune-Keeps (current.deliveries ++ new_deliveries) after n distinct k in
          (
            (well, wf.1),
            omega (arith, bound, resolve_store_limit_value n e),
            (λ d i t. keeps d (IsIn-left current.deliveries new_deliveries d i) t),
            (λ e i t.
                kept-IsQueued after keeps e
                  (IsTarget-matched event options current.endpoints e i t)),
            (λ d i. come_from d (origin d i)),
          )))

-- An event that is queued leaves at most the limit of deliveries, all distinct, and no unfinished
-- delivery is removed for it. Each endpoint that the event is for (it is enabled, selected if the caller
-- selects, and has a filter that fits unless filters are bypassed) has a waiting delivery of it, unless
-- a delivery of the event to the endpoint was there before; and every delivery that was not there
-- before is a waiting one of the event to such an endpoint. The new identifiers are fresh, and the store
-- before is well-formed.
pub enqueue_lem :
    (uuid : ℕ → String) (event : OutboundWebhookEvent) (options : EnqueueOptions)
    (current : OutboundWebhookStore) (after : OutboundWebhookStore × EnqueueOutboundWebhookResult)
    → IsFresh uuid current.deliveries
    → IsWellFormed current
    → enqueue_outbound_webhook_event uuid event options current ≡ ok after
    → Enqueued uuid event options current after
enqueue_lem uuid event options current after fresh wf e =
    AfterOk-ok (Enqueued uuid event options current)
      (enqueue_outbound_webhook_event uuid event options current) after
      (enqueue-Enqueued uuid event options current fresh wf) e
