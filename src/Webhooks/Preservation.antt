-- ===== src/Webhooks/Preservation.antt =====
-- Every operation of the webhook store keeps it well-formed.
use listmonk_ops.Prelude.{
  ℕ, String, Option, some, Bool, Result, ok, err, AfterOk, bind-AfterOk, List, [], map, filter,
  find, same, ◌≡◌, ◌⊎◌, refl, sym, ap, ◌∙◌, ◌&&◌, arith, All, IsIn, Bool-cases, Option-cases, inl,
  inr, filter-Distinct, All-self, All-imp, All-map, filter-All, sort-All, take-All,
}
use listmonk_ops.Webhooks.{
  OutboundWebhookEndpoint, OutboundWebhookDelivery, OutboundWebhookStore, WebhookError,
  is_delivering, map_of, replace_deliveries, put_delivery,
}
use listmonk_ops.Webhooks.Completion.{
  DeliveryResult, completed_status, completed_delivery, complete_outbound_webhook_delivery,
  same_token,
}
use listmonk_ops.Webhooks.Queue.{key_of}
use listmonk_ops.Webhooks.Claiming.{
  ClaimOptions, leased_delivery, claim_outbound_webhook_deliveries, claimed_by_id,
}
use listmonk_ops.Webhooks.Replay.{
  ReplayOptions, retry_outbound_webhook_delivery, retry_decision, already_queued, refused, requeued,
  requeued_delivery, RetryDecision, has_enabled_endpoint, replay_outbound_webhook_dead_letters,
  resolve_maintenance_limit, dead_letters, is_dead_letter,
}
use listmonk_ops.Webhooks.Maintenance.{
  PruneOptions, reconcile_outbound_webhook_deliveries, reconcile_candidates, recovered_delivery,
  lease_is_over, prune_outbound_webhook_deliveries,
}
use listmonk_ops.Webhooks.Keys.{
  HasDistinctKeys, KeepsKeys-HasDistinctKeys, Replaces, IsIn-Replaces, replace-KeepsKeys,
  put-KeepsKeys, map_of-All, ids,
}
use listmonk_ops.Webhooks.Enqueue.{IsWellFormed}
use listmonk_ops.Webhooks.Leasing.{claimed-All}

-- The new store of an operation is well-formed.
abbrev pub Safe : {A : Type 0} → OutboundWebhookStore × A → Type 0
Safe (after, a) = IsWellFormed after

AfterOk-imp :
    {A : Type 0} (P Q : A → Type 0) (r : Result WebhookError A)
    → ((a : A) → P a → Q a)
    → AfterOk P r
    → AfterOk Q r
AfterOk-imp P Q (ok a) f h = f a h
AfterOk-imp P Q (err e) f h = tt

RetryDecision-cases : (r : RetryDecision) → (r ≡ already_queued) ⊎ ((r ≡ refused) ⊎ (r ≡ requeued))
RetryDecision-cases already_queued = inl refl
RetryDecision-cases refused = inr (inl refl)
RetryDecision-cases requeued = inr (inr refl)

module _ {κ} (P : OutboundWebhookDelivery → Type κ) where
  dead_letters-All :
      (options : ReplayOptions) (limit : ℕ) (ds : List OutboundWebhookDelivery)
      → All P ds
      → All P (dead_letters options limit ds)
  unfolding dead_letters
  dead_letters-All options limit ds h = elim (Option-cases options.delivery_ids) [
    | inl n ↦
        rw (n, dead_letters)
          (take-All P limit _ (
            sort-All P _ (filter (is_dead_letter options) ds)
              (filter-All P (is_dead_letter options) ds h)))
    | inr (ids, e) ↦ rw (e, dead_letters) (filter-All P _ ds h)
  ]

  candidates-All :
      (limit : ℕ) (ds : List OutboundWebhookDelivery)
      → All P ds
      → All P (reconcile_candidates limit ds)
  unfolding reconcile_candidates
  candidates-All limit ds h = take-All P limit _ (
      sort-All P _ (filter (λ d. is_delivering d.status) ds)
        (filter-All P (λ d. is_delivering d.status) ds h))

module _ (current : OutboundWebhookStore) (wf : IsWellFormed current) where
  replaced_Safe :
      (replacements : List OutboundWebhookDelivery)
      → All (Replaces current.deliveries) replacements
      → HasDistinctKeys (replace_deliveries replacements current.deliveries)
  replaced_Safe replacements h =
      KeepsKeys-HasDistinctKeys current.deliveries
        (replace_deliveries replacements current.deliveries)
        (replace-KeepsKeys replacements current.deliveries h) wf.0

  pub claim-Safe :
      (uuid : ℕ → String) (options : ClaimOptions)
      → IsWellFormed (claim_outbound_webhook_deliveries uuid options current).0
  unfolding claim_outbound_webhook_deliveries
  claim-Safe uuid options = (
    replaced_Safe (claimed_by_id uuid options current) (
        claimed-All (Replaces current.deliveries) uuid options current (λ d i c m.
          IsIn-Replaces current.deliveries d (leased_delivery options (uuid m) d) wf.0.0 i refl
            refl)),
    wf.1,
  )

  put_Safe :
      (id : String) (v d : OutboundWebhookDelivery)
      → find (λ x. same x.id id) current.deliveries ≡ some d
      → d.id ≡ v.id
      → key_of d ≡ key_of v
      → HasDistinctKeys (put_delivery id v current.deliveries)
  put_Safe id v d f e k =
      KeepsKeys-HasDistinctKeys current.deliveries (put_delivery id v current.deliveries)
        (put-KeepsKeys id v current.deliveries (λ x g.
          let x_is : x ≡ d = ground (arith, sym g ∙ f) in
          (ap (λ y. y.id) x_is ∙ e, ap key_of x_is ∙ k)))
        wf.0

  pub complete-Safe :
      (truncate : String → String) (claimed : OutboundWebhookDelivery) (result : DeliveryResult)
      (endpoint : Option OutboundWebhookEndpoint) (now base : ℕ)
      → AfterOk Safe
          (complete_outbound_webhook_delivery truncate claimed result endpoint now base current)
  unfolding complete_outbound_webhook_delivery completed_delivery
  complete-Safe truncate claimed result endpoint now base =
      elim (Option-cases (find (λ d. same d.id claimed.id) current.deliveries)) [
        | inl n ↦ rw (n, complete_outbound_webhook_delivery) tt
        | inr (latest, f) ↦
            elim (Bool-cases
              (is_delivering latest.status && same_token latest.lease_token claimed.lease_token)) [
                | inl b ↦
                    rw (f, b, complete_outbound_webhook_delivery)
                      (
                        put_Safe claimed.id
                            (completed_delivery truncate latest result
                              (completed_status latest result endpoint) now base)
                            latest f refl refl,
                        wf.1,
                      )
                | inr b ↦ rw (f, b, complete_outbound_webhook_delivery) tt
              ]
      ]

  pub retry-Safe :
      (id : String) (now : ℕ) → AfterOk Safe (retry_outbound_webhook_delivery id now current)
  unfolding retry_outbound_webhook_delivery
  retry-Safe id now = elim (Option-cases (find (λ d. same d.id id) current.deliveries)) [
    | inl n ↦ rw (n, retry_outbound_webhook_delivery) tt
    | inr (previous, f) ↦ elim (RetryDecision-cases (retry_decision previous.status)) [
      | inl q ↦ rw (f, q, retry_outbound_webhook_delivery) wf
      | inr (inl q) ↦ rw (f, q, retry_outbound_webhook_delivery) tt
      | inr (inr q) ↦
          elim (Bool-cases (has_enabled_endpoint current.endpoints previous.endpoint_id)) [
            | inl b ↦
                rw (f, q, b, retry_outbound_webhook_delivery)
                  (put_Safe id (requeued_delivery now previous) previous f refl refl, wf.1)
            | inr b ↦ rw (f, q, b, retry_outbound_webhook_delivery) tt
          ]
    ]
  ]

  -- A map of replacements that were computed from deliveries of the store.
  mapped_Safe :
      (f : OutboundWebhookDelivery → OutboundWebhookDelivery) (ds : List OutboundWebhookDelivery)
      → ((d : OutboundWebhookDelivery) → (d.id ≡ (f d).id) × (key_of d ≡ key_of (f d)))
      → All (λ d. IsIn d current.deliveries) ds
      → HasDistinctKeys (replace_deliveries (map_of [] (map f ds)) current.deliveries)
  mapped_Safe f ds k h = replaced_Safe (map_of [] (map f ds)) (
      map_of-All (Replaces current.deliveries) [] (map f ds) tt (
        All-map f (Replaces current.deliveries) ds (
          All-imp (λ d. IsIn d current.deliveries) (λ d. Replaces current.deliveries (f d)) ds
            (λ d i. IsIn-Replaces current.deliveries d (f d) wf.0.0 i (k d).0 (k d).1) h)))

  pub replay-Safe :
      (options : ReplayOptions)
      → AfterOk Safe (replay_outbound_webhook_dead_letters options current)
  unfolding replay_outbound_webhook_dead_letters
  replay-Safe options = bind-AfterOk Safe (resolve_maintenance_limit options.limit) _ (λ limit e.
      elim (Bool-cases options.dry_run) [
        | inl b ↦ rw b wf
        | inr b ↦
            let is_enabled = λ (d : OutboundWebhookDelivery).
              has_enabled_endpoint current.endpoints d.endpoint_id in
            let found = dead_letters options limit current.deliveries in
            rw b (
              mapped_Safe (requeued_delivery options.now) (filter is_enabled found)
                  (λ d. (refl, refl))
                  (filter-All (λ d. IsIn d current.deliveries) is_enabled found
                    (dead_letters-All (λ d. IsIn d current.deliveries) options limit
                      current.deliveries (All-self current.deliveries))),
              wf.1,
            )
      ])

  pub reconcile-Safe :
      (now : ℕ) (limit : Option ℕ) (dry_run : Bool)
      → AfterOk Safe (reconcile_outbound_webhook_deliveries now limit dry_run current)
  unfolding reconcile_outbound_webhook_deliveries recovered_delivery
  reconcile-Safe now limit dry_run = bind-AfterOk Safe (resolve_maintenance_limit limit) _ (λ n e.
      elim (Bool-cases dry_run) [
        | inl b ↦ rw b wf
        | inr b ↦
            let candidates = reconcile_candidates n current.deliveries in
            rw b (
              mapped_Safe (recovered_delivery current.endpoints now)
                  (filter (lease_is_over now) candidates) (λ d. (refl, refl))
                  (filter-All (λ d. IsIn d current.deliveries) (lease_is_over now) candidates
                    (candidates-All (λ d. IsIn d current.deliveries) n current.deliveries
                      (All-self current.deliveries))),
              wf.1,
            )
      ])

  pub prune-Safe :
      (options : PruneOptions) → AfterOk Safe (prune_outbound_webhook_deliveries options current)
  unfolding prune_outbound_webhook_deliveries
  prune-Safe options = bind-AfterOk Safe (resolve_maintenance_limit options.limit) _ (λ n e.
      elim (Bool-cases options.dry_run) [
        | inl b ↦ rw b wf
        | inr b ↦ rw b (
          (
            filter-Distinct (λ d. d.id) _ current.deliveries wf.0.0,
            filter-Distinct key_of _ current.deliveries wf.0.1,
          ),
          wf.1,
        )
      ])
