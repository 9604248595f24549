-- ===== src/Webhooks/Retention.antt =====
-- Pruning and the deletion of an endpoint: what they remove and what they leave.
use listmonk_ops.Prelude.{
  ℕ, String, some, true, false, ok, AfterOk, AfterOk-ok, bind-AfterOk, List, [], ◌∷◌, map, filter,
  find, same, not, ◌<◌, ◌≡◌, ◌≢◌, ◌⊎◌, refl, sym, ap, ◌∙◌, ◌&&◌, arith, All, IsIn, Bool-cases,
  Option-cases, inl, inr, All-IsIn, All-imp, All-map, filtered, filter_keeps, sort-All, take-All,
  any-same_iff,
}
use listmonk_ops.Webhooks.{
  OutboundWebhookDelivery, OutboundWebhookEndpoint, OutboundWebhookStore, is_terminal,
}
use listmonk_ops.Webhooks.Queue.{has}
use listmonk_ops.Webhooks.Claiming.{ClaimOptions, claimed_by_id}
use listmonk_ops.Webhooks.Maintenance.{
  PruneOptions, PruneResult, matches_cutoff, prune_candidates, prune_outbound_webhook_deliveries,
}
use listmonk_ops.Webhooks.Replay.{resolve_maintenance_limit}
use listmonk_ops.Webhooks.Endpoints.{delete_outbound_webhook_endpoint, exhaust_delivery}
use listmonk_ops.Webhooks.Keys.{Distinct-unique}
use listmonk_ops.Webhooks.Enqueue.{IsWellFormed}
use listmonk_ops.Webhooks.Leasing.{claimed-All, IsFree, due_IsFree, claimable_due}

-- Old finished deliveries, the only ones that pruning may remove.
abbrev pub IsOld : ℕ → OutboundWebhookDelivery → Type 0
IsOld before d =
    (is_terminal d.status ≡ true) × ((t : ℕ) × (d.completed_at ≡ some t) × (t < before))

candidates_match :
    (options : PruneOptions) (limit : ℕ) (ds : List OutboundWebhookDelivery)
    → All
        (λ d. IsIn d ds × (matches_cutoff options.before d ≡ true))
        (prune_candidates options limit ds)
unfolding prune_candidates
candidates_match options limit ds =
    let P = λ (d : OutboundWebhookDelivery). IsIn d ds × (matches_cutoff options.before d ≡ true) in
    elim (Option-cases options.ids) [
      | inl n ↦
          let found = filter (matches_cutoff options.before) ds in
          rw (n, prune_candidates)
            (take-All P limit _ (sort-All P _ found (filtered (matches_cutoff options.before) ds)))
      | inr (wanted, e) ↦
          let p =
            λ (d : OutboundWebhookDelivery). has wanted d.id && matches_cutoff options.before d in
          rw (e, prune_candidates)
            (All-imp (λ d. IsIn d ds × (p d ≡ true)) P (filter p ds)
              (λ d k. (k.0, ground (arith, k.1))) (filtered p ds))
    ]

-- What pruning leaves: every delivery that is unfinished, or finished at the cutoff or later.
abbrev KeepsRecent :
    PruneOptions → OutboundWebhookStore → OutboundWebhookStore × PruneResult → Type 0
KeepsRecent options current (after, result) =
    (d : OutboundWebhookDelivery)
    → IsIn d current.deliveries
    → matches_cutoff options.before d ≡ false
    → IsIn d after.deliveries

prune-KeepsRecent :
    (options : PruneOptions) (current : OutboundWebhookStore)
    → IsWellFormed current
    → AfterOk (KeepsRecent options current) (prune_outbound_webhook_deliveries options current)
unfolding prune_outbound_webhook_deliveries
prune-KeepsRecent options current wf =
    bind-AfterOk (KeepsRecent options current) (resolve_maintenance_limit options.limit) _
      (λ limit e. elim (Bool-cases options.dry_run) [
        | inl b ↦ rw b (λ d i h. i)
        | inr b ↦ rw b (λ d i h.
            let found = prune_candidates options limit current.deliveries in
            let P = λ (x : OutboundWebhookDelivery). x.id ≢ d.id in
            let others =
              All-imp (λ x. IsIn x current.deliveries × (matches_cutoff options.before x ≡ true)) P
                found
                (λ x k q.
                  let x_is : x ≡ d = Distinct-unique current.deliveries x d wf.0.0 k.0 i q in
                  ground (arith, sym k.1 ∙ ap (matches_cutoff options.before) x_is ∙ h))
                (candidates_match options limit current.deliveries) in
            filter_keeps (λ x. not (has (map (λ y. y.id) found) x.id)) current.deliveries d
              (rw
                ((any-same_iff (map (λ y. y.id) found) d.id).1
                  (All-map (λ y. y.id) (λ s. s ≢ d.id) found others))
                refl)
              i)
      ])

-- Pruning removes no delivery but those that are finished, and were before the cutoff.
pub prune_lem :
    (options : PruneOptions) (current after : OutboundWebhookStore) (result : PruneResult)
    (d : OutboundWebhookDelivery)
    → IsWellFormed current
    → prune_outbound_webhook_deliveries options current ≡ ok (after, result)
    → IsIn d current.deliveries
    → IsIn d after.deliveries ⊎ IsOld options.before d
prune_lem options current after result d wf e i =
    elim (Bool-cases (matches_cutoff options.before d)) [
      | inl b ↦ inr (old d b)
      | inr b ↦ inl (
          AfterOk-ok (KeepsRecent options current)
            (prune_outbound_webhook_deliveries options current) (after, result)
            (prune-KeepsRecent options current wf) e d i b)
    ]
  where
    old :
        (x : OutboundWebhookDelivery)
        → matches_cutoff options.before x ≡ true
        → IsOld options.before x
    old x b = elim (Option-cases x.completed_at) [
      | inl n ↦ absurd (ground arith)
      | inr (t, k) ↦ (ground arith, (t, k, ground arith))
    ]

-- No unfinished delivery is for the endpoint.
abbrev HasNone : String → {A : Type 0} → OutboundWebhookStore × A → Type 0
HasNone id (after, a) =
    All (λ d. (is_terminal d.status ≡ true) ⊎ (d.endpoint_id ≢ id)) after.deliveries

exhausted-All :
    (id : String) (now : ℕ) (ds : List OutboundWebhookDelivery)
    → All
        (λ d. (is_terminal d.status ≡ true) ⊎ (d.endpoint_id ≢ id))
        (map (exhaust_delivery id now) ds)
exhausted-All id now [] = tt
exhausted-All id now (d ∷ ds) = (
  elim (Bool-cases (same d.endpoint_id id && not (is_terminal d.status))) [
    | inl b ↦ rw b (inl refl)
    | inr b ↦ rw b (ground arith)
  ],
  exhausted-All id now ds,
)

delete-HasNone :
    (id : String) (now : ℕ) (current : OutboundWebhookStore)
    → AfterOk (HasNone id) (delete_outbound_webhook_endpoint id now current)
unfolding delete_outbound_webhook_endpoint
delete-HasNone id now current = elim (Option-cases (find (λ e. same e.id id) current.endpoints)) [
  | inl n ↦ rw (n, delete_outbound_webhook_endpoint) tt
  | inr (e, f) ↦ rw (f, delete_outbound_webhook_endpoint) (exhausted-All id now current.deliveries)
]

-- Once an endpoint is deleted, no claim of that version of the store takes a delivery for it.
pub delete-claim :
    (id : String) (now : ℕ) (current after : OutboundWebhookStore) (e : OutboundWebhookEndpoint)
    (uuid : ℕ → String) (options : ClaimOptions)
    → delete_outbound_webhook_endpoint id now current ≡ ok (after, e)
    → All (λ d. d.endpoint_id ≢ id) (claimed_by_id uuid options after)
delete-claim id now current after e uuid options h =
    let none_for =
      AfterOk-ok (HasNone id) (delete_outbound_webhook_endpoint id now current) (after, e)
        (delete-HasNone id now current) h in
    claimed-All (λ d. d.endpoint_id ≢ id) uuid options after
      (λ d i c m.
        elim (All-IsIn (λ x. (is_terminal x.status ≡ true) ⊎ (x.endpoint_id ≢ id)) after.deliveries
          d none_for i) [
            | inl done ↦ absurd (
                free_unfinished options.now d done
                  (due_IsFree options.now d (claimable_due after.endpoint_runtime options d c).0))
            | inr other ↦ other
          ])
  where
    free_unfinished :
        (at : ℕ) (d : OutboundWebhookDelivery) → is_terminal d.status ≡ true → IsFree at d → ⊥
    free_unfinished at d done (inl (f, g, k)) = ground arith
    free_unfinished at d done (inr (f, k)) = ground arith
