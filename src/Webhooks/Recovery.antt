-- ===== src/Webhooks/Recovery.antt =====
-- Workers that come too late, recovered leases, and what maintenance leaves alone.
use listmonk_ops.Prelude.{
  ℕ, String, Option, none, some, Bool, true, false, Result, ok, err, AfterOk, AfterOk-ok,
  bind-AfterOk, List, [], map, filter, find, same, ◌≡◌, ◌≢◌, ◌⊎◌, refl, sym, ap, subst, ◌∙◌, ◌&&◌,
  arith, ◌<◌, leb, length, if◌then◌else◌, filter_keeps, first_or_count, All, IsIn, Bool-cases,
  Option-cases, inl, inr, All-self, All-imp, All-map, filter-All, filtered, filter_passes, both-All,
  sort-All, take-All,
}
use listmonk_ops.Webhooks.{
  OutboundWebhookDelivery, OutboundWebhookEndpoint, OutboundWebhookStore, WebhookError,
  lease_conflict, delivery_not_found, is_delivering, map_get, map_of, retry, exhausted,
  replace_deliveries,
}
use listmonk_ops.Webhooks.Completion.{
  DeliveryResult, same_token, complete_outbound_webhook_delivery,
}
use listmonk_ops.Webhooks.Claiming.{
  ClaimOptions, endpoint_by_id, claimed_by_id, claim_outbound_webhook_deliveries,
}
use listmonk_ops.Webhooks.Maintenance.{
  ReconcileResult, lease_is_over, reconcile_candidates, recovered_delivery, can_retry,
  reconcile_outbound_webhook_deliveries, lease_time,
}
use listmonk_ops.Webhooks.Queue.{or_number}
use listmonk_ops.Webhooks.Replay.{resolve_maintenance_limit}
use listmonk_ops.Webhooks.Keys.{find-passes, map_of-All, Distinct-unique}
use listmonk_ops.Webhooks.Enqueue.{IsWellFormed}
use listmonk_ops.Webhooks.Replacements.{
  find_absent, unreplaced-IsIn, replaced-IsIn, map-IsIn, map_of-finds,
}
use listmonk_ops.Webhooks.Leasing.{claimed-All, replaced-All}

-- What a worker can get for a claim that it lost.
abbrev pub IsRefused : Result WebhookError (OutboundWebhookStore × OutboundWebhookDelivery) → Type 0
IsRefused r = (r ≡ err lease_conflict) ⊎ (r ≡ err delivery_not_found)

same_token-true : (a b : Option String) → same_token a b ≡ true → a ≡ b
same_token-true a b h = ground arith

-- A completion is refused where every delivery of the identifier has another token.
other_token-IsRefused :
    (truncate : String → String) (d : OutboundWebhookDelivery) (result : DeliveryResult)
    (endpoint : Option OutboundWebhookEndpoint) (now base : ℕ) (current : OutboundWebhookStore)
    → All (λ x. x.id ≡ d.id → x.lease_token ≢ d.lease_token) current.deliveries
    → IsRefused (complete_outbound_webhook_delivery truncate d result endpoint now base current)
unfolding complete_outbound_webhook_delivery
other_token-IsRefused truncate d result endpoint now base current h =
    elim (Option-cases (find (λ x. same x.id d.id) current.deliveries)) [
      | inl n ↦ rw (n, complete_outbound_webhook_delivery) (inr refl)
      | inr (latest, f) ↦
          let (other, same_id) =
            find-passes (λ x. x.id ≡ d.id → x.lease_token ≢ d.lease_token) d.id current.deliveries
              latest h f in
          elim (Bool-cases
            (is_delivering latest.status && same_token latest.lease_token d.lease_token)) [
              | inl b ↦
                  absurd (
                    other same_id (same_token-true latest.lease_token d.lease_token (ground arith)))
              | inr b ↦ rw (f, b, complete_outbound_webhook_delivery) (inl refl)
            ]
    ]

-- A worker whose delivery has been claimed again, its lease being over, cannot store its result: the
-- store refuses the completion. The tokens of the later claim are new.
pub claim-IsRefused :
    (uuid : ℕ → String) (options : ClaimOptions) (current : OutboundWebhookStore)
    (truncate : String → String) (d v : OutboundWebhookDelivery) (result : DeliveryResult)
    (endpoint : Option OutboundWebhookEndpoint) (now base : ℕ)
    → ((i : ℕ) → some (uuid i) ≢ d.lease_token)
    → map_get (claimed_by_id uuid options current) d.id ≡ some v
    → IsRefused (
        complete_outbound_webhook_delivery truncate d result endpoint now base
          (claim_outbound_webhook_deliveries uuid options current).0)
unfolding claim_outbound_webhook_deliveries
claim-IsRefused uuid options current truncate d v result endpoint now base fresh taken =
    let IsOther = λ (x : OutboundWebhookDelivery). x.id ≡ d.id → x.lease_token ≢ d.lease_token in
    let claimed = claimed_by_id uuid options current in
    let none_left =
      All-imp (λ x. IsIn x current.deliveries) (λ x. map_get claimed x.id ≡ none → IsOther x)
        current.deliveries
        (λ x i n same_id.
          absurd (ground (arith, sym taken ∙ ap (map_get claimed) (sym same_id) ∙ n)))
        (All-self current.deliveries) in
    other_token-IsRefused truncate d result endpoint now base
      (claim_outbound_webhook_deliveries uuid options current).0
      (replaced-All IsOther claimed current.deliveries
        (claimed-All IsOther uuid options current (λ x i c m same_id. fresh m)) none_left)

-- A delivery that no recovery touches: no worker has it, or its lease lasts.
abbrev pub IsLive : ℕ → OutboundWebhookDelivery → Type 0
IsLive now d = (is_delivering d.status ≡ false) ⊎ (lease_is_over now d ≡ false)

-- The delivery stands released in a store: without a worker and without a token, to be tried again if its
-- endpoint is enabled and has attempts left, and exhausted if not.
abbrev pub IsReleased :
    List OutboundWebhookEndpoint → OutboundWebhookDelivery → List OutboundWebhookDelivery → Type 0
IsReleased endpoints d after =
    (v : OutboundWebhookDelivery) × IsIn v after
    × (v.id ≡ d.id)
    × (v.lease_token ≡ none)
    × (v.status
        ≡ (if can_retry (endpoint_by_id endpoints d.endpoint_id) d then retry else exhausted))

-- The deliveries with a worker whose lease is as old as that of a delivery, or older.
abbrev pub as_old : OutboundWebhookDelivery → List OutboundWebhookDelivery → ℕ
as_old d ds =
    length
      (filter (λ x. leb (lease_time x) (lease_time d)) (filter (λ x. is_delivering x.status) ds))

-- What becomes of the leases that are over: a dry run changes nothing; any other run releases them, but
-- for those that more leases than the limit precede.
abbrev pub Releases : Bool → ℕ → ℕ → OutboundWebhookStore → OutboundWebhookStore → Type 0
Releases true limit now current after = after ≡ current
Releases false limit now current after =
    (d : OutboundWebhookDelivery)
    → IsIn d current.deliveries
    → is_delivering d.status ≡ true
    → lease_is_over now d ≡ true
    → IsReleased current.endpoints d after.deliveries ⊎ (limit < as_old d current.deliveries)

-- What a recovery leaves: the deliveries of the store, and released ones.
abbrev pub Recovered :
    ℕ → Option ℕ → Bool → OutboundWebhookStore → OutboundWebhookStore × ReconcileResult → Type 0
Recovered now limit dry_run current (after, result) =
    ((d : OutboundWebhookDelivery)
      → IsIn d current.deliveries
      → IsLive now d
      → IsIn d after.deliveries)
    × All
        (λ d.
          IsIn d current.deliveries ⊎ ((is_delivering d.status ≡ false) × (d.lease_token ≡ none)))
        after.deliveries
    × Releases dry_run (or_number limit 100) now current after

recovered_ends :
    (endpoints : List OutboundWebhookEndpoint) (now : ℕ) (d : OutboundWebhookDelivery)
    → is_delivering (recovered_delivery endpoints now d).status ≡ false
unfolding recovered_delivery
recovered_ends endpoints now d =
    elim (Bool-cases (can_retry (endpoint_by_id endpoints d.endpoint_id) d)) [
      | inl b ↦ rw (b, recovered_delivery) refl
      | inr b ↦ rw (b, recovered_delivery) refl
    ]

resolve_maintenance_limit_value :
    (limit : Option ℕ) (n : ℕ) → resolve_maintenance_limit limit ≡ ok n → n ≡ or_number limit 100
unfolding resolve_maintenance_limit
resolve_maintenance_limit_value limit n e = ground arith

module _ (now : ℕ) (current : OutboundWebhookStore) (wf : IsWellFormed current) where
  abbrev overdue : ℕ → List OutboundWebhookDelivery
  overdue limit = filter (lease_is_over now) (reconcile_candidates limit current.deliveries)

  -- A recovery takes up deliveries of the store with a lease that is over.
  overdue_origin :
      (limit : ℕ)
      → All
          (λ d.
            IsIn d current.deliveries
            × (is_delivering d.status ≡ true)
            × (lease_is_over now d ≡ true))
          (overdue limit)
  unfolding reconcile_candidates
  overdue_origin limit =
      let IsTaken = λ (d : OutboundWebhookDelivery).
        IsIn d current.deliveries × (is_delivering d.status ≡ true) in
      let taken = filter (λ d. is_delivering d.status) current.deliveries in
      let candidates : All IsTaken (reconcile_candidates limit current.deliveries) =
        take-All IsTaken limit _
          (sort-All IsTaken _ taken (filtered (λ d. is_delivering d.status) current.deliveries)) in
      All-imp (λ d. IsTaken d × (lease_is_over now d ≡ true)) _ (overdue limit)
        (λ d h. (h.0.0, h.0.1, h.1))
        (both-All IsTaken (λ d. lease_is_over now d ≡ true) (overdue limit)
          (filter-All IsTaken (lease_is_over now) (reconcile_candidates limit current.deliveries)
            candidates)
          (filter_passes (lease_is_over now) (reconcile_candidates limit current.deliveries)))

  abbrev replacements : ℕ → List OutboundWebhookDelivery
  replacements limit = map_of [] (map (recovered_delivery current.endpoints now) (overdue limit))

  -- No replacement has the identifier of a delivery that stays.
  live_absent :
      (limit : ℕ) (d : OutboundWebhookDelivery)
      → IsIn d current.deliveries
      → IsLive now d
      → map_get (replacements limit) d.id ≡ none
  unfolding recovered_delivery
  live_absent limit d i live =
      let P = λ (x : OutboundWebhookDelivery). x.id ≢ d.id in
      let recover = recovered_delivery current.endpoints now in
      find_absent d.id (replacements limit) (
        map_of-All P [] (map recover (overdue limit)) tt (
          All-map recover P (overdue limit) (
            All-imp _ (λ x. P (recover x)) (overdue limit)
              (λ x h q. not_both x h.1 h.2 (
                subst (IsLive now) (sym (Distinct-unique current.deliveries x d wf.0.0 h.0 i q))
                  live))
              (overdue_origin limit))))
    where
      not_both :
          (x : OutboundWebhookDelivery)
          → is_delivering x.status ≡ true
          → lease_is_over now x ≡ true
          → IsLive now x
          → ⊥
      not_both x a b (inl c) = ground arith
      not_both x a b (inr c) = ground arith

  IsKept : OutboundWebhookDelivery → Type 0
  IsKept d = IsIn d current.deliveries ⊎ ((is_delivering d.status ≡ false) × (d.lease_token ≡ none))

  -- The replacement of a delivery that is taken up is its recovery.
  overdue-IsReleased :
      (limit : ℕ) (d : OutboundWebhookDelivery)
      → IsIn d current.deliveries
      → IsIn d (overdue limit)
      → IsReleased current.endpoints d (replace_deliveries (replacements limit) current.deliveries)
  unfolding recovered_delivery
  overdue-IsReleased limit d i taken =
      let recover = recovered_delivery current.endpoints now in
      let Is = λ (v : OutboundWebhookDelivery). v.id ≡ d.id → v ≡ recover d in
      let all_are : All Is (replacements limit) =
        map_of-All Is [] (map recover (overdue limit)) tt (
          All-map recover Is (overdue limit) (
            All-imp _ (λ x. Is (recover x)) (overdue limit)
              (λ x h q. ap recover (Distinct-unique current.deliveries x d wf.0.0 h.0 i q))
              (overdue_origin limit))) in
      elim (Option-cases (map_get (replacements limit) d.id)) [
        | inl n ↦ absurd (
            map_of-finds [] (map recover (overdue limit)) (recover d)
              (inl (map-IsIn recover (overdue limit) d taken)) n)
        | inr (v, f) ↦
            let (is, same_id) = find-passes Is d.id (replacements limit) v all_are f in
            let v_is : v ≡ recover d = is same_id in
            (
              v,
              replaced-IsIn (replacements limit) current.deliveries d v f i,
              same_id,
              ap (λ (x : OutboundWebhookDelivery). x.lease_token) v_is,
              ap (λ (x : OutboundWebhookDelivery). x.status) v_is,
            )
      ]

  reconcile-Releases :
      (limit : ℕ)
      → Releases false limit now current (record current {
        deliveries = replace_deliveries (replacements limit) current.deliveries;
      })
  unfolding reconcile_candidates
  reconcile-Releases limit d i working over =
      let active = filter (λ x. is_delivering x.status) current.deliveries in
      let is_active = filter_keeps (λ x. is_delivering x.status) current.deliveries d working i in
      elim (first_or_count lease_time limit active d is_active) [
        | inl j ↦ inl (
            overdue-IsReleased limit d i (
              filter_keeps (lease_is_over now) (reconcile_candidates limit current.deliveries) d
                over j))
        | inr m ↦ inr m
      ]

  reconcile-Recovered :
      (limit : Option ℕ) (dry_run : Bool)
      → AfterOk
          (Recovered now limit dry_run current)
          (reconcile_outbound_webhook_deliveries now limit dry_run current)
  unfolding reconcile_outbound_webhook_deliveries recovered_delivery IsKept
  reconcile-Recovered limit dry_run =
      bind-AfterOk (Recovered now limit dry_run current) (resolve_maintenance_limit limit) _ (λ n e.
        elim (Bool-cases dry_run) [
          | inl b ↦ rw b (
            (λ d i h. i),
            All-imp (λ d. IsIn d current.deliveries) _ current.deliveries (λ d i. inl i)
                (All-self current.deliveries),
            refl,
          )
          | inr b ↦ rw b (
            (λ d i live.
                unreplaced-IsIn (replacements n) current.deliveries d (live_absent n d i live) i),
            replaced-All IsKept (replacements n) current.deliveries
                (map_of-All IsKept [] (map (recovered_delivery current.endpoints now) (overdue n))
                  tt
                  (All-map (recovered_delivery current.endpoints now) IsKept (overdue n) (
                    All-imp _ (λ x. IsKept (recovered_delivery current.endpoints now x)) (overdue n)
                      (λ x h. inr (recovered_ends current.endpoints now x, refl))
                      (overdue_origin n))))
                (All-imp (λ d. IsIn d current.deliveries) _ current.deliveries (λ d i m. inl i)
                  (All-self current.deliveries)),
            subst
                (λ m. Releases false m now current (record current {
                  deliveries = replace_deliveries (replacements n) current.deliveries;
                }))
                (resolve_maintenance_limit_value limit n e) (reconcile-Releases n),
          )
        ])

-- A recovery of leases that does not throw leaves every delivery without a worker and every lease that
-- lasts as it is, and any delivery that was not in the store before has no worker and no token. A dry
-- run changes nothing. Any other run releases a delivery whose lease is over, to be tried again if its
-- endpoint is enabled and has attempts left and exhausted if not, unless more leases than the limit, of
-- 100 if none is given, are as old as its own. The store before is well-formed.
pub reconcile_lem :
    (now : ℕ) (limit : Option ℕ) (dry_run : Bool) (current : OutboundWebhookStore)
    (after : OutboundWebhookStore × ReconcileResult)
    → IsWellFormed current
    → reconcile_outbound_webhook_deliveries now limit dry_run current ≡ ok after
    → Recovered now limit dry_run current after
reconcile_lem now limit dry_run current after wf e =
    AfterOk-ok (Recovered now limit dry_run current)
      (reconcile_outbound_webhook_deliveries now limit dry_run current) after
      (reconcile-Recovered now current wf limit dry_run) e
