-- ===== src/Webhooks/Dispatch/Bounds.antt =====
-- A dispatch ends, attempts at most its limit of deliveries, and none of them twice.
use listmonk_ops.Prelude.{
  ℕ, zero, suc, ◌+◌, ◌-◌, ◌≤◌, ◌<◌, String, Option, none, some, Result, ok, err, AfterOk-ok, List,
  [], ◌++◌, ltb, ◌==◌, ◌&&◌, ◌||◌, not, length, length-map, length-append, All-both, ◌≡◌, ◌≢◌, refl,
  sym, ap, subst, ◌∙◌, arith, All, Distinct, Bool-cases, Result-cases, inl, inr, All-map, map-All,
  append-Distinct, All-imp, append-both, both-append,
}
use listmonk_ops.Webhooks.{OutboundWebhookStore, WebhookError}
use listmonk_ops.Webhooks.Claiming.{
  ClaimedOutboundWebhookDelivery, claimed_by_id, claim_outbound_webhook_deliveries,
}
use listmonk_ops.Webhooks.Keys.{ids}
use listmonk_ops.Webhooks.Dispatch.{DeliveryEnvironment}
use listmonk_ops.Webhooks.Dispatch.Rounds.{
  DispatchResultEntry, DispatchOptions, DispatchWorld, complete_batch, round_options, with_results,
  dispatch_rounds, dispatch_outbound_webhooks, is_in_range, names_deliveries,
}
use listmonk_ops.Webhooks.Dispatch.Claims.{
  claimed-length, claimed-Distinct, claimed_new, claim_ids, claim_ids_lem,
}
use listmonk_ops.Webhooks.Dispatch.Batches.{entry_ids, batch_ids}

-- A result of the rounds that started with so many attempts, after so many deliveries.
abbrev pub IsBounded :
    ℕ → List String → Option (Result WebhookError (List DispatchResultEntry)) → Type 0
IsBounded room processed none = ⊥
IsBounded room processed (some (err e)) = Unit
IsBounded room processed (some (ok rs)) =
    (length rs ≤ room)
    × Distinct (entry_ids rs)
    × All (λ s. All (λ p. p ≢ s) processed) (entry_ids rs)

-- One round before the others.
with_results-IsBounded_own :
    (limit count : ℕ) (processed : List String) (rs : List DispatchResultEntry)
    (rest : Option (Result WebhookError (List DispatchResultEntry)))
    → count + length rs ≤ limit
    → Distinct (entry_ids rs)
    → All (λ s. All (λ p. p ≢ s) processed) (entry_ids rs)
    → IsBounded (limit - (count + length rs)) (processed ++ entry_ids rs) rest
    → IsBounded (limit - count) processed (with_results rs rest)
with_results-IsBounded_own limit count processed rs none room d new h = h
with_results-IsBounded_own limit count processed rs (some (err e)) room d new h = tt
with_results-IsBounded_own limit count processed rs (some (ok more)) room d new
      (short, distinct, others) =
    let (p, q) =
      All-both (λ s. All (λ x. x ≢ s) processed) (λ s. All (λ x. x ≢ s) (entry_ids rs))
        (entry_ids more)
        (All-imp (λ s. All (λ x. x ≢ s) (processed ++ entry_ids rs)) _ (entry_ids more)
          (λ s h. append-both (λ x. x ≢ s) processed (entry_ids rs) h) others) in
    (
      omega (arith, length-append rs more, short, room),
      append-Distinct (λ r. r.delivery_id) rs more d distinct
          (map-All (λ r. r.delivery_id) (λ s. All (λ r. r.delivery_id ≢ s) rs) more
            (All-imp (λ s. All (λ x. x ≢ s) (entry_ids rs)) _ (entry_ids more)
              (λ s h. map-All (λ r. r.delivery_id) (λ x. x ≢ s) rs h) q)),
      All-map (λ r. r.delivery_id) (λ s. All (λ x. x ≢ s) processed) (rs ++ more)
          (both-append _ rs more
            (map-All (λ r. r.delivery_id) (λ s. All (λ x. x ≢ s) processed) rs new)
            (map-All (λ r. r.delivery_id) (λ s. All (λ x. x ≢ s) processed) more p)),
    )

with_results-IsBounded :
    (limit count : ℕ) (processed news : List String) (rs : List DispatchResultEntry)
    (rest : Option (Result WebhookError (List DispatchResultEntry)))
    → entry_ids rs ≡ news
    → count + length news ≤ limit
    → Distinct news
    → All (λ s. All (λ p. p ≢ s) processed) news
    → IsBounded (limit - (count + length news)) (processed ++ news) rest
    → IsBounded (limit - count) processed (with_results rs rest)
with_results-IsBounded limit count processed news rs rest e room d new h =
    let n : length news ≡ length rs = sym (ap length e) ∙ length-map (λ r. r.delivery_id) rs in
    with_results-IsBounded_own limit count processed rs rest (omega (arith, n, room))
      (subst Distinct (sym e) d) (subst (All (λ s. All (λ p. p ≢ s) processed)) (sym e) new)
      (subst (λ k. IsBounded (limit - (count + k)) (processed ++ entry_ids rs) rest) n
        (subst (λ l. IsBounded (limit - (count + length news)) (processed ++ l) rest) (sym e) h))

module _ (truncate : String → String) (env : DeliveryEnvironment) (options : DispatchOptions)
    (world : DispatchWorld) where
  -- The claim of a round fits into the room that is left, and is new.
  join :
      (round count : ℕ) (processed : List String) (store : OutboundWebhookStore)
      (rs : List DispatchResultEntry)
      (rest : Option (Result WebhookError (List DispatchResultEntry)))
      (claimed : List ClaimedOutboundWebhookDelivery)
      → claimed
        ≡ (claim_outbound_webhook_deliveries
            (world.uuid round)
            (round_options truncate env options world round count processed)
            store).1
      → count < options.limit
      → entry_ids rs ≡ claim_ids claimed
      → IsBounded (options.limit - (count + length claimed)) (processed ++ claim_ids claimed) rest
      → IsBounded (options.limit - count) processed (with_results rs rest)
  join round count processed store rs rest claimed same_claim below e h =
      let opts = round_options truncate env options world round count processed in
      let taken = claimed_by_id (world.uuid round) opts store in
      let names : claim_ids claimed ≡ ids taken =
        ap claim_ids same_claim ∙ claim_ids_lem (world.uuid round) opts store in
      let n : length (claim_ids claimed) ≡ length claimed =
        length-map (λ c. c.delivery.id) claimed in
      let m : length (claim_ids claimed) ≡ length taken =
        ap length names ∙ length-map (λ d. d.id) taken in
      with_results-IsBounded options.limit count processed (claim_ids claimed) rs rest e
        (omega (arith, m, below, claimed-length (world.uuid round) opts store))
        (subst Distinct (sym names) (claimed-Distinct (world.uuid round) opts store))
        (subst (All (λ s. All (λ p. p ≢ s) processed)) (sym names) (
          All-map (λ d. d.id) (λ s. All (λ p. p ≢ s) processed) taken
            (claimed_new (world.uuid round) opts store)))
        (subst (λ k. IsBounded (options.limit - (count + k)) (processed ++ claim_ids claimed) rest)
          (sym n) h)

  rounds-IsBounded :
      (fuel round count : ℕ) (processed : List String) (store : OutboundWebhookStore)
      → options.limit ≤ count + fuel
      → IsBounded
          (options.limit - count)
          processed
          (dispatch_rounds truncate env options world fuel round count processed store).1
  unfolding dispatch_rounds
  rounds-IsBounded zero round count processed store enough = ground arith
  rounds-IsBounded (suc fuel) round count processed store enough =
      elim (Bool-cases (ltb count options.limit)) [
        | inr b ↦ rw (b, dispatch_rounds) (omega arith, tt, tt)
        | inl b ↦
            let opts = round_options truncate env options world round count processed in
            let before = world.before_claim round store in
            let (held, claimed) =
              claim_outbound_webhook_deliveries (world.uuid round) opts before in
            elim (Bool-cases (length claimed == 0)) [
              | inl z ↦ rw (b, z, dispatch_rounds) (omega arith, tt, tt)
              | inr z ↦
                  let batch =
                    complete_batch truncate env options world round claimed
                      (world.before_completion round held) in
                  elim (Result-cases batch.1) [
                    | inl (e, h) ↦ rw (b, z, h, dispatch_rounds) tt
                    | inr (rs, h) ↦
                        rw (b, z, h, dispatch_rounds)
                          (join round count processed before rs _ claimed refl (ground arith)
                            (AfterOk-ok (λ rs. entry_ids rs ≡ claim_ids claimed) batch.1 rs
                              (batch_ids truncate env options world round claimed
                                (world.before_completion round held))
                              h)
                            (rounds-IsBounded fuel (suc round) (count + length claimed)
                              (processed ++ claim_ids claimed) batch.0 (ground arith)))
                  ]
            ]
      ]

-- A dispatch has a result whatever the other processes do: it throws, or its entries are at most its
-- limit, and no two are for one delivery.
pub dispatch-IsBounded :
    (truncate : String → String) (env : DeliveryEnvironment) (options : DispatchOptions)
    (world : DispatchWorld) (store : OutboundWebhookStore)
    → IsBounded options.limit [] (dispatch_outbound_webhooks truncate env options world store).1
unfolding dispatch_outbound_webhooks
dispatch-IsBounded truncate env options world store =
    elim (Bool-cases (
      not (is_in_range options)
      || (options.bypass_circuit_breaker && not (names_deliveries options.delivery_ids)))) [
        | inl b ↦ rw (b, dispatch_outbound_webhooks) tt
        | inr b ↦
            rw (b, dispatch_outbound_webhooks)
              (subst
                (λ n.
                  IsBounded n []
                    (dispatch_rounds truncate env options world options.limit 0 0 [] store).1)
                (omega arith)
                (rounds-IsBounded truncate env options world options.limit 0 0 [] store
                  (omega arith)))
      ]
