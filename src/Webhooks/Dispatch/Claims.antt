-- ===== src/Webhooks/Dispatch/Claims.antt =====
-- A claim takes at most its limit of deliveries, each once, and none that it excludes.
use listmonk_ops.Prelude.{
  ℕ, zero, suc, ◌+◌, ◌≤◌, String, List, [], ◌∷◌, map, leb, length, take, same, filter, sort_by, ◌≡◌,
  ◌≢◌, refl, ap, subst, arith, All, Distinct, Bool-cases, inl, inr, any-same_iff, All-map, map-All,
}
use listmonk_ops.Webhooks.{OutboundWebhookDelivery, OutboundWebhookStore, map_set, map_of}
use listmonk_ops.Webhooks.Claiming.{
  ClaimOptions, ClaimedOutboundWebhookDelivery, is_claimable, claimable_deliveries,
  leased_deliveries, endpoint_by_id, claimed_by_id, claim_outbound_webhook_deliveries,
}
use listmonk_ops.Webhooks.Keys.{ids, map_set-All}
use listmonk_ops.Webhooks.Leasing.{claimed-All}

-- A `Map` has each identifier once.
map_set-Distinct :
    (v : OutboundWebhookDelivery) (ds : List OutboundWebhookDelivery)
    → Distinct (ids ds)
    → Distinct (ids (map_set v ds))
unfolding map_set
map_set-Distinct v [] h = (tt, tt)
map_set-Distinct v (d ∷ ds) h = elim (Bool-cases (same d.id v.id)) [
  | inl b ↦
      let is_v : d.id ≡ v.id = ground arith in
      rw (b, map_set) (subst (λ s. All (λ y. s ≢ y) (ids ds)) is_v h.0, h.1)
  | inr b ↦
      rw (b, map_set)
        (
          All-map (λ x. x.id) (λ s. d.id ≢ s) (map_set v ds)
              (map_set-All (λ x. d.id ≢ x.id) v ds (ground arith)
                (map-All (λ x. x.id) (λ s. d.id ≢ s) ds h.0)),
          map_set-Distinct v ds h.1,
        )
]

map_of-Distinct :
    (entries ds : List OutboundWebhookDelivery)
    → Distinct (ids entries)
    → Distinct (ids (map_of entries ds))
unfolding map_of
map_of-Distinct entries [] h = h
map_of-Distinct entries (d ∷ ds) h =
    map_of-Distinct (map_set d entries) ds (map_set-Distinct d entries h)

length-map_set :
    (v : OutboundWebhookDelivery) (ds : List OutboundWebhookDelivery)
    → length (map_set v ds) ≤ suc (length ds)
unfolding map_set
length-map_set v [] = omega arith
length-map_set v (d ∷ ds) = elim (Bool-cases (same d.id v.id)) [
  | inl b ↦ rw (b, map_set) (omega arith)
  | inr b ↦ rw (b, map_set) (omega (arith, length-map_set v ds))
]

length-map_of :
    (entries ds : List OutboundWebhookDelivery)
    → length (map_of entries ds) ≤ length entries + length ds
unfolding map_of
length-map_of entries [] = omega arith
length-map_of entries (d ∷ ds) =
    omega (arith, length-map_of (map_set d entries) ds, length-map_set d entries)

length-leased :
    (uuid : ℕ → String) (n : ℕ) (options : ClaimOptions) (ds : List OutboundWebhookDelivery)
    → length (leased_deliveries uuid n options ds) ≡ length ds
unfolding leased_deliveries
length-leased uuid n options [] = refl
length-leased uuid n options (d ∷ ds) = ap suc (length-leased uuid (suc n) options ds)

length-take {ℓ} : {A : Type ℓ} (n : ℕ) (xs : List A) → length (take n xs) ≤ n
length-take zero xs = omega arith
length-take (suc n) [] = omega arith
length-take (suc n) (x ∷ xs) = omega (arith, length-take n xs)

abbrev pub claim_ids : List ClaimedOutboundWebhookDelivery → List String
claim_ids cs = map (λ c. c.delivery.id) cs

module _ (uuid : ℕ → String) (options : ClaimOptions) (current : OutboundWebhookStore) where
  pub claimed-length : length (claimed_by_id uuid options current) ≤ options.limit
  unfolding claimed_by_id claimable_deliveries
  claimed-length =
      let found = claimable_deliveries options current in
      omega (
        arith,
        length-map_of [] (leased_deliveries uuid 0 options found),
        length-leased uuid 0 options found,
        length-take options.limit (
            sort_by (λ a b. leb a.next_attempt_at b.next_attempt_at)
              (filter (is_claimable current.endpoint_runtime options) current.deliveries)),
      )

  pub claimed-Distinct : Distinct (ids (claimed_by_id uuid options current))
  unfolding claimed_by_id
  claimed-Distinct =
      map_of-Distinct [] (leased_deliveries uuid 0 options (claimable_deliveries options current))
        tt

  pub claimed_new :
      All
        (λ d. All (λ s. s ≢ d.id) options.exclude_delivery_ids)
        (claimed_by_id uuid options current)
  unfolding is_claimable
  claimed_new =
      claimed-All (λ d. All (λ s. s ≢ d.id) options.exclude_delivery_ids) uuid options current
        (λ d i c m. (any-same_iff options.exclude_delivery_ids d.id).0 (ground arith))

  pub claim_ids_lem :
      claim_ids (claim_outbound_webhook_deliveries uuid options current).1
      ≡ ids (claimed_by_id uuid options current)
  unfolding claim_outbound_webhook_deliveries
  claim_ids_lem = map_map (claimed_by_id uuid options current)
    where
      map_map :
          (ds : List OutboundWebhookDelivery)
          → claim_ids (
              map
                (λ d. record {
                  delivery = d;
                  endpoint = endpoint_by_id current.endpoints d.endpoint_id;
                })
                ds)
            ≡ ids ds
      map_map [] = refl
      map_map (d ∷ ds) = ap (◌∷◌ d.id) (map_map ds)
