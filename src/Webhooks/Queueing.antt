-- ===== src/Webhooks/Queueing.antt =====
-- Queueing an event: the deliveries stay distinct, and finished ones alone make room.
use Prim.Native.String
use listmonk_ops.Prelude.{
  ℕ, [], ◌∷◌, String, suc, ◌≤◌, true, false, ok, List, any-same_iff, ◌++◌, map, filter, ◌≡◌, ◌≢◌,
  refl, sym, ap, subst, ◌∙◌, length, leb, arith, All, IsIn, Distinct, Bool-cases, inl, inr, All-map,
  map-All, filter-Distinct, All-imp, All-IsIn, filtered, filter_keeps, sort_by, take, not, ◌-◌,
  sort-All, take-All, append-Distinct,
}
use listmonk_ops.Sequences.Texts.{append_cancel}
use listmonk_ops.Webhooks.{
  OutboundWebhookEvent, OutboundWebhookEndpoint, OutboundWebhookDelivery, is_terminal,
}
use listmonk_ops.Webhooks.Queue.{
  has, key_of, delivery_key, queued_deliveries, new_delivery, prune_deliveries, removed_ids,
  finished_at,
}
use listmonk_ops.Webhooks.Keys.{HasDistinctKeys, ids, keys, Distinct-unique}

-- One event has different keys for different endpoints.
delivery_key_injective :
    (event_id a b : String) → delivery_key event_id a ≡ delivery_key event_id b → a ≡ b
delivery_key_injective event_id a b e =
    append_cancel ":" a b (append_cancel event_id (String.◌++◌ ":" a) (String.◌++◌ ":" b) e)

-- The supply repeats nothing, and has no identifier of the store.
abbrev pub IsFresh : (ℕ → String) → List OutboundWebhookDelivery → Type 0
IsFresh uuid ds = ((i j : ℕ) → uuid i ≡ uuid j → i ≡ j) × ((i : ℕ) → All (λ s. s ≢ uuid i) (ids ds))

module _ (uuid : ℕ → String) (existing : List String) (event : OutboundWebhookEvent) (now : ℕ) where
  -- What holds of every new delivery.
  pub queued-All {κ} :
      (P : OutboundWebhookDelivery → Type κ) (n : ℕ) (es : List OutboundWebhookEndpoint)
      → ((m : ℕ) (e : OutboundWebhookEndpoint)
          → n ≤ m
          → has existing (delivery_key event.id e.id) ≡ false
          → IsIn e es
          → P (new_delivery (uuid m) event e.id now))
      → All P (queued_deliveries uuid n existing event now es)
  unfolding queued_deliveries
  queued-All P n [] f = tt
  queued-All P n (e ∷ es) f = elim (Bool-cases (has existing (delivery_key event.id e.id))) [
    | inl b ↦ rw (b, queued_deliveries) (queued-All P n es (λ m x le h i. f m x le h (inr i)))
    | inr b ↦
        rw (b, queued_deliveries)
          (
            f n e (omega arith) b (inl refl),
            queued-All P (suc n) es (λ m x le h i. f m x (omega (arith, le)) h (inr i)),
          )
  ]

  queued-Distinct-ids :
      (n : ℕ) (es : List OutboundWebhookEndpoint)
      → ((i j : ℕ) → uuid i ≡ uuid j → i ≡ j)
      → Distinct (ids (queued_deliveries uuid n existing event now es))
  unfolding queued_deliveries
  queued-Distinct-ids n [] inj = tt
  queued-Distinct-ids n (e ∷ es) inj =
      elim (Bool-cases (has existing (delivery_key event.id e.id))) [
        | inl b ↦ rw (b, queued_deliveries) (queued-Distinct-ids n es inj)
        | inr b ↦
            rw (b, queued_deliveries)
              (
                All-map (λ d. d.id) (λ s. uuid n ≢ s)
                    (queued_deliveries uuid (suc n) existing event now es)
                    (queued-All (λ d. uuid n ≢ d.id) (suc n) es
                      (λ m x le h i q. omega (arith, le, inj n m q))),
                queued-Distinct-ids (suc n) es inj,
              )
      ]

  queued-Distinct-keys :
      (n : ℕ) (es : List OutboundWebhookEndpoint)
      → Distinct (map (λ e. e.id) es)
      → Distinct (keys (queued_deliveries uuid n existing event now es))
  unfolding queued_deliveries
  queued-Distinct-keys n [] h = tt
  queued-Distinct-keys n (e ∷ es) h =
      elim (Bool-cases (has existing (delivery_key event.id e.id))) [
        | inl b ↦ rw (b, queued_deliveries) (queued-Distinct-keys n es h.1)
        | inr b ↦
            rw (b, queued_deliveries)
              (
                All-map key_of (λ s. delivery_key event.id e.id ≢ s)
                    (queued_deliveries uuid (suc n) existing event now es)
                    (queued-All (λ d. delivery_key event.id e.id ≢ key_of d) (suc n) es
                      (λ m x le k i q.
                        All-IsIn (λ y. e.id ≢ y.id) es x
                          (map-All (λ y. y.id) (λ s. e.id ≢ s) es h.0) i
                          (delivery_key_injective event.id e.id x.id q))),
                queued-Distinct-keys (suc n) es h.1,
              )
      ]

-- Appending the new deliveries.
pub queued-HasDistinctKeys :
    (uuid : ℕ → String) (event : OutboundWebhookEvent) (now : ℕ) (ds : List OutboundWebhookDelivery)
    (es : List OutboundWebhookEndpoint)
    → IsFresh uuid ds
    → Distinct (map (λ e. e.id) es)
    → HasDistinctKeys ds
    → HasDistinctKeys (ds ++ queued_deliveries uuid 0 (keys ds) event now es)
queued-HasDistinctKeys uuid event now ds es fresh h k =
    let new = queued_deliveries uuid 0 (keys ds) event now es in
    (
      append-Distinct (λ d. d.id) ds new k.0
          (queued-Distinct-ids uuid (keys ds) event now 0 es fresh.0)
          (queued-All uuid (keys ds) event now (λ d. All (λ x. x.id ≢ d.id) ds) 0 es
            (λ m e le b i. map-All (λ x. x.id) (λ s. s ≢ uuid m) ds (fresh.1 m))),
      append-Distinct key_of ds new k.1 (queued-Distinct-keys uuid (keys ds) event now 0 es h) (
          queued-All uuid (keys ds) event now (λ d. All (λ x. key_of x ≢ key_of d) ds) 0 es
            (λ m e le b i.
              map-All key_of (λ s. s ≢ delivery_key event.id e.id) ds
                ((any-same_iff (keys ds) (delivery_key event.id e.id)).0 b))),
    )

removed_ids_unfinished :
    (ds : List OutboundWebhookDelivery) (limit : ℕ)
    → Distinct (ids ds)
    → (d : OutboundWebhookDelivery) → IsIn d ds
    → is_terminal d.status ≡ false
    → has (removed_ids ds limit) d.id ≡ false
unfolding removed_ids
removed_ids_unfinished ds limit h d i t =
    let P = λ (x : OutboundWebhookDelivery). x.id ≢ d.id in
    let before = λ (a b : OutboundWebhookDelivery). leb (finished_at a) (finished_at b) in
    let finished = filter (λ x. is_terminal x.status) ds in
    let passes = filtered (λ x. is_terminal x.status) ds in
    let others : All P finished =
      All-imp (λ x. IsIn x ds × (is_terminal x.status ≡ true)) P finished
        (λ x p q.
          let x_is : x ≡ d = Distinct-unique ds x d h p.0 i q in
          ground (arith, sym p.1 ∙ ap (λ y. is_terminal y.status) x_is ∙ t))
        passes in
    (any-same_iff (removed_ids ds limit) d.id).1 (
      All-map (λ x. x.id) (λ s. s ≢ d.id) (take (length ds - limit) (sort_by before finished))
        (take-All P (length ds - limit) (sort_by before finished)
          (sort-All P before finished others)))

-- What pruning leaves: few enough of the deliveries, still distinct, with all that are unfinished.
pub prune-Keeps :
    (ds after : List OutboundWebhookDelivery) (limit : ℕ)
    → HasDistinctKeys ds
    → prune_deliveries ds limit ≡ ok after
    → (length after ≤ limit)
      × HasDistinctKeys after
      × ((d : OutboundWebhookDelivery) → IsIn d ds → is_terminal d.status ≡ false → IsIn d after)
      × ((d : OutboundWebhookDelivery) → IsIn d after → IsIn d ds)
unfolding prune_deliveries
prune-Keeps ds after limit h e = elim (Bool-cases (leb (length ds) limit)) [
  | inl b ↦
      let same_list : ds ≡ after = ground arith in
      (
        ground arith,
        subst HasDistinctKeys same_list h,
        λ d i t. subst (IsIn d) same_list i,
        λ d i. subst (IsIn d) (sym same_list) i,
      )
  | inr b ↦
      let kept = λ (d : OutboundWebhookDelivery). not (has (removed_ids ds limit) d.id) in
      let pruned : filter kept ds ≡ after = ground arith in
      (
        ground arith,
        subst HasDistinctKeys pruned
            (filter-Distinct (λ d. d.id) kept ds h.0, filter-Distinct key_of kept ds h.1),
        λ d i t.
            subst (IsIn d) pruned
              (filter_keeps kept ds d (rw (removed_ids_unfinished ds limit h.0 d i t) refl) i),
        λ d i.
            (All-IsIn (λ x. IsIn x ds × (kept x ≡ true)) (filter kept ds) d (filtered kept ds)
              (subst (IsIn d) (sym pruned) i)).0,
      )
]
