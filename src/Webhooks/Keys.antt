-- ===== src/Webhooks/Keys.antt =====
-- The deliveries of a store keep their identifiers, events and endpoints under every replacement.
use listmonk_ops.Prelude.{
  String, some, true, List, [], ◌∷◌, map, same, find, ◌≡◌, ◌≢◌, refl, sym, ap, subst, ◌∙◌, arith,
  All, IsIn, Distinct, Bool-cases, Option-cases, inl, inr, map-All, All-imp, All-IsIn,
}
use listmonk_ops.Webhooks.{
  OutboundWebhookDelivery, put_delivery, map_set, map_get, map_of, replace_deliveries,
}
use listmonk_ops.Webhooks.Queue.{key_of}

abbrev pub ids : List OutboundWebhookDelivery → List String
ids ds = map (λ d. d.id) ds

abbrev pub keys : List OutboundWebhookDelivery → List String
keys ds = map key_of ds

-- The identifiers are distinct, and so are the pairs of an event and an endpoint.
abbrev pub HasDistinctKeys : List OutboundWebhookDelivery → Type 0
HasDistinctKeys ds = Distinct (ids ds) × Distinct (keys ds)

-- A change that moves and renames no delivery.
abbrev pub KeepsKeys : List OutboundWebhookDelivery → List OutboundWebhookDelivery → Type 0
KeepsKeys old new = (ids old ≡ ids new) × (keys old ≡ keys new)

pub KeepsKeys-HasDistinctKeys :
    (old new : List OutboundWebhookDelivery)
    → KeepsKeys old new
    → HasDistinctKeys old
    → HasDistinctKeys new
KeepsKeys-HasDistinctKeys old new k h = (subst Distinct k.0 h.0, subst Distinct k.1 h.1)

same-true : (s t : String) → same s t ≡ true → s ≡ t
same-true s t h = ground arith

pub find-passes {κ} :
    (P : OutboundWebhookDelivery → Type κ) (id : String) (ds : List OutboundWebhookDelivery)
    (d : OutboundWebhookDelivery)
    → All P ds
    → find (λ x. same x.id id) ds ≡ some d
    → P d × (d.id ≡ id)
find-passes P id [] d h e = absurd (ground arith)
find-passes P id (x ∷ xs) d h e = elim (Bool-cases (same x.id id)) [
  | inl b ↦
      let x_is : x ≡ d = ground arith in
      subst (λ y. P y × (y.id ≡ id)) x_is (h.0, same-true x.id id b)
  | inr b ↦ find-passes P id xs d h.1 (ground arith)
]

-- A delivery is found by its identifier.
pub Distinct-unique :
    (ds : List OutboundWebhookDelivery) (a b : OutboundWebhookDelivery)
    → Distinct (ids ds)
    → IsIn a ds
    → IsIn b ds
    → a.id ≡ b.id
    → a ≡ b
Distinct-unique [] a b h i j e = absurd i
Distinct-unique (d ∷ ds) a b h (inl p) (inl q) e = p ∙ sym q
Distinct-unique (d ∷ ds) a b h (inl p) (inr j) e = absurd (
    All-IsIn (λ x. d.id ≢ x.id) ds b (map-All (λ x. x.id) (λ y. d.id ≢ y) ds h.0) j
      (ap (λ x. x.id) (sym p) ∙ e))
Distinct-unique (d ∷ ds) a b h (inr i) (inl q) e = absurd (
    All-IsIn (λ x. d.id ≢ x.id) ds a (map-All (λ x. x.id) (λ y. d.id ≢ y) ds h.0) i
      (ap (λ x. x.id) (sym q) ∙ sym e))
Distinct-unique (d ∷ ds) a b h (inr i) (inr j) e = Distinct-unique ds a b h.1 i j e

module _ {κ} (P : OutboundWebhookDelivery → Type κ) where
  pub map_set-All :
      (v : OutboundWebhookDelivery) (ds : List OutboundWebhookDelivery)
      → P v
      → All P ds
      → All P (map_set v ds)
  unfolding map_set
  map_set-All v [] p h = (p, tt)
  map_set-All v (d ∷ ds) p h = elim (Bool-cases (same d.id v.id)) [
    | inl b ↦ rw (b, map_set) (p, h.1)
    | inr b ↦ rw (b, map_set) (h.0, map_set-All v ds p h.1)
  ]

  pub map_of-All :
      (entries ds : List OutboundWebhookDelivery)
      → All P entries
      → All P ds
      → All P (map_of entries ds)
  unfolding map_of
  map_of-All entries [] h k = h
  map_of-All entries (d ∷ ds) h k =
      map_of-All (map_set d entries) ds (map_set-All d entries k.0 h) k.1

-- A replacement of the deliveries it has the identifier of.
abbrev pub Replaces : List OutboundWebhookDelivery → OutboundWebhookDelivery → Type 0
Replaces ds v = (d : OutboundWebhookDelivery) → IsIn d ds → d.id ≡ v.id → key_of d ≡ key_of v

pub IsIn-Replaces :
    (ds : List OutboundWebhookDelivery) (d v : OutboundWebhookDelivery)
    → Distinct (ids ds)
    → IsIn d ds
    → d.id ≡ v.id
    → key_of d ≡ key_of v
    → Replaces ds v
IsIn-Replaces ds d v h i e k x j q = ap key_of (Distinct-unique ds x d h j i (q ∙ sym e)) ∙ k

pub cons_both {ℓ} :
    {A : Type ℓ} {x y : A} {xs ys : List A} → x ≡ y → xs ≡ ys → ◌≡◌ {A = List A} (x ∷ xs) (y ∷ ys)
cons_both {y = y} {xs = xs} p q = ap (λ z. z ∷ xs) p ∙ ap (◌∷◌ y) q

pub replace-KeepsKeys :
    (replacements ds : List OutboundWebhookDelivery)
    → All (Replaces ds) replacements
    → KeepsKeys ds (replace_deliveries replacements ds)
unfolding replace_deliveries
replace-KeepsKeys rs [] h = (refl, refl)
replace-KeepsKeys rs (d ∷ ds) h =
    let (p, q) =
      replace-KeepsKeys rs ds
        (All-imp (Replaces (d ∷ ds)) (Replaces ds) rs (λ v r x i. r x (inr i)) h) in
    elim (Option-cases (map_get rs d.id)) [
      | inl n ↦ rw (n, replace_deliveries) (ap (◌∷◌ d.id) p, ap (◌∷◌ (key_of d)) q)
      | inr (v, e) ↦
          let (r, same_id) = find-passes (Replaces (d ∷ ds)) d.id rs v h e in
          rw (e, replace_deliveries)
            (cons_both (sym same_id) p, cons_both (r d (inl refl) (sym same_id)) q)
    ]

pub put-KeepsKeys :
    (id : String) (v : OutboundWebhookDelivery) (ds : List OutboundWebhookDelivery)
    → ((d : OutboundWebhookDelivery)
        → find (λ x. same x.id id) ds ≡ some d
        → (d.id ≡ v.id) × (key_of d ≡ key_of v))
    → KeepsKeys ds (put_delivery id v ds)
unfolding put_delivery
put-KeepsKeys id v [] h = (refl, refl)
put-KeepsKeys id v (d ∷ ds) h = elim (Bool-cases (same d.id id)) [
  | inl b ↦
      let (p, q) = h d (rw b refl) in
      rw (b, put_delivery) (ap (λ x. x ∷ ids ds) p, ap (λ x. x ∷ keys ds) q)
  | inr b ↦
      let (p, q) = put-KeepsKeys id v ds (λ x e. h x (rw b e)) in
      rw (b, put_delivery) (ap (◌∷◌ d.id) p, ap (◌∷◌ (key_of d)) q)
]
