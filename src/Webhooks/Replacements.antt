-- ===== src/Webhooks/Replacements.antt =====
-- Replacing deliveries by a map of their identifiers: which replacements there are, and what stays.
use listmonk_ops.Prelude.{
  String, none, some, List, [], ◌∷◌, map, same, if◌then◌else◌, ◌≡◌, ◌≢◌, ◌⊎◌, refl, sym, ap, ◌∙◌,
  arith, All, IsIn, Bool-cases, inl, inr,
}
use listmonk_ops.Webhooks.{OutboundWebhookDelivery, map_get, map_set, map_of, replace_deliveries}

pub find_absent :
    (id : String) (ds : List OutboundWebhookDelivery)
    → All (λ d. d.id ≢ id) ds
    → map_get ds id ≡ none
find_absent id [] h = refl
find_absent id (d ∷ ds) h = ground (arith, find_absent id ds h.1)

pub unreplaced-IsIn :
    (rs ds : List OutboundWebhookDelivery) (d : OutboundWebhookDelivery)
    → map_get rs d.id ≡ none
    → IsIn d ds
    → IsIn d (replace_deliveries rs ds)
unfolding replace_deliveries
unreplaced-IsIn rs [] d n i = absurd i
unreplaced-IsIn rs (x ∷ ds) d n (inl e) =
    rw (ap (λ (y : OutboundWebhookDelivery). map_get rs y.id) (sym e) ∙ n, replace_deliveries)
      (inl e)
unreplaced-IsIn rs (x ∷ ds) d n (inr i) = inr (unreplaced-IsIn rs ds d n i)

pub replaced-IsIn :
    (rs ds : List OutboundWebhookDelivery) (d v : OutboundWebhookDelivery)
    → map_get rs d.id ≡ some v
    → IsIn d ds
    → IsIn v (replace_deliveries rs ds)
unfolding replace_deliveries
replaced-IsIn rs [] d v f i = absurd i
replaced-IsIn rs (x ∷ ds) d v f (inl e) =
    rw (ap (λ (y : OutboundWebhookDelivery). map_get rs y.id) (sym e) ∙ f, replace_deliveries)
      (inl refl)
replaced-IsIn rs (x ∷ ds) d v f (inr i) = inr (replaced-IsIn rs ds d v f i)

pub map-IsIn :
    (f : OutboundWebhookDelivery → OutboundWebhookDelivery) (xs : List OutboundWebhookDelivery)
    (x : OutboundWebhookDelivery)
    → IsIn x xs
    → IsIn (f x) (map f xs)
map-IsIn f [] x i = i
map-IsIn f (y ∷ ys) x (inl e) = inl (ap f e)
map-IsIn f (y ∷ ys) x (inr i) = inr (map-IsIn f ys x i)

-- A map has an entry for what was put into it.
map_set-finds :
    (v : OutboundWebhookDelivery) (entries : List OutboundWebhookDelivery) (id : String)
    → (v.id ≡ id) ⊎ (map_get entries id ≢ none)
    → map_get (map_set v entries) id ≢ none
unfolding map_set
map_set-finds v [] id (inl e) n = ground (arith, e, n)
map_set-finds v [] id (inr m) n = absurd (m refl)
map_set-finds v (x ∷ xs) id h n = elim (Bool-cases (same x.id v.id)) [
  | inl b ↦
      let found =
        ap (λ m. map_get m id) (ap (λ t. if t then v ∷ xs else x ∷ map_set v xs) (sym b)) ∙ n in
      elim (Bool-cases (same v.id id)) [
        | inl c ↦ ground (arith, c, found)
        | inr c ↦ elim h [ inl e ↦ ground (arith, c, e) | inr m ↦ m (ground (arith, b, c, found)) ]
      ]
  | inr b ↦
      let found =
        ap (λ m. map_get m id) (ap (λ t. if t then v ∷ xs else x ∷ map_set v xs) (sym b)) ∙ n in
      elim (Bool-cases (same x.id id)) [
        | inl c ↦ ground (arith, c, found)
        | inr c ↦
            let rest : map_get (map_set v xs) id ≡ none = ground (arith, c, found) in
            elim h [
              | inl e ↦ map_set-finds v xs id (inl e) rest
              | inr m ↦ map_set-finds v xs id (inr (λ q. m (ground (arith, c, q)))) rest
            ]
      ]
]

pub map_of-finds :
    (entries ds : List OutboundWebhookDelivery) (d : OutboundWebhookDelivery)
    → IsIn d ds ⊎ (map_get entries d.id ≢ none)
    → map_get (map_of entries ds) d.id ≢ none
unfolding map_of
map_of-finds entries [] d (inl i) = absurd i
map_of-finds entries [] d (inr m) = m
map_of-finds entries (x ∷ ds) d (inl (inl e)) =
    map_of-finds (map_set x entries) ds d (
      inr (map_set-finds x entries d.id (inl (ap (λ (y : OutboundWebhookDelivery). y.id) (sym e)))))
map_of-finds entries (x ∷ ds) d (inl (inr i)) = map_of-finds (map_set x entries) ds d (inl i)
map_of-finds entries (x ∷ ds) d (inr m) =
    map_of-finds (map_set x entries) ds d (inr (map_set-finds x entries d.id (inr m)))
