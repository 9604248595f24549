-- ===== src/Webhooks/Targets.antt =====
-- packages/automation/src/outbound-webhooks.ts, enqueueOutboundWebhookEvent: the endpoints that an event
-- is for, by the fields of the endpoint and not by the filter of the code.
use listmonk_ops.Prelude.{
  String, Option, none, some, Bool, true, List, [], ◌∷◌, ◌&&◌, ◌||◌, any, same, ◌≡◌, ◌⊎◌, refl, sym,
  ap, subst, ◌∙◌, arith, IsIn, Bool-cases, inl, inr, filtered, filter_keeps, All-IsIn,
}
use listmonk_ops.Webhooks.{OutboundWebhookEvent, OutboundWebhookEndpoint}
use listmonk_ops.Webhooks.Events.{matches_filter, matches_outbound_webhook_event}
use listmonk_ops.Webhooks.Queue.{is_selected, matched_endpoints, EnqueueOptions}

-- The caller named no endpoints, or this one among them.
abbrev pub IsSelected : Option (List String) → String → Type 0
IsSelected none id = Unit
IsSelected (some ids) id = IsIn id ids

-- One of the filters of the endpoint fits the type of the event.
abbrev pub AsksFor : OutboundWebhookEndpoint → String → Type 0
AsksFor e event_type = (f : String) × IsIn f e.event_filters × (matches_filter event_type f ≡ true)

-- An endpoint that is enabled, that is selected, and that asks for the event unless filters are bypassed.
abbrev pub IsTarget : OutboundWebhookEvent → EnqueueOptions → OutboundWebhookEndpoint → Type 0
IsTarget event options e =
    (e.enabled ≡ true)
    × IsSelected options.endpoint_ids e.id
    × ((options.bypass_event_filters ≡ true) ⊎ AsksFor e event.event_type)

any-true :
    (p : String → Bool) (xs : List String)
    → any p xs ≡ true
    → (x : String) × IsIn x xs × (p x ≡ true)
any-true p [] h = absurd (ground arith)
any-true p (x ∷ xs) h = elim (Bool-cases (p x)) [
  | inl b ↦ (x, inl refl, b)
  | inr b ↦ let (y, i, q) = any-true p xs (ground arith) in (y, inr i, q)
]

true-any :
    (p : String → Bool) (xs : List String) (x : String) → IsIn x xs → p x ≡ true → any p xs ≡ true
true-any p [] x i q = absurd i
true-any p (y ∷ xs) x (inl e) q = let r = ap p (sym e) ∙ q in ground arith
true-any p (y ∷ xs) x (inr i) q = let r = true-any p xs x i q in ground arith

is_selected-IsSelected :
    (ids : Option (List String)) (id : String) → is_selected ids id ≡ true → IsSelected ids id
is_selected-IsSelected none id h = tt
is_selected-IsSelected (some ids) id h =
    let (t, i, q) = any-true (λ t. same t id) ids h in
    let t_is : t ≡ id = ground arith in subst (λ s. IsIn s ids) t_is i

IsSelected-is_selected :
    (ids : Option (List String)) (id : String) → IsSelected ids id → is_selected ids id ≡ true
IsSelected-is_selected none id h = refl
IsSelected-is_selected (some ids) id h = true-any (λ t. same t id) ids id h (ground arith)

module _ (event : OutboundWebhookEvent) (options : EnqueueOptions)
    (endpoints : List OutboundWebhookEndpoint) where
  abbrev matched : List OutboundWebhookEndpoint
  matched = matched_endpoints options.endpoint_ids options.bypass_event_filters event endpoints

  pub matched-IsTarget :
      (e : OutboundWebhookEndpoint) → IsIn e matched → IsIn e endpoints × IsTarget event options e
  unfolding matched_endpoints matches_outbound_webhook_event
  matched-IsTarget e i =
      let (j, h) = All-IsIn _ matched e (filtered _ endpoints) i in
      (
        j,
        (
          ground arith,
          is_selected-IsSelected options.endpoint_ids e.id (ground arith),
          elim (Bool-cases options.bypass_event_filters) [
            | inl b ↦ inl b
            | inr b ↦
                inr (any-true (matches_filter event.event_type) e.event_filters (ground arith))
          ],
        ),
      )

  pub IsTarget-matched :
      (e : OutboundWebhookEndpoint) → IsIn e endpoints → IsTarget event options e → IsIn e matched
  unfolding matched_endpoints matches_outbound_webhook_event
  IsTarget-matched e i (on, selected, asked) =
      let s = IsSelected-is_selected options.endpoint_ids e.id selected in
      filter_keeps _ endpoints e (passes s asked) i
    where
      passes :
          is_selected options.endpoint_ids e.id ≡ true
          → (options.bypass_event_filters ≡ true) ⊎ AsksFor e event.event_type
          → (e.enabled
              && is_selected options.endpoint_ids e.id
              && (options.bypass_event_filters
                  || any (matches_filter event.event_type) e.event_filters))
            ≡ true
      passes s (inl b) = ground (arith, on, s, b)
      passes s (inr (f, j, q)) =
          let a = true-any (matches_filter event.event_type) e.event_filters f j q in
          ground (arith, on, s, a)
