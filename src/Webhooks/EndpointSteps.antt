-- ===== src/Webhooks/EndpointSteps.antt =====
-- Creating, changing and deleting endpoints keeps the webhook store well-formed.
use listmonk_ops.Prelude.{
  ℕ, String, Option, some, ok, AfterOk, bind-AfterOk, List, [], ◌∷◌, map, find, any, same, not,
  ◌==◌, ◌≡◌, ◌≢◌, refl, ap, subst, ◌∙◌, ◌&&◌, arith, All, Distinct, Bool-cases, Option-cases, inl,
  inr, filter-Distinct, append-Distinct,
}
use listmonk_ops.Webhooks.{
  OutboundWebhookEndpoint, OutboundWebhookDelivery, OutboundWebhookStore, is_terminal,
}
use listmonk_ops.Webhooks.Endpoints.{
  UpdateOutboundWebhookEndpointInput, create_outbound_webhook_endpoint,
  update_outbound_webhook_endpoint, delete_outbound_webhook_endpoint, parse_endpoint,
  persist_file_outbound_webhook_endpoint, merge_outbound_webhook_endpoint_update, put_endpoint,
  exhaust_delivery, is_taken, has_valid_numbers,
}
use listmonk_ops.Webhooks.Runtime.{is_closed, reset_outbound_webhook_endpoint_circuit}
use listmonk_ops.Webhooks.Queue.{key_of}
use listmonk_ops.Webhooks.Keys.{KeepsKeys, KeepsKeys-HasDistinctKeys, cons_both}
use listmonk_ops.Webhooks.Enqueue.{IsWellFormed}
use listmonk_ops.Webhooks.Preservation.{Safe}

module _ (current : OutboundWebhookStore) (wf : IsWellFormed current) where
  map-KeepsKeys :
      (f : OutboundWebhookDelivery → OutboundWebhookDelivery) (ds : List OutboundWebhookDelivery)
      → ((d : OutboundWebhookDelivery) → (d.id ≡ (f d).id) × (key_of d ≡ key_of (f d)))
      → KeepsKeys ds (map f ds)
  map-KeepsKeys f [] k = (refl, refl)
  map-KeepsKeys f (d ∷ ds) k =
      let (p, q) = map-KeepsKeys f ds k in (cons_both (k d).0 p, cons_both (k d).1 q)

  exhaust_keeps :
      (id : String) (now : ℕ) (d : OutboundWebhookDelivery)
      → (d.id ≡ (exhaust_delivery id now d).id) × (key_of d ≡ key_of (exhaust_delivery id now d))
  exhaust_keeps id now d = elim (Bool-cases (same d.endpoint_id id && not (is_terminal d.status))) [
    | inl b ↦ rw b (refl, refl)
    | inr b ↦ rw b (refl, refl)
  ]

  pub delete-Safe :
      (id : String) (now : ℕ) → AfterOk Safe (delete_outbound_webhook_endpoint id now current)
  unfolding delete_outbound_webhook_endpoint
  delete-Safe id now = elim (Option-cases (find (λ e. same e.id id) current.endpoints)) [
    | inl n ↦ rw (n, delete_outbound_webhook_endpoint) tt
    | inr (e, f) ↦
        rw (f, delete_outbound_webhook_endpoint)
          (
            KeepsKeys-HasDistinctKeys current.deliveries
                (map (exhaust_delivery id now) current.deliveries)
                (map-KeepsKeys (exhaust_delivery id now) current.deliveries (exhaust_keeps id now))
                wf.0,
            filter-Distinct (λ e. e.id) (λ e. not (same e.id id)) current.endpoints wf.1,
          )
  ]

  pub reset-Safe : (id : String) → AfterOk Safe (reset_outbound_webhook_endpoint_circuit id current)
  unfolding reset_outbound_webhook_endpoint_circuit
  reset-Safe id = elim (Bool-cases (any (λ e. same e.id id) current.endpoints)) [
    | inl b ↦ elim (Option-cases (find (λ r. same r.endpoint_id id) current.endpoint_runtime)) [
      | inl n ↦ rw (b, n, reset_outbound_webhook_endpoint_circuit) wf
      | inr (existing, f) ↦
          elim (Bool-cases
            (is_closed existing.circuit_state && existing.consecutive_failures == 0)) [
              | inl c ↦ rw (b, f, c, reset_outbound_webhook_endpoint_circuit) wf
              | inr c ↦ rw (b, f, c, reset_outbound_webhook_endpoint_circuit) wf
            ]
    ]
    | inr b ↦ rw (b, reset_outbound_webhook_endpoint_circuit) tt
  ]

-- Reading an endpoint's texts leaves its identifier.
abbrev pub KeepsId : (OutboundWebhookEndpoint → Option OutboundWebhookEndpoint) → Type 0
KeepsId normalized =
    (e value : OutboundWebhookEndpoint) → normalized e ≡ some value → e.id ≡ value.id

module _ (to_lower_case : String → String)
    (normalized : OutboundWebhookEndpoint → Option OutboundWebhookEndpoint)
    (keeps : KeepsId normalized) where
  parse_keeps :
      (e value : OutboundWebhookEndpoint)
      → parse_endpoint to_lower_case normalized e ≡ ok value
      → e.id ≡ value.id
  unfolding parse_endpoint
  parse_keeps e value h = elim (Option-cases (normalized e)) [
    | inl n ↦ absurd (ground arith)
    | inr (v, k) ↦ elim (Bool-cases (has_valid_numbers v)) [
      | inl b ↦ let is_v : v ≡ value = ground arith in keeps e v k ∙ ap (λ x. x.id) is_v
      | inr b ↦ absurd (ground arith)
    ]
  ]

  -- Replacing an endpoint by one of the same identifier.
  put_endpoint_ids :
      (id : String) (v previous : OutboundWebhookEndpoint) (es : List OutboundWebhookEndpoint)
      → find (λ e. same e.id id) es ≡ some previous
      → previous.id ≡ v.id
      → map (λ e. e.id) es ≡ map (λ e. e.id) (put_endpoint id v es)
  unfolding put_endpoint
  put_endpoint_ids id v previous [] f k = refl
  put_endpoint_ids id v previous (e ∷ es) f k = elim (Bool-cases (same e.id id)) [
    | inl b ↦
        let is_e : e ≡ previous = ground arith in
        rw (b, put_endpoint) (cons_both (ap (λ x. x.id) is_e ∙ k) refl)
    | inr b ↦
        rw (b, put_endpoint) (ap (◌∷◌ e.id) (put_endpoint_ids id v previous es (ground arith) k))
  ]

  pub create-Safe :
      (input : OutboundWebhookEndpoint) (current : OutboundWebhookStore)
      → IsWellFormed current
      → All (λ e. e.id ≢ input.id) current.endpoints
      → AfterOk Safe (create_outbound_webhook_endpoint to_lower_case normalized input current)
  unfolding create_outbound_webhook_endpoint persist_file_outbound_webhook_endpoint
  create-Safe input current wf fresh =
      bind-AfterOk Safe (parse_endpoint to_lower_case normalized input) _ (λ endpoint e.
        elim (Bool-cases (
          any (λ x. same (to_lower_case x.name) (to_lower_case endpoint.name)) current.endpoints)) [
            | inl b ↦ rw b tt
            | inr b ↦ rw b (
              wf.0,
              append-Distinct (λ x. x.id) current.endpoints (endpoint ∷ []) wf.1 (tt, tt)
                  (
                    subst (λ s. All (λ x. x.id ≢ s) current.endpoints)
                        (parse_keeps input endpoint e) fresh,
                    tt,
                  ),
            )
          ])

  pub update-Safe :
      (id : String) (input : UpdateOutboundWebhookEndpointInput) (now : ℕ)
      (current : OutboundWebhookStore)
      → IsWellFormed current
      → AfterOk Safe
          (update_outbound_webhook_endpoint to_lower_case normalized id input now current)
  unfolding update_outbound_webhook_endpoint merge_outbound_webhook_endpoint_update
  update-Safe id input now current wf =
      elim (Option-cases (find (λ e. same e.id id) current.endpoints)) [
        | inl n ↦ rw (n, update_outbound_webhook_endpoint) tt
        | inr (previous, f) ↦
            rw (f, update_outbound_webhook_endpoint)
              (bind-AfterOk Safe
                (merge_outbound_webhook_endpoint_update to_lower_case normalized previous input now)
                _
                (λ endpoint e.
                  elim (Bool-cases (is_taken to_lower_case id endpoint.name current.endpoints)) [
                    | inl b ↦ rw b tt
                    | inr b ↦ rw b (
                      wf.0,
                      subst Distinct
                          (put_endpoint_ids id endpoint previous current.endpoints f
                            (parse_keeps _ endpoint e))
                          wf.1,
                    )
                  ]))
      ]
