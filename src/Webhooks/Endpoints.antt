-- ===== src/Webhooks/Endpoints.antt =====
-- packages/automation/src/outbound-webhooks.ts: creating, updating and deleting an endpoint. The
-- checks of its texts (`normalizeOutboundWebhookEndpointUrl`, the schema of names, references and
-- filters) are one function, which returns the endpoint with its normal texts or nothing.
use listmonk_ops.Prelude.{
  ℕ, String, Option, none, some, Bool, Result, ok, err, ◌>>=◌, if◌then◌else◌, List, [], ◌∷◌, ◌++◌,
  same, leb, ◌&&◌, not, find, any, filter, map,
}
use listmonk_ops.Webhooks.{
  OutboundWebhookEndpoint, OutboundWebhookDelivery, OutboundWebhookStore, WebhookError,
  invalid_endpoint, endpoint_not_found, conflict, exhausted, is_terminal,
}

-- `input.name === undefined ? {} : { name: input.name }`.
abbrev pub or_previous {ℓ} : {A : Type ℓ} → A → Option A → A
or_previous previous none = previous
or_previous previous (some a) = a

pub record UpdateOutboundWebhookEndpointInput : Type 0 where
  pub name : Option String
  pub url : Option String
  pub secret_ref : Option String
  pub event_filters : Option (List String)
  pub enabled : Option Bool
  pub timeout_ms : Option ℕ
  pub max_attempts : Option ℕ
  pub circuit_failure_threshold : Option ℕ
  pub circuit_cooldown_ms : Option ℕ

-- `z.number().int().min(low).max(high)`.
abbrev pub in_range : ℕ → ℕ → ℕ → Bool
in_range low high n = leb low n && leb n high

abbrev pub has_valid_numbers : OutboundWebhookEndpoint → Bool
has_valid_numbers e =
    in_range 100 30_000 e.timeout_ms
    && in_range 1 12 e.max_attempts
    && in_range 1 100 e.circuit_failure_threshold
    && in_range 1_000 86_400_000 e.circuit_cooldown_ms

-- Another endpoint of the store has the name.
abbrev pub is_taken : (String → String) → String → String → List OutboundWebhookEndpoint → Bool
is_taken to_lower_case id name endpoints =
    any (λ e. not (same e.id id) && same (to_lower_case e.name) (to_lower_case name)) endpoints

unfoldable pub put_endpoint :
    String → OutboundWebhookEndpoint → List OutboundWebhookEndpoint → List OutboundWebhookEndpoint
put_endpoint id value [] = []
put_endpoint id value (e ∷ rest) =
    if same e.id id then value ∷ rest else e ∷ put_endpoint id value rest

module _ (to_lower_case : String → String)
    (normalized : OutboundWebhookEndpoint → Option OutboundWebhookEndpoint) where
  unfoldable pub parse_endpoint :
      OutboundWebhookEndpoint → Result WebhookError OutboundWebhookEndpoint
  parse_endpoint e = elim (normalized e) [
    | none ↦ err invalid_endpoint
    | some value ↦ if has_valid_numbers value then ok value else err invalid_endpoint
  ]

  unfoldable pub merge_outbound_webhook_endpoint_update :
      OutboundWebhookEndpoint
      → UpdateOutboundWebhookEndpointInput
      → ℕ
      → Result WebhookError OutboundWebhookEndpoint
  unfolding parse_endpoint
  merge_outbound_webhook_endpoint_update previous input now = parse_endpoint (record previous {
    name = or_previous previous.name input.name;
    url = or_previous previous.url input.url;
    secret_ref = or_previous previous.secret_ref input.secret_ref;
    event_filters = or_previous previous.event_filters input.event_filters;
    enabled = or_previous previous.enabled input.enabled;
    timeout_ms = or_previous previous.timeout_ms input.timeout_ms;
    max_attempts = or_previous previous.max_attempts input.max_attempts;
    circuit_failure_threshold =
        or_previous previous.circuit_failure_threshold input.circuit_failure_threshold;
    circuit_cooldown_ms = or_previous previous.circuit_cooldown_ms input.circuit_cooldown_ms;
    updated_at = now;
  })

  unfoldable pub persist_file_outbound_webhook_endpoint :
      OutboundWebhookEndpoint
      → OutboundWebhookStore
      → Result WebhookError (OutboundWebhookStore × OutboundWebhookEndpoint)
  persist_file_outbound_webhook_endpoint endpoint current =
      if any (λ e. same (to_lower_case e.name) (to_lower_case endpoint.name)) current.endpoints
      then err conflict
      else ok (record current { endpoints = current.endpoints ++ (endpoint ∷ []) }, endpoint)

  unfoldable pub create_outbound_webhook_endpoint :
      OutboundWebhookEndpoint
      → OutboundWebhookStore
      → Result WebhookError (OutboundWebhookStore × OutboundWebhookEndpoint)
  unfolding persist_file_outbound_webhook_endpoint parse_endpoint
  create_outbound_webhook_endpoint input current =
      parse_endpoint input >>= (λ endpoint. persist_file_outbound_webhook_endpoint endpoint current)

  unfoldable pub update_outbound_webhook_endpoint :
      String
      → UpdateOutboundWebhookEndpointInput
      → ℕ
      → OutboundWebhookStore
      → Result WebhookError (OutboundWebhookStore × OutboundWebhookEndpoint)
  unfolding merge_outbound_webhook_endpoint_update put_endpoint
  update_outbound_webhook_endpoint id input now current =
      elim (find (λ e. same e.id id) current.endpoints) [
        | none ↦ err endpoint_not_found
        | some previous ↦ merge_outbound_webhook_endpoint_update previous input now >>= (λ endpoint.
            if is_taken to_lower_case id endpoint.name current.endpoints
            then err conflict
            else ok (
              record current { endpoints = put_endpoint id endpoint current.endpoints },
              endpoint,
            ))
      ]

abbrev pub exhaust_delivery : String → ℕ → OutboundWebhookDelivery → OutboundWebhookDelivery
exhaust_delivery id now d =
    if same d.endpoint_id id && not (is_terminal d.status)
    then record d {
      status = exhausted;
      completed_at = some now;
      last_error = some "Endpoint deleted before delivery";
      lease_token = none;
      lease_expires_at = none;
    }
    else d

unfoldable pub delete_outbound_webhook_endpoint :
    String
    → ℕ
    → OutboundWebhookStore
    → Result WebhookError (OutboundWebhookStore × OutboundWebhookEndpoint)
delete_outbound_webhook_endpoint id now current =
    elim (find (λ e. same e.id id) current.endpoints) [
      | none ↦ err endpoint_not_found
      | some endpoint ↦ ok (
        record current {
          endpoints = filter (λ e. not (same e.id id)) current.endpoints;
          endpoint_runtime = filter (λ r. not (same r.endpoint_id id)) current.endpoint_runtime;
          deliveries = map (exhaust_delivery id now) current.deliveries;
        },
        endpoint,
      )
    ]
