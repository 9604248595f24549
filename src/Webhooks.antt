-- ===== src/Webhooks.antt =====
-- packages/automation/src/outbound-webhooks.ts: the data of the webhook store. Times are milliseconds
-- since the epoch; the source compares their texts, which `toISOString` writes in one format.
pub mod Events
pub mod Endpoints
pub mod Redaction
pub mod Runtime
pub mod Completion
pub mod Queue
pub mod Claiming
pub mod Replay
pub mod Maintenance
pub mod Keys
pub mod Queueing
pub mod Targets
pub mod Enqueue
pub mod Leasing
pub mod Preservation
pub mod EndpointSteps
pub mod Steps
pub mod Replacements
pub mod Recovery
pub mod Retention
pub mod Dispatch
pub mod Circuit
pub mod Delivery
mod Tests
mod StoreTests
mod WorkerTests
use listmonk_ops.Prelude.{
  ℕ, String, Option, none, some, Bool, true, false, if◌then◌else◌, List, [], ◌∷◌, same, find,
}
use listmonk_ops.Sequences.Values.{Fields}

pub data OutboundWebhookDeliveryStatus : Type 0 where
  pending delivering retry succeeded exhausted : OutboundWebhookDeliveryStatus

pub record OutboundWebhookEvent : Type 0 where
  pub id : String
  pub event_type : String
  pub occurred_at : ℕ
  pub source : String
  pub correlation_id : Option String
  pub subject : Option (String × String)
  pub event_fields : Fields

pub record OutboundWebhookEndpoint : Type 0 where
  pub id : String
  pub name : String
  pub url : String
  pub secret_ref : String
  pub event_filters : List String
  pub enabled : Bool
  pub timeout_ms : ℕ
  pub max_attempts : ℕ
  pub circuit_failure_threshold : ℕ
  pub circuit_cooldown_ms : ℕ
  pub created_at : ℕ
  pub updated_at : ℕ

pub data CircuitState : Type 0 where
  closed open_circuit : CircuitState

pub record OutboundWebhookEndpointRuntime : Type 0 where
  pub endpoint_id : String
  pub consecutive_failures : ℕ
  pub circuit_state : CircuitState
  pub circuit_opened_at : Option ℕ
  pub circuit_open_until : Option ℕ
  pub last_failure_at : Option ℕ
  pub last_success_at : Option ℕ

pub record OutboundWebhookDelivery : Type 0 where
  pub id : String
  pub event_id : String
  pub endpoint_id : String
  pub event : OutboundWebhookEvent
  pub status : OutboundWebhookDeliveryStatus
  pub attempt_count : ℕ
  pub manual_retry_count : ℕ
  pub next_attempt_at : ℕ
  pub last_attempt_at : Option ℕ
  pub completed_at : Option ℕ
  pub status_code : Option ℕ
  pub last_error : Option String
  pub lease_token : Option String
  pub lease_expires_at : Option ℕ

-- A store, but for its workers.
pub record OutboundWebhookStore : Type 0 where
  pub endpoints : List OutboundWebhookEndpoint
  pub deliveries : List OutboundWebhookDelivery
  pub endpoint_runtime : List OutboundWebhookEndpointRuntime

-- What an operation throws.
pub data WebhookError : Type 0 where
  delivery_not_found endpoint_not_found : WebhookError
  conflict endpoint_unavailable delivery_state_conflict lease_conflict : WebhookError
  out_of_range invalid_endpoint : WebhookError

-- `["succeeded", "exhausted"].includes(status)`.
abbrev pub is_terminal : OutboundWebhookDeliveryStatus → Bool
is_terminal succeeded = true
is_terminal exhausted = true
is_terminal _ = false

abbrev pub is_delivering : OutboundWebhookDeliveryStatus → Bool
is_delivering delivering = true
is_delivering _ = false

abbrev pub is_exhausted : OutboundWebhookDeliveryStatus → Bool
is_exhausted exhausted = true
is_exhausted _ = false

-- Replacing the first delivery of an identifier, `deliveries[index] = value`.
unfoldable pub put_delivery :
    String → OutboundWebhookDelivery → List OutboundWebhookDelivery → List OutboundWebhookDelivery
put_delivery id value [] = []
put_delivery id value (d ∷ rest) =
    if same d.id id then value ∷ rest else d ∷ put_delivery id value rest

-- A `Map` of deliveries by their identifiers: `set` replaces the value of a key that stands.
unfoldable pub map_set :
    OutboundWebhookDelivery → List OutboundWebhookDelivery → List OutboundWebhookDelivery
map_set value [] = value ∷ []
map_set value (d ∷ rest) = if same d.id value.id then value ∷ rest else d ∷ map_set value rest

abbrev pub map_get : List OutboundWebhookDelivery → String → Option OutboundWebhookDelivery
map_get entries id = find (λ d. same d.id id) entries

-- The `Map` that a loop of `set` leaves.
unfoldable pub map_of :
    List OutboundWebhookDelivery → List OutboundWebhookDelivery → List OutboundWebhookDelivery
unfolding map_set
map_of entries [] = entries
map_of entries (d ∷ rest) = map_of (map_set d entries) rest

-- `deliveries.map((delivery) => replacements.get(delivery.id) ?? delivery)`.
unfoldable pub replace_deliveries :
    List OutboundWebhookDelivery → List OutboundWebhookDelivery → List OutboundWebhookDelivery
replace_deliveries replacements [] = []
replace_deliveries replacements (d ∷ rest) =
    elim (map_get replacements d.id) [ none ↦ d | some v ↦ v ]
    ∷ replace_deliveries replacements rest
