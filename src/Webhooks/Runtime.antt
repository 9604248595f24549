-- ===== src/Webhooks/Runtime.antt =====
-- packages/automation/src/outbound-webhooks.ts: the circuit breaker of an endpoint.
use listmonk_ops.Prelude.{
  ℕ, ◌+◌, String, Option, none, some, Bool, true, false, Result, ok, err, if◌then◌else◌, List, [],
  ◌∷◌, ◌++◌, same, leb, ◌==◌, ◌&&◌, not, find, any, filter,
}
use listmonk_ops.Webhooks.{
  OutboundWebhookEndpoint, OutboundWebhookEndpointRuntime, OutboundWebhookStore, CircuitState,
  closed, open_circuit, WebhookError, endpoint_not_found,
}

abbrev pub initial_runtime : String → OutboundWebhookEndpointRuntime
initial_runtime id = record {
  endpoint_id = id;
  consecutive_failures = 0;
  circuit_state = closed;
  circuit_opened_at = none;
  circuit_open_until = none;
  last_failure_at = none;
  last_success_at = none;
}

-- The runtime after an attempt.
unfoldable pub next_runtime :
    OutboundWebhookEndpoint
    → Bool
    → ℕ
    → OutboundWebhookEndpointRuntime
    → OutboundWebhookEndpointRuntime
next_runtime endpoint true now previous = record previous {
  consecutive_failures = 0;
  circuit_state = closed;
  circuit_opened_at = none;
  circuit_open_until = none;
  last_success_at = some now;
}
next_runtime endpoint false now previous =
    let failures = previous.consecutive_failures + 1 in
    let should_open = leb endpoint.circuit_failure_threshold failures in
    record previous {
      consecutive_failures = failures;
      circuit_state = if should_open then open_circuit else closed;
      circuit_opened_at = if should_open then some now else none;
      circuit_open_until = if should_open then some (now + endpoint.circuit_cooldown_ms) else none;
      last_failure_at = some now;
    }

-- `findIndex` and the update at the index, or the append of a first runtime.
unfoldable pub put_runtime :
    OutboundWebhookEndpoint
    → Bool
    → ℕ
    → List OutboundWebhookEndpointRuntime
    → List OutboundWebhookEndpointRuntime
unfolding next_runtime
put_runtime endpoint success now [] =
    next_runtime endpoint success now (initial_runtime endpoint.id) ∷ []
put_runtime endpoint success now (r ∷ rest) =
    if same r.endpoint_id endpoint.id
    then next_runtime endpoint success now r ∷ rest
    else r ∷ put_runtime endpoint success now rest

unfoldable pub update_endpoint_runtime_after_attempt :
    List OutboundWebhookEndpointRuntime
    → Option OutboundWebhookEndpoint
    → Bool
    → ℕ
    → List OutboundWebhookEndpointRuntime
unfolding put_runtime
update_endpoint_runtime_after_attempt runtimes none success now = runtimes
update_endpoint_runtime_after_attempt runtimes (some endpoint) success now =
    if not endpoint.enabled && not success
    then runtimes
    else put_runtime endpoint success now runtimes

abbrev pub is_closed : CircuitState → Bool
is_closed closed = true
is_closed open_circuit = false

unfoldable pub reset_outbound_webhook_endpoint_circuit :
    String
    → OutboundWebhookStore
    → Result WebhookError (OutboundWebhookStore × OutboundWebhookEndpointRuntime)
reset_outbound_webhook_endpoint_circuit id current =
    if any (λ e. same e.id id) current.endpoints
    then elim (find (λ r. same r.endpoint_id id) current.endpoint_runtime) [
      | none ↦ ok (current, initial_runtime id)
      | some existing ↦
          let runtime = record existing {
            consecutive_failures = 0;
            circuit_state = closed;
            circuit_opened_at = none;
            circuit_open_until = none;
          } in
          ok (
            if is_closed existing.circuit_state && existing.consecutive_failures == 0
            then (current, existing)
            else (
              record current {
                endpoint_runtime =
                    filter (λ r. not (same r.endpoint_id id)) current.endpoint_runtime
                    ++ (runtime ∷ []);
              },
              runtime,
            ))
    ]
    else err endpoint_not_found
