-- ===== src/Webhooks/Circuit.antt =====
-- The circuit breaker of an endpoint over a history of attempts.
use listmonk_ops.Prelude.{
  ℕ, ◌+◌, ◌<◌, String, some, Bool, true, false, if◌then◌else◌, List, [], ◌∷◌, same, leb, not, ◌≡◌,
  refl, ap, ◌∙◌, arith, Bool-cases, inl, inr,
}
use listmonk_ops.Webhooks.{
  OutboundWebhookEndpoint, OutboundWebhookEndpointRuntime, closed, open_circuit,
}
use listmonk_ops.Webhooks.Runtime.{
  is_closed, initial_runtime, next_runtime, put_runtime, update_endpoint_runtime_after_attempt,
}

-- The stored runtime of an endpoint, or the one that it starts with.
abbrev pub runtime_of :
    String → List OutboundWebhookEndpointRuntime → OutboundWebhookEndpointRuntime
runtime_of id [] = initial_runtime id
runtime_of id (r ∷ rest) = if same r.endpoint_id id then r else runtime_of id rest

-- Attempts in the order in which they were completed: whether they succeeded, and when.
unfoldable pub run_attempts :
    OutboundWebhookEndpoint
    → List (Bool × ℕ)
    → List OutboundWebhookEndpointRuntime
    → List OutboundWebhookEndpointRuntime
unfolding update_endpoint_runtime_after_attempt
run_attempts endpoint [] runtimes = runtimes
run_attempts endpoint ((success, now) ∷ rest) runtimes =
    run_attempts endpoint rest
      (update_endpoint_runtime_after_attempt runtimes (some endpoint) success now)

-- The failures since the last success, after `n` before the history.
abbrev pub trailing_failures : ℕ → List (Bool × ℕ) → ℕ
trailing_failures n [] = n
trailing_failures n ((true, now) ∷ rest) = trailing_failures 0 rest
trailing_failures n ((false, now) ∷ rest) = trailing_failures (n + 1) rest

-- The runtime counts `n` failures, and its circuit is open exactly at the threshold or above.
abbrev pub Counts : OutboundWebhookEndpoint → ℕ → OutboundWebhookEndpointRuntime → Type 0
Counts endpoint n r =
    (r.consecutive_failures ≡ n)
    × (is_closed r.circuit_state ≡ not (leb endpoint.circuit_failure_threshold n))

runtime_of-put_runtime :
    (endpoint : OutboundWebhookEndpoint) (success : Bool) (now : ℕ)
    (rs : List OutboundWebhookEndpointRuntime)
    → runtime_of endpoint.id (put_runtime endpoint success now rs)
      ≡ next_runtime endpoint success now (runtime_of endpoint.id rs)
unfolding put_runtime
runtime_of-put_runtime endpoint success now [] = rw (head success) refl
  where
    head :
        (s : Bool)
        → same (next_runtime endpoint s now (initial_runtime endpoint.id)).endpoint_id endpoint.id
          ≡ true
    head true = ground arith
    head false = ground arith
runtime_of-put_runtime endpoint success now (r ∷ rest) =
    elim (Bool-cases (same r.endpoint_id endpoint.id)) [
      | inl b ↦ rw (b, put_runtime) (rw (kept success ∙ b) refl)
      | inr b ↦ rw (b, put_runtime) (rw b (runtime_of-put_runtime endpoint success now rest))
    ]
  where
    kept :
        (s : Bool)
        → same (next_runtime endpoint s now r).endpoint_id endpoint.id
          ≡ same r.endpoint_id endpoint.id
    kept true = refl
    kept false = refl

next_runtime-Counts :
    (endpoint : OutboundWebhookEndpoint) (n now : ℕ) (r : OutboundWebhookEndpointRuntime)
    → 0 < endpoint.circuit_failure_threshold
    → Counts endpoint n r
    → Counts endpoint 0 (next_runtime endpoint true now r)
      × Counts endpoint (n + 1) (next_runtime endpoint false now r)
unfolding next_runtime
next_runtime-Counts endpoint n now r positive (count, state) = (
  (refl, ground arith),
  (ap (λ k. k + 1) count, rw count (opened (leb endpoint.circuit_failure_threshold (n + 1)))),
)
  where
    opened : (b : Bool) → is_closed (if b then open_circuit else closed) ≡ not b
    opened true = refl
    opened false = refl

-- For an enabled endpoint with a positive threshold, whose stored runtime counts `n` failures: after
-- every history of attempts it counts the failures since the last success of the history, those
-- before included if there is none, and its circuit is open exactly if they reach the threshold.
pub run_attempts-Counts :
    (endpoint : OutboundWebhookEndpoint) (attempts : List (Bool × ℕ)) (n : ℕ)
    (runtimes : List OutboundWebhookEndpointRuntime)
    → endpoint.enabled ≡ true
    → 0 < endpoint.circuit_failure_threshold
    → Counts endpoint n (runtime_of endpoint.id runtimes)
    → Counts endpoint
        (trailing_failures n attempts)
        (runtime_of endpoint.id (run_attempts endpoint attempts runtimes))
unfolding run_attempts update_endpoint_runtime_after_attempt
run_attempts-Counts endpoint [] n rs enabled positive c = c
run_attempts-Counts endpoint ((true, now) ∷ rest) n rs enabled positive c =
    rw (enabled, run_attempts, update_endpoint_runtime_after_attempt)
      (run_attempts-Counts endpoint rest 0 (put_runtime endpoint true now rs) enabled positive (
        rw (runtime_of-put_runtime endpoint true now rs)
          (next_runtime-Counts endpoint n now (runtime_of endpoint.id rs) positive c).0))
run_attempts-Counts endpoint ((false, now) ∷ rest) n rs enabled positive c =
    rw (enabled, run_attempts, update_endpoint_runtime_after_attempt)
      (run_attempts-Counts endpoint rest (n + 1) (put_runtime endpoint false now rs) enabled
        positive
        (rw (runtime_of-put_runtime endpoint false now rs)
          (next_runtime-Counts endpoint n now (runtime_of endpoint.id rs) positive c).1))
