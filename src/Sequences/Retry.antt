-- ===== src/Sequences/Retry.antt =====
-- packages/automation/src/sequence-engine.ts, `retryEnrollment`: the backoff, the last attempt, and
-- whether `completeClaim` can store the result.
use Prim.Native.String.{String, [], ◌∷◌}
use Prim.Native.String
use Prim.Native.String.append
use native.Mathlib.Nat.{pow-le-pow_right, mul-le-mul_left}
use listmonk_ops.Prelude.{
  ℕ, zero, suc, ◌+◌, ◌-◌, ◌*◌, ◌^◌, ◌/◌, ◌<◌, ◌≤◌, min, Option, none, some, err, leb, ◌⊎◌, ◌↔◌, ◌≡◌,
  refl, arith, ap, Bool-cases, inl, inr, ◌∙◌,
}
use listmonk_ops.Sequences.{SequenceEnrollment, pending, failed, schema, parse_sequence_enrollment}
use listmonk_ops.Sequences.Values.{text_count, text_take}
use listmonk_ops.Sequences.Engine.{
  retry_enrollment, capped_delay_ms, retry_delay_ms, normalized_jitter, exhausted_message, decimal,
  truncate_error, without_lease,
}

text_count-append : (s t : String) → text_count (String.◌++◌ s t) ≡ text_count s + text_count t
text_count-append [] t = ap text_count (λ i. append.nil t i) ∙ omega arith
text_count-append (c ∷ s) t =
    ap text_count (λ i. append.cons c s t i) ∙ omega (arith, text_count-append s t)

text_count-text_take : (n : ℕ) (s : String) → text_count (text_take n s) ≡ min n (text_count s)
text_count-text_take zero s = omega arith
text_count-text_take (suc n) [] = omega arith
text_count-text_take (suc n) (c ∷ s) = omega (arith, text_count-text_take n s)

jitter_le : (j : Option ℕ) → normalized_jitter j ≤ 1_000
jitter_le none = omega arith
jitter_le (some j) = omega arith

decimal_24 : decimal 24 ≡ "24"
unfolding decimal
decimal_24 = refl

text_count-exhausted :
    (message : String)
    → text_count (exhausted_message 24 message) ≡ 54 + min 1_000 (text_count message)
unfolding exhausted_message
text_count-exhausted message =
    let prefix : text_count "Sequence delivery failed after " ≡ 31 = refl in
    let number : text_count "24" ≡ 2 = refl in
    let middle : text_count " retryable attempts: " ≡ 21 = refl in
    simp (decimal_24, text_count-append, text_count-text_take)
      (omega (arith, prefix, middle, number))

-- `min(5000 * 2 ** n, 300000)`, with no bound on the exponent.
abbrev pub backoff_ms : ℕ → ℕ
backoff_ms n = min (5_000 * 2 ^ n) 300_000

capped_is_backoff : (n : ℕ) → capped_delay_ms (n + 1) ≡ backoff_ms n
unfolding capped_delay_ms
capped_is_backoff n = elim (Bool-cases (leb 16 n)) [
  | inl b ↦
      over_cap (pow-le-pow_right {n = 2} (omega arith) {i = 16} {j = n} (ground arith))
        (ground arith)
  | inr b ↦ ap (λ k. min (5_000 * 2 ^ k) 300_000) (ground arith)
]
  where
    over_cap :
        65_536 ≤ 2 ^ n
        → 16 ≤ n
        → min (5_000 * 2 ^ min (n + 1 - 1) 16) 300_000 ≡ min (5_000 * 2 ^ n) 300_000
    over_cap big le =
        ap (λ k. min (5_000 * 2 ^ k) 300_000) {x = min (n + 1 - 1) 16} {y = 16} (omega arith)
        ∙ omega (arith, big)

delay_bounds :
    (n : ℕ) (j : Option ℕ)
    → (backoff_ms n ≤ 2 * retry_delay_ms (n + 1) j) × (retry_delay_ms (n + 1) j ≤ backoff_ms n)
unfolding retry_delay_ms
delay_bounds n j =
    rw (capped_is_backoff n, retry_delay_ms)
      (rounded (backoff_ms n) (normalized_jitter j) (jitter_le j))
  where
    rounded :
        (c k : ℕ)
        → k ≤ 1_000
        → (c ≤ 2 * ((c * (1_000 + k) + 1_000) / 2_000)) × ((c * (1_000 + k) + 1_000) / 2_000 ≤ c)
    rounded c k le = let most = mul-le-mul_left c le in (omega (arith, most), omega (arith, most))

-- What a retry leaves: the enrollment failed, or pending again within its backoff.
abbrev pub IsBackedOff : SequenceEnrollment → ℕ → SequenceEnrollment → Type 0
IsBackedOff e now next =
    ((24 ≤ next.retry_count) × (next.status ≡ failed))
    ⊎ ((next.retry_count < 24)
        × (next.status ≡ pending)
        × (2 * now + backoff_ms e.retry_count ≤ 2 * next.next_run_at)
        × (next.next_run_at ≤ now + backoff_ms e.retry_count))

-- A retry counts one attempt, keeps the current step and drops the lease token. With 24 attempts or more the enrollment
-- failed; before that it is pending, and due again after at least half of, and at most,
-- `min(5000 * 2 ** previous attempts, 300000)` milliseconds, whatever the jitter.
pub retry_enrollment-IsBackedOff :
    (e : SequenceEnrollment) (now : ℕ) (message : String) (jitter : Option ℕ)
    → let next = retry_enrollment e now message jitter in
      (next.retry_count ≡ e.retry_count + 1)
      × (next.current_step_id ≡ e.current_step_id)
      × (next.lease_token ≡ none)
      × IsBackedOff e now next
unfolding retry_enrollment without_lease
retry_enrollment-IsBackedOff e now message jitter =
    let (least, most) = delay_bounds e.retry_count jitter in
    elim (Bool-cases (leb 24 (e.retry_count + 1))) [
      | inl b ↦ rw (b, retry_enrollment) (refl, refl, refl, inl (ground arith, refl))
      | inr b ↦
          rw (b, retry_enrollment)
            (refl, refl, refl, inr (ground arith, refl, omega (arith, least), omega (arith, most)))
    ]

parse-schema :
    (e : SequenceEnrollment) (message : String)
    → 0 < e.revision
    → 0 < e.subscriber_id
    → e.last_error ≡ some message
    → (parse_sequence_enrollment e ≡ err schema) ↔ (1_000 < text_count message)
unfolding parse_sequence_enrollment
parse-schema e message rev sub m =
    rw (m, parse_sequence_enrollment) (λ h. ground arith, λ h. ground arith)

-- For an enrollment with a positive revision and subscriber that had at most 23 retries, the result
-- of a retry fails the schema that `completeClaim` applies exactly if this was the 24th attempt
-- and the message has more than 946 characters.
pub retry_enrollment-schema :
    (e : SequenceEnrollment) (now : ℕ) (message : String) (jitter : Option ℕ)
    → 0 < e.revision
    → 0 < e.subscriber_id
    → e.retry_count < 24
    → (parse_sequence_enrollment (retry_enrollment e now message jitter) ≡ err schema)
      ↔ ((e.retry_count ≡ 23) × (946 < text_count message))
unfolding retry_enrollment without_lease
retry_enrollment-schema e now message jitter rev sub few =
    elim (Bool-cases (leb 24 (e.retry_count + 1))) [
      | inl b ↦
          let last : e.retry_count + 1 ≡ 24 = ground arith in
          let (to, from) =
            parse-schema (retry_enrollment e now message jitter) (exhausted_message 24 message)
              (rw (b, retry_enrollment) rev) (rw (b, retry_enrollment) sub)
              (rw (b, retry_enrollment) (ap (λ n. some (exhausted_message n message)) last)) in
          (
            λ h. (omega (arith, last), omega (arith, to h, text_count-exhausted message)),
            λ h. from (omega (arith, h.1, text_count-exhausted message)),
          )
      | inr b ↦
          let (to, from) =
            parse-schema (retry_enrollment e now message jitter) (truncate_error message)
              (rw (b, retry_enrollment) rev) (rw (b, retry_enrollment) sub)
              (rw (b, retry_enrollment) refl) in
          (
            λ h. absurd (omega (arith, to h, text_count-text_take 1_000 message)),
            λ h. absurd (ground arith),
          )
    ]
