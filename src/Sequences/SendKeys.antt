-- ===== src/Sequences/SendKeys.antt =====
-- packages/automation/src/sequence-engine.ts, deterministicSendKey: what the key of a message tells.
-- createSequenceEnrollment makes an identifier with randomUUID unless it is given one.
use Prim.Native.Char.{Char}
use native.Mathlib.Nat.{mul_assoc}
use Prim.Native.String.{String, [], ◌∷◌}
use Prim.Native.String
use Prim.Native.String.append
use listmonk_ops.Prelude.{
  ℕ, zero, suc, ◌+◌, ◌*◌, ◌/◌, ◌%◌, ◌<◌, ◌≤◌, Option, none, some, if◌then◌else◌, ltb, same, ◌≡◌,
  refl, sym, ap, ◌∙◌, arith, Bool-cases, inl, inr, String_discrete,
}
use listmonk_ops.Sequences.{SequenceEnrollment}
use listmonk_ops.Sequences.Values.{text_count}
use listmonk_ops.Sequences.Texts.{append_cancel, append_split}
use listmonk_ops.Sequences.Engine.{digit, decimal_from, decimal}
use listmonk_ops.Sequences.Execute.{deterministic_send_key}

-- The value of a text of one digit.
unfoldable pub digit_value : String → Option ℕ
digit_value s =
    if same s "0"
    then some 0
    else if same s "1"
    then some 1
    else if same s "2"
    then some 2
    else if same s "3"
    then some 3
    else if same s "4"
    then some 4
    else if same s "5"
    then some 5
    else if same s "6"
    then some 6
    else if same s "7"
    then some 7
    else if same s "8"
    then some 8
    else if same s "9"
    then some 9
    else none

-- The number in front of a text, and what follows its digits.
unfoldable pub read_digits : ℕ → String → ℕ × String
unfolding digit_value
read_digits acc [] = (acc, [])
read_digits acc (c ∷ s) =
    let longer = λ (d : ℕ). read_digits (acc * 10 + d) s in
    elim (digit_value (c ∷ [])) [ none ↦ (acc, c ∷ s) | some d ↦ longer d ]

append_one : (c : Char) (t : String) → String.◌++◌ (c ∷ []) t ≡ c ∷ t
append_one c t = (λ i. append.cons c [] t i) ∙ ap (◌∷◌ c) (λ i. append.nil t i)

append_assoc : (s t u : String) → String.◌++◌ (String.◌++◌ s t) u ≡ String.◌++◌ s (String.◌++◌ t u)
append_assoc [] t u =
    ap (λ x. String.◌++◌ x u) (λ i. append.nil t i) ∙ sym (λ i. append.nil (String.◌++◌ t u) i)
append_assoc (c ∷ s) t u =
    ap (λ x. String.◌++◌ x u) (λ i. append.cons c s t i)
    ∙ (λ i. append.cons c (String.◌++◌ s t) u i)
    ∙ ap (◌∷◌ c) (append_assoc s t u)
    ∙ sym (λ i. append.cons c s (String.◌++◌ t u) i)

read_one :
    (acc d : ℕ) (c : Char) (t : String)
    → digit_value (c ∷ []) ≡ some d
    → read_digits acc (String.◌++◌ (c ∷ []) t) ≡ read_digits (acc * 10 + d) t
unfolding read_digits
read_one acc d c t h = ap (read_digits acc) (append_one c t) ∙ rw (h, read_digits) refl

read_none :
    (acc : ℕ) (c : Char) (t : String)
    → digit_value (c ∷ []) ≡ none
    → read_digits acc (String.◌++◌ (c ∷ []) t) ≡ (acc, String.◌++◌ (c ∷ []) t)
unfolding read_digits
read_none acc c t h =
    ap (read_digits acc) (append_one c t)
    ∙ rw (h, read_digits) (ap (λ x. (acc, x)) (sym (append_one c t)))

read-digit :
    (acc d : ℕ) (t : String)
    → d < 10
    → read_digits acc (String.◌++◌ (digit d) t) ≡ read_digits (acc * 10 + d) t
unfolding digit_value String_discrete
read-digit acc zero t h = read_one acc 0 "0" t refl
read-digit acc (suc zero) t h = read_one acc 1 "1" t refl
read-digit acc (suc (suc zero)) t h = read_one acc 2 "2" t refl
read-digit acc (suc (suc (suc zero))) t h = read_one acc 3 "3" t refl
read-digit acc (suc (suc (suc (suc zero)))) t h = read_one acc 4 "4" t refl
read-digit acc (suc (suc (suc (suc (suc zero))))) t h = read_one acc 5 "5" t refl
read-digit acc (suc (suc (suc (suc (suc (suc zero)))))) t h = read_one acc 6 "6" t refl
read-digit acc (suc (suc (suc (suc (suc (suc (suc zero))))))) t h = read_one acc 7 "7" t refl
read-digit acc (suc (suc (suc (suc (suc (suc (suc (suc zero)))))))) t h = read_one acc 8 "8" t refl
read-digit acc (suc (suc (suc (suc (suc (suc (suc (suc (suc zero))))))))) t h =
    read_one acc 9 "9" t refl
read-digit acc (suc (suc (suc (suc (suc (suc (suc (suc (suc (suc d)))))))))) t h =
    absurd (omega (arith, h))

-- The factor by which the digits of a number shift what stands before them.
shift_of : ℕ → ℕ → ℕ
shift_of zero n = 10
shift_of (suc fuel) n = let longer = shift_of fuel (n / 10) * 10 in if ltb n 10 then 10 else longer

read-decimal_from :
    (fuel n acc : ℕ) (t : String)
    → n ≤ fuel
    → read_digits acc (String.◌++◌ (decimal_from fuel n) t)
      ≡ read_digits (acc * shift_of fuel n + n) t
unfolding decimal_from shift_of
read-decimal_from zero n acc t h = read-digit acc n t (omega (arith, h))
read-decimal_from (suc fuel) n acc t h = elim (Bool-cases (ltb n 10)) [
  | inl b ↦ rw (b, decimal_from, shift_of) (read-digit acc n t (ground arith))
  | inr b ↦
      let q = n / 10 in
      let r = n % 10 in
      let p = shift_of fuel q in
      rw (b, decimal_from, shift_of)
        (ap (read_digits acc) (append_assoc (decimal_from fuel q) (digit r) t)
          ∙ read-decimal_from fuel q acc (String.◌++◌ (digit r) t) (ground (arith, h))
          ∙ read-digit (acc * p + q) r t (omega arith)
          ∙ ap (λ m. read_digits m t) (shifts acc p q r n (omega arith)))
]
  where
    shifts : (acc p q r n : ℕ) → n ≡ q * 10 + r → (acc * p + q) * 10 + r ≡ acc * (p * 10) + n
    shifts acc p q r n e = omega (arith, e, mul_assoc acc p 10)

-- The decimal text of a number, with a text behind it that does not begin with a digit, reads as the number
-- and that text.
pub read_digits-decimal :
    (n : ℕ) (c : Char) (t : String)
    → digit_value (c ∷ []) ≡ none
    → read_digits 0 (String.◌++◌ (decimal n) (String.◌++◌ (c ∷ []) t)) ≡ (n, String.◌++◌ (c ∷ []) t)
unfolding decimal
read_digits-decimal n c t h =
    read-decimal_from (n + 1) n 0 (String.◌++◌ (c ∷ []) t) (omega arith)
    ∙ ap (λ m. read_digits m (String.◌++◌ (c ∷ []) t)) (omega arith)
    ∙ read_none n c t h

colon_ends : digit_value (":" ∷ []) ≡ none
unfolding digit_value String_discrete
colon_ends = refl

-- What follows a revision in a key.
step_part :
    (step : String) → String.◌++◌ ":step:" step ≡ String.◌++◌ (":" ∷ []) (String.◌++◌ "step:" step)
step_part step =
    (λ i. append.cons ":" "step:" step i) ∙ sym (append_one ":" (String.◌++◌ "step:" step))

revision_part :
    (n : ℕ) (step : String)
    → read_digits 0 (String.◌++◌ (decimal n) (String.◌++◌ ":step:" step))
      ≡ (n, String.◌++◌ ":step:" step)
revision_part n step =
    ap (λ x. read_digits 0 (String.◌++◌ (decimal n) x)) (step_part step)
    ∙ read_digits-decimal n ":" (String.◌++◌ "step:" step) colon_ends
    ∙ ap (λ x. (n, x)) (sym (step_part step))

-- Two enrollments whose identifiers have one length get one key for their messages only if they have
-- the same identifier and are on the same revision and step.
pub deterministic_send_key_injective :
    (a b : SequenceEnrollment)
    → text_count a.id ≡ text_count b.id
    → deterministic_send_key a ≡ deterministic_send_key b
    → (a.id ≡ b.id) × (a.revision ≡ b.revision) × (a.current_step_id ≡ b.current_step_id)
unfolding deterministic_send_key
deterministic_send_key_injective a b n e =
    let tail = λ (x : SequenceEnrollment).
      String.◌++◌ (decimal x.revision) (String.◌++◌ ":step:" x.current_step_id) in
    let (ids, rest) =
      append_split a.id b.id (String.◌++◌ ":revision:" (tail a)) (String.◌++◌ ":revision:" (tail b))
        n (append_cancel "sequence:" _ _ e) in
    let tails : tail a ≡ tail b = append_cancel ":revision:" (tail a) (tail b) rest in
    let read =
      sym (revision_part a.revision a.current_step_id)
      ∙ ap (read_digits 0) tails
      ∙ revision_part b.revision b.current_step_id in
    (
      ids,
      ap (λ x. x.0) read,
      append_cancel ":step:" a.current_step_id b.current_step_id (ap (λ x. x.1) read),
    )
