-- ===== src/Webhooks/Redaction.antt =====
-- The redaction of an event's data: nothing under a sensitive key is left, at a bounded depth.
use listmonk_ops.Prelude.{
  ℕ, suc, ◌+◌, ◌≤◌, max, String, Bool, true, false, leb, ◌≡◌, refl, ap, arith, Bool-cases, inl, inr,
}
use listmonk_ops.Sequences.Values.{
  Json, Items, Fields, null, boolean, number, text, array, object, end_items, item, end_fields,
  field,
}
use listmonk_ops.Webhooks.Events.{
  redact_value, redact_items, redact_fields, redact_outbound_webhook_data, max_redaction_depth,
}

-- How deep values of arrays and objects lie in each other.
mutual
  pub height : Json → ℕ
  height (array xs) = suc (height_items xs)
  height (object fs) = suc (height_fields fs)
  height _ = 0

  pub height_items : Items → ℕ
  height_items end_items = 0
  height_items (item x xs) = max (height x) (height_items xs)

  pub height_fields : Fields → ℕ
  height_fields end_fields = 0
  height_fields (field k v rest) = max (height v) (height_fields rest)

not_too_deep : (n depth : ℕ) → suc n + depth ≤ 8 → leb max_redaction_depth depth ≡ false
not_too_deep n depth h = ground arith

module _ (is_sensitive_key : String → Bool) where
  -- A field with a sensitive key holds the mark, at any depth.
  mutual
    pub IsClean : Json → Type 0
    IsClean (array xs) = IsCleanItems xs
    IsClean (object fs) = IsCleanFields fs
    IsClean _ = Unit

    pub IsCleanItems : Items → Type 0
    IsCleanItems end_items = Unit
    IsCleanItems (item x xs) = IsClean x × IsCleanItems xs

    pub IsCleanFields : Fields → Type 0
    IsCleanFields end_fields = Unit
    IsCleanFields (field k v rest) =
        ((is_sensitive_key k ≡ true → v ≡ text "[REDACTED]") × IsClean v) × IsCleanFields rest

  mutual
    unfolding redact_value IsClean

    redact_value-IsClean :
        (value : Json) (depth : ℕ) → IsClean (redact_value is_sensitive_key value depth)
    redact_value-IsClean null depth = tt
    redact_value-IsClean (boolean b) depth = tt
    redact_value-IsClean (number n) depth = tt
    redact_value-IsClean (text s) depth = tt
    redact_value-IsClean (array xs) depth = elim (Bool-cases (leb max_redaction_depth depth)) [
      | inl b ↦ rw (b, redact_value) tt
      | inr b ↦ rw (b, redact_value) (redact_items-IsClean xs (suc depth))
    ]
    redact_value-IsClean (object fs) depth = elim (Bool-cases (leb max_redaction_depth depth)) [
      | inl b ↦ rw (b, redact_value) tt
      | inr b ↦ rw (b, redact_value) (redact_fields-IsClean fs (suc depth))
    ]

    redact_items-IsClean :
        (xs : Items) (depth : ℕ) → IsCleanItems (redact_items is_sensitive_key xs depth)
    redact_items-IsClean end_items depth = tt
    redact_items-IsClean (item x xs) depth =
        (redact_value-IsClean x depth, redact_items-IsClean xs depth)

    redact_fields-IsClean :
        (fs : Fields) (depth : ℕ) → IsCleanFields (redact_fields is_sensitive_key fs depth)
    redact_fields-IsClean end_fields depth = tt
    redact_fields-IsClean (field k v rest) depth = elim (Bool-cases (is_sensitive_key k)) [
      | inl b ↦ rw (b, redact_fields) (((λ e. refl), tt), redact_fields-IsClean rest depth)
      | inr b ↦
          rw (b, redact_fields)
            (
              ((λ e. absurd (ground arith)), redact_value-IsClean v depth),
              redact_fields-IsClean rest depth,
            )
    ]

  mutual
    unfolding redact_value height

    height-redact_value :
        (value : Json) (depth : ℕ)
        → depth ≤ 8
        → height (redact_value is_sensitive_key value depth) + depth ≤ 8
    height-redact_value null depth h = omega (arith, h)
    height-redact_value (boolean b) depth h = omega (arith, h)
    height-redact_value (number n) depth h = omega (arith, h)
    height-redact_value (text s) depth h = omega (arith, h)
    height-redact_value (array xs) depth h = elim (Bool-cases (leb max_redaction_depth depth)) [
      | inl b ↦ rw (b, redact_value) (omega (arith, h))
      | inr b ↦
          let k : suc depth ≤ 8 = ground arith in
          rw (b, redact_value) (omega (arith, height-redact_items xs (suc depth) k))
    ]
    height-redact_value (object fs) depth h = elim (Bool-cases (leb max_redaction_depth depth)) [
      | inl b ↦ rw (b, redact_value) (omega (arith, h))
      | inr b ↦
          let k : suc depth ≤ 8 = ground arith in
          rw (b, redact_value) (omega (arith, height-redact_fields fs (suc depth) k))
    ]

    height-redact_items :
        (xs : Items) (depth : ℕ)
        → depth ≤ 8
        → height_items (redact_items is_sensitive_key xs depth) + depth ≤ 8
    height-redact_items end_items depth h = omega (arith, h)
    height-redact_items (item x xs) depth h =
        omega (arith, height-redact_value x depth h, height-redact_items xs depth h)

    height-redact_fields :
        (fs : Fields) (depth : ℕ)
        → depth ≤ 8
        → height_fields (redact_fields is_sensitive_key fs depth) + depth ≤ 8
    height-redact_fields end_fields depth h = omega (arith, h)
    height-redact_fields (field k v rest) depth h = elim (Bool-cases (is_sensitive_key k)) [
      | inl b ↦ rw (b, redact_fields) (omega (arith, height-redact_fields rest depth h))
      | inr b ↦
          rw (b, redact_fields)
            (omega (arith, height-redact_value v depth h, height-redact_fields rest depth h))
    ]

  -- Clean data that is not too deep is left as it is.
  mutual
    unfolding redact_value IsClean height

    redact_value-clean :
        (value : Json) (depth : ℕ)
        → IsClean value
        → height value + depth ≤ 8
        → redact_value is_sensitive_key value depth ≡ value
    redact_value-clean null depth c h = refl
    redact_value-clean (boolean b) depth c h = refl
    redact_value-clean (number n) depth c h = refl
    redact_value-clean (text s) depth c h = refl
    redact_value-clean (array xs) depth c h =
        rw (not_too_deep (height_items xs) depth h, redact_value)
          (ap array (redact_items-clean xs (suc depth) c (omega (arith, h))))
    redact_value-clean (object fs) depth c h =
        rw (not_too_deep (height_fields fs) depth h, redact_value)
          (ap object (redact_fields-clean fs (suc depth) c (omega (arith, h))))

    redact_items-clean :
        (xs : Items) (depth : ℕ)
        → IsCleanItems xs
        → height_items xs + depth ≤ 8
        → redact_items is_sensitive_key xs depth ≡ xs
    redact_items-clean end_items depth c h = refl
    redact_items-clean (item x xs) depth c h =
        rw (redact_value-clean x depth c.0 (omega (arith, h)))
          (ap (item x) (redact_items-clean xs depth c.1 (omega (arith, h))))

    redact_fields-clean :
        (fs : Fields) (depth : ℕ)
        → IsCleanFields fs
        → height_fields fs + depth ≤ 8
        → redact_fields is_sensitive_key fs depth ≡ fs
    redact_fields-clean end_fields depth c h = refl
    redact_fields-clean (field k v rest) depth c h =
        let others = redact_fields-clean rest depth c.1 (omega (arith, h)) in
        elim (Bool-cases (is_sensitive_key k)) [
          | inl b ↦ rw (b, redact_fields) (rw (c.0.0 b) (ap (field k (text "[REDACTED]")) others))
          | inr b ↦
              rw (b, redact_fields)
                (rw (redact_value-clean v depth c.0.1 (omega (arith, h))) (ap (field k v) others))
        ]

-- In the data of an event every field with a sensitive key holds the mark, at any depth, and at most
-- eight arrays and objects lie in each other, the data itself counted.
pub redact-IsClean :
    (is_sensitive_key : String → Bool) (fs : Fields)
    → IsCleanFields is_sensitive_key (redact_outbound_webhook_data is_sensitive_key fs)
      × (suc (height_fields (redact_outbound_webhook_data is_sensitive_key fs))
          ≤ max_redaction_depth)
unfolding redact_outbound_webhook_data
redact-IsClean is_sensitive_key fs = (
  redact_fields-IsClean is_sensitive_key fs 1,
  omega (arith, height-redact_fields is_sensitive_key fs 1 (omega arith)),
)
