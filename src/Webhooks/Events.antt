-- ===== src/Webhooks/Events.antt =====
-- packages/automation/src/outbound-webhooks.ts: event filters, and the redaction of an event's data.
-- A test of sensitive keys stands for `isSensitiveKey`, which matches a regular expression.
use listmonk_ops.Prelude.{
  ℕ, suc, ◌-◌, String, Bool, true, if◌then◌else◌, List, ◌&&◌, same, leb, any,
}
use listmonk_ops.Sequences.Values.{
  Json, Items, Fields, null, boolean, number, text, array, object, end_items, item, end_fields,
  field, text_count, text_take, text_drop,
}

-- `String.prototype.startsWith` and `endsWith`.
abbrev pub starts_with : String → String → Bool
starts_with s prefix = same (text_take (text_count prefix) s) prefix

abbrev pub ends_with : String → String → Bool
ends_with s suffix =
    leb (text_count suffix) (text_count s)
    && same (text_drop (text_count s - text_count suffix) s) suffix

unfoldable pub matches_filter : String → String → Bool
matches_filter event_type filter =
    if same filter "*"
    then true
    else if ends_with filter ".*"
    then starts_with event_type (text_take (text_count filter - 1) filter)
    else same filter event_type

unfoldable pub matches_outbound_webhook_event : List String → String → Bool
unfolding matches_filter
matches_outbound_webhook_event filters event_type = any (matches_filter event_type) filters

abbrev pub max_redaction_depth : ℕ
max_redaction_depth = 8

module _ (is_sensitive_key : String → Bool) where
  unfoldable mutual
    pub redact_value : Json → ℕ → Json
    redact_value null depth = null
    redact_value (boolean b) depth = boolean b
    redact_value (number n) depth = number n
    redact_value (text s) depth = text s
    redact_value (array xs) depth =
        if leb max_redaction_depth depth
        then text "[TRUNCATED]"
        else array (redact_items xs (suc depth))
    redact_value (object fs) depth =
        if leb max_redaction_depth depth
        then text "[TRUNCATED]"
        else object (redact_fields fs (suc depth))

    pub redact_items : Items → ℕ → Items
    redact_items end_items depth = end_items
    redact_items (item x xs) depth = item (redact_value x depth) (redact_items xs depth)

    pub redact_fields : Fields → ℕ → Fields
    redact_fields end_fields depth = end_fields
    redact_fields (field k v rest) depth =
        field k (if is_sensitive_key k then text "[REDACTED]" else redact_value v depth)
          (redact_fields rest depth)

  unfoldable pub redact_outbound_webhook_data : Fields → Fields
  unfolding redact_fields
  redact_outbound_webhook_data fs = redact_fields fs 1
