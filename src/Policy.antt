-- ===== src/Policy.antt =====
-- packages/operations/src/specs/policy.ts: the safety policy that the declared effects of an operation
-- call for. Only the fields of an effect that the policy reads are modelled.
pub mod Tiers
mod Tests
use listmonk_ops.Prelude.{
  Option, none, some, Bool, true, false, Result, ok, err, if◌then◌else◌, List, [], ◌∷◌, any, not,
  ◌&&◌, ◌||◌,
}

-- An effect by its kind, with the flag of the kind that matters and its declared preview.
pub data OperationEffect : Type 0 where
  read : OperationEffect
  write : (reversible : Bool) (preview : Option Bool) → OperationEffect
  delivery : (bulk : Bool) (preview : Option Bool) → OperationEffect
  webhook : (preview : Option Bool) → OperationEffect
  maintenance : (destructive : Bool) (preview : Option Bool) → OperationEffect
  suppression : (preview : Option Bool) → OperationEffect
  delete : (preview : Option Bool) → OperationEffect

pub data Confirmation : Type 0 where
  required never : Confirmation

pub data Audit : Type 0 where
  audit_required audit_optional : Audit

pub record OperationPolicy : Type 0 where
  pub confirmation : Confirmation
  pub audit : Audit
  pub dry_run : Bool

pub data PolicyError : Type 0 where
  conflicting_previews : PolicyError
  policy_mismatch : PolicyError

abbrev pub preview : OperationEffect → Option Bool
preview read = none
preview (write r p) = p
preview (delivery b p) = p
preview (webhook p) = p
preview (maintenance d p) = p
preview (suppression p) = p
preview (delete p) = p

abbrev pub declares : Bool → OperationEffect → Bool
declares value e = elim (preview e) [ none ↦ false | some p ↦ if value then p else not p ]

abbrev pub is_suppression : OperationEffect → Bool
is_suppression (suppression p) = true
is_suppression _ = false

abbrev pub is_maintenance : OperationEffect → Bool
is_maintenance (maintenance d p) = true
is_maintenance _ = false

abbrev pub is_destructive : OperationEffect → Bool
is_destructive (maintenance d p) = d
is_destructive _ = false

abbrev pub is_webhook : OperationEffect → Bool
is_webhook (webhook p) = true
is_webhook _ = false

abbrev pub is_bulk_delivery : OperationEffect → Bool
is_bulk_delivery (delivery b p) = b
is_bulk_delivery _ = false

abbrev pub is_delete : OperationEffect → Bool
is_delete (delete p) = true
is_delete _ = false

abbrev pub is_irreversible : OperationEffect → Bool
is_irreversible (write r p) = not r
is_irreversible _ = false

abbrev pub is_delivery_or_write : OperationEffect → Bool
is_delivery_or_write (delivery b p) = true
is_delivery_or_write (write r p) = true
is_delivery_or_write _ = false

abbrev pub policy : Confirmation → Audit → Bool → OperationPolicy
policy c a d = record { confirmation = c; audit = a; dry_run = d }

-- The chain of tiers, before a declared preview.
unfoldable pub tier_policy : List OperationEffect → OperationPolicy
tier_policy effects =
    if any is_suppression effects
    then policy required audit_required true
    else if any is_destructive effects
    then policy required audit_required true
    else if any is_maintenance effects
    then policy never audit_required true
    else if any is_webhook effects
    then policy required audit_required false
    else if any is_bulk_delivery effects || any is_delete effects
    then policy required audit_required false
    else if any is_irreversible effects
    then policy required audit_required false
    else if any is_delivery_or_write effects
    then policy never audit_required false
    else policy never audit_optional false

-- The first declared preview: what an iteration over the set of them gives first.
abbrev pub first_preview : List OperationEffect → Option Bool
first_preview [] = none
first_preview (e ∷ es) = elim (preview e) [ none ↦ first_preview es | some p ↦ some p ]

abbrev pub with_declared_preview : List OperationEffect → OperationPolicy → OperationPolicy
with_declared_preview effects p = record p {
  dry_run = elim (first_preview effects) [ none ↦ p.dry_run | some d ↦ d ];
}

-- The set of declared previews holds two values exactly if both are declared.
unfoldable pub expected_policy_for_effects :
    List OperationEffect → Result PolicyError OperationPolicy
unfolding tier_policy
expected_policy_for_effects effects =
    if any (declares true) effects && any (declares false) effects
    then err conflicting_previews
    else ok (with_declared_preview effects (tier_policy effects))

abbrev pub same_bool : Bool → Bool → Bool
same_bool true b = b
same_bool false b = not b

abbrev pub same_confirmation : Confirmation → Confirmation → Bool
same_confirmation required required = true
same_confirmation never never = true
same_confirmation _ _ = false

abbrev pub same_audit : Audit → Audit → Bool
same_audit audit_required audit_required = true
same_audit audit_optional audit_optional = true
same_audit _ _ = false

unfoldable pub assert_policy_matches_effects :
    List OperationEffect → OperationPolicy → Result PolicyError (Unit {0})
unfolding expected_policy_for_effects
assert_policy_matches_effects effects p = elim (expected_policy_for_effects effects) [
  | err e ↦ err e
  | ok expected ↦
      if same_confirmation p.confirmation expected.confirmation
        && same_audit p.audit expected.audit
        && same_bool p.dry_run expected.dry_run
      then ok tt
      else err policy_mismatch
]
