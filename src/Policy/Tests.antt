-- ===== src/Policy/Tests.antt =====
-- Policies of concrete effects.
use listmonk_ops.Prelude.{
  none, some, true, false, ok, List, [], ◌∷◌, ◌++◌, any, not, ◌&&◌, ◌||◌, ◌≡◌, ◌↔◌, refl,
}
use listmonk_ops.Policy.{
  OperationEffect, delete, delivery, maintenance, webhook, required, never, audit_required,
  same_confirmation, policy, is_suppression, is_destructive, is_maintenance, tier_policy,
  expected_policy_for_effects, assert_policy_matches_effects,
}
use listmonk_ops.Policy.Tiers.{
  is_gated, expected_policy-swap, expected_policy-confirmation, expected_policy-monotone,
  assert_policy_iff,
}

abbrev bulk_delete : List OperationEffect
bulk_delete = delete none ∷ delivery true (some false) ∷ []

recovery_lowers :
    expected_policy_for_effects (maintenance false none ∷ delete none ∷ [])
    ≡ ok (policy never audit_required true)
unfolding expected_policy_for_effects tier_policy
recovery_lowers = refl

expected_policy-swap_example :
    expected_policy_for_effects (bulk_delete ++ (webhook none ∷ []))
    ≡ expected_policy_for_effects ((webhook none ∷ []) ++ bulk_delete)
expected_policy-swap_example = expected_policy-swap bulk_delete (webhook none ∷ [])

expected_policy-confirmation_example : same_confirmation required required ≡ (
    any is_suppression bulk_delete
    || any is_destructive bulk_delete
    || (not (any is_maintenance bulk_delete) && any is_gated bulk_delete))
unfolding expected_policy_for_effects tier_policy
expected_policy-confirmation_example =
    expected_policy-confirmation bulk_delete (policy required audit_required false) refl

expected_policy-monotone_example : (policy required audit_required false).confirmation ≡ required
unfolding expected_policy_for_effects tier_policy
expected_policy-monotone_example =
    expected_policy-monotone (webhook none) bulk_delete (policy required audit_required false)
      (policy required audit_required false) refl refl refl refl

assert_policy_iff_example :
    (assert_policy_matches_effects bulk_delete (policy required audit_required false) ≡ ok tt)
    ↔ (expected_policy_for_effects bulk_delete ≡ ok (policy required audit_required false))
assert_policy_iff_example = assert_policy_iff bulk_delete (policy required audit_required false)
