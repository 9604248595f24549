-- ===== src/Policy/Tiers.antt =====
-- How the effects of an operation combine to its policy.
use listmonk_ops.Prelude.{
  none, some, Bool, true, false, Result-cases, ok, err, if◌then◌else◌, List, [], ◌∷◌, ◌++◌, any,
  not, ◌&&◌, ◌||◌, ◌≡◌, ◌↔◌, refl, sym, ap, arith, subst, Bool-cases, Option-cases, inl, inr, ◌∙◌,
}
use listmonk_ops.Policy.{
  OperationEffect, Confirmation, required, never, Audit, audit_required, audit_optional,
  OperationPolicy, policy_mismatch, preview, declares, first_preview, with_declared_preview,
  is_suppression, is_maintenance, is_destructive, is_webhook, is_bulk_delivery, is_delete,
  is_irreversible, is_delivery_or_write, policy, tier_policy, expected_policy_for_effects,
  same_bool, same_confirmation, same_audit, assert_policy_matches_effects,
}

any-swap :
    (p : OperationEffect → Bool) (xs ys : List OperationEffect)
    → any p (xs ++ ys) ≡ any p (ys ++ xs)
any-swap p xs ys = ground (arith, any-append p xs ys, any-append p ys xs)
  where
    any-append :
        (p : OperationEffect → Bool) (xs ys : List OperationEffect)
        → any p (xs ++ ys) ≡ (any p xs || any p ys)
    any-append p [] ys = refl
    any-append p (x ∷ xs) ys = ground (arith, any-append p xs ys)

-- Without a conflict the first declared preview is the only one.
first_preview_lem :
    (es : List OperationEffect)
    → (any (declares true) es && any (declares false) es) ≡ false
    → first_preview es ≡ (
        if any (declares true) es
        then some true
        else if any (declares false) es
        then some false
        else none)
first_preview_lem [] h = refl
first_preview_lem (e ∷ es) h = elim (Option-cases (preview e)) [
  | inl q ↦ ground (arith, q, first_preview_lem es)
  | inr (true, q) ↦ ground (arith, q)
  | inr (false, q) ↦ ground (arith, q)
]

tier_policy-swap : (xs ys : List OperationEffect) → tier_policy (xs ++ ys) ≡ tier_policy (ys ++ xs)
unfolding tier_policy
tier_policy-swap xs ys =
    rw
      (
        any-swap is_suppression xs ys,
        any-swap is_destructive xs ys,
        any-swap is_maintenance xs ys,
        any-swap is_webhook xs ys,
        any-swap is_bulk_delivery xs ys,
        any-swap is_delete xs ys,
        any-swap is_irreversible xs ys,
        any-swap is_delivery_or_write xs ys,
        tier_policy,
      )
      refl

-- The policy, or the refusal, does not depend on where a list of effects is begun: moving a first part
-- to the end changes nothing.
pub expected_policy-swap :
    (xs ys : List OperationEffect)
    → expected_policy_for_effects (xs ++ ys) ≡ expected_policy_for_effects (ys ++ xs)
unfolding expected_policy_for_effects
expected_policy-swap xs ys =
    let t = any-swap (declares true) xs ys in
    let f = any-swap (declares false) xs ys in
    elim (Bool-cases (any (declares true) (ys ++ xs) && any (declares false) (ys ++ xs))) [
      | inl b ↦ rw (t, f, b, expected_policy_for_effects) refl
      | inr b ↦
          let left : (any (declares true) (xs ++ ys) && any (declares false) (xs ++ ys)) ≡ false =
            rw (t, f) b in
          let same_first : first_preview (xs ++ ys) ≡ first_preview (ys ++ xs) =
            first_preview_lem (xs ++ ys) left ∙ rw (t, f) (sym (first_preview_lem (ys ++ xs) b)) in
          rw (left, b, expected_policy_for_effects)
            (rw same_first
              (ap (λ p. ok (with_declared_preview (ys ++ xs) p)) (tier_policy-swap xs ys)))
    ]

-- The effects whose tier asks for confirmation.
abbrev pub is_gated : OperationEffect → Bool
is_gated e = is_webhook e || is_bulk_delivery e || is_delete e || is_irreversible e

any-is_gated :
    (es : List OperationEffect)
    → any is_gated es
      ≡ (any is_webhook es || any is_bulk_delivery es || any is_delete es || any is_irreversible es)
any-is_gated [] = refl
any-is_gated (e ∷ es) = ground (arith, any-is_gated es)

tier_policy-confirmation :
    (es : List OperationEffect)
    → same_confirmation (tier_policy es).confirmation required ≡ (
        any is_suppression es
        || any is_destructive es
        || (not (any is_maintenance es) && any is_gated es))
unfolding tier_policy
tier_policy-confirmation es = rw (any-is_gated es) (ground arith)

-- A policy asks for confirmation exactly if an effect is a suppression or a destructive maintenance,
-- or if there is no maintenance at all and some effect is a webhook, a bulk delivery, a deletion or
-- an irreversible write.
pub expected_policy-confirmation :
    (es : List OperationEffect) (p : OperationPolicy)
    → expected_policy_for_effects es ≡ ok p
    → same_confirmation p.confirmation required ≡ (
        any is_suppression es
        || any is_destructive es
        || (not (any is_maintenance es) && any is_gated es))
unfolding expected_policy_for_effects
expected_policy-confirmation es p h =
    elim (Bool-cases (any (declares true) es && any (declares false) es)) [
      | inl b ↦ absurd (ground arith)
      | inr b ↦
          let same_field : (tier_policy es).confirmation ≡ p.confirmation = ground arith in
          ap (λ c. same_confirmation c required) (sym same_field) ∙ tier_policy-confirmation es
    ]

-- Adding an effect that is not a recoverable maintenance to effects whose policy asks for
-- confirmation gives effects whose policy, if there is one, asks for it too.
pub expected_policy-monotone :
    (e : OperationEffect) (es : List OperationEffect) (p q : OperationPolicy)
    → (is_maintenance e && not (is_destructive e)) ≡ false
    → expected_policy_for_effects es ≡ ok p
    → expected_policy_for_effects (e ∷ es) ≡ ok q
    → p.confirmation ≡ required
    → q.confirmation ≡ required
expected_policy-monotone e es p q other hp hq c = confirmed q.confirmation (
    ground
      (arith, expected_policy-confirmation es p hp, expected_policy-confirmation (e ∷ es) q hq))
  where
    confirmed : (x : Confirmation) → same_confirmation x required ≡ true → x ≡ required
    confirmed required h = refl
    confirmed never h = absurd (ground arith)

same_confirmation_eq : (a b : Confirmation) → same_confirmation a b ≡ true → b ≡ a
same_confirmation_eq required required h = refl
same_confirmation_eq required never h = absurd (ground arith)
same_confirmation_eq never required h = absurd (ground arith)
same_confirmation_eq never never h = refl

same_audit_eq : (a b : Audit) → same_audit a b ≡ true → b ≡ a
same_audit_eq audit_required audit_required h = refl
same_audit_eq audit_required audit_optional h = absurd (ground arith)
same_audit_eq audit_optional audit_required h = absurd (ground arith)
same_audit_eq audit_optional audit_optional h = refl

same_bool_eq : (a b : Bool) → same_bool a b ≡ true → b ≡ a
same_bool_eq true b h = h
same_bool_eq false true h = absurd (ground arith)
same_bool_eq false false h = refl

same_policy : OperationPolicy → OperationPolicy → Bool
same_policy p x =
    same_confirmation p.confirmation x.confirmation
    && same_audit p.audit x.audit
    && same_bool p.dry_run x.dry_run

same_policy_eq : (p x : OperationPolicy) → same_policy p x ≡ true → x ≡ p
unfolding same_policy
same_policy_eq p x h =
    let c = same_confirmation_eq p.confirmation x.confirmation (ground arith) in
    let a = same_audit_eq p.audit x.audit (ground arith) in
    let d = same_bool_eq p.dry_run x.dry_run (ground arith) in λ i. policy (c i) (a i) (d i)

same_policy_self : (p : OperationPolicy) → same_policy p p ≡ true
unfolding same_policy
same_policy_self p = ground (arith, confirmation p.confirmation, audit p.audit, dry_run p.dry_run)
  where
    confirmation : (c : Confirmation) → same_confirmation c c ≡ true
    confirmation required = refl
    confirmation never = refl

    audit : (a : Audit) → same_audit a a ≡ true
    audit audit_required = refl
    audit audit_optional = refl

    dry_run : (b : Bool) → same_bool b b ≡ true
    dry_run true = refl
    dry_run false = refl

-- A declared policy is accepted exactly if it is the expected one.
pub assert_policy_iff :
    (es : List OperationEffect) (p : OperationPolicy)
    → (assert_policy_matches_effects es p ≡ ok tt) ↔ (expected_policy_for_effects es ≡ ok p)
unfolding assert_policy_matches_effects same_policy
assert_policy_iff es p = elim (Result-cases (expected_policy_for_effects es)) [
  | inl (x, e) ↦
      rw (e, assert_policy_matches_effects) (λ h. absurd (ground arith), λ h. absurd (ground arith))
  | inr (x, e) ↦
      rw (e, assert_policy_matches_effects)
        (
          λ h. ap ok (same_policy_eq p x (ground arith)),
          λ h.
              subst (λ y. (if same_policy p y then ok tt else err policy_mismatch) ≡ ok tt) {x = p}
                {y = x} (ground arith) (rw (same_policy_self p) refl),
        )
]
