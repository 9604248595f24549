-- ===== src/AbTest/Flags.antt =====
-- packages/abtest/src/lifecycle.ts: what the flags of a stop say of its results.
use listmonk_ops.Prelude.{Bool, List, [], ◌∷◌, ◌||◌, not, any, all, map, ◌≡◌, refl, arith}
use listmonk_ops.AbTest.{AbTest, RemoteCampaignAction, cancel, delete, leave, plan_cancel_ab_test}
use listmonk_ops.AbTest.Cancel.{
  Remote, Reply, success, envelope, thrown, update_status, delete_campaign, fetch_campaign_status,
  Outcome, succeeded, not_found, skipped_active_reference, failed, outcome_of,
  execute_campaign_action, is_failed, is_skipped, is_clean, any_surviving_reference, ListResult,
  execute_list_action, execute_cancel_plan, cancel_options, cancel_ab_test,
}

lists_clean :
    (ls : List ListResult)
    → all (λ l. is_clean l.outcome) ls
      ≡ not (any (λ l. is_failed l.outcome) ls || any (λ l. is_skipped l.outcome) ls)
lists_clean [] = refl
lists_clean (l ∷ ls) = ground (arith, clean_unless l.outcome, lists_clean ls)
  where
    clean_unless : (x : Outcome) → is_clean x ≡ not (is_failed x || is_skipped x)
    clean_unless succeeded = refl
    clean_unless not_found = refl
    clean_unless skipped_active_reference = refl
    clean_unless failed = refl

campaigns_clean :
    (r : Remote) (actions : List RemoteCampaignAction)
    → all (λ c. is_clean c.outcome) (map (execute_campaign_action r) actions)
      ≡ not (any (λ c. is_failed c.outcome) (map (execute_campaign_action r) actions))
unfolding execute_campaign_action
campaigns_clean r [] = refl
campaigns_clean r (a ∷ rest) = ground (arith, never_skipped a, campaigns_clean r rest)
  where
    not_failed :
        (x : Reply (Unit {0})) → is_clean (outcome_of r x) ≡ not (is_failed (outcome_of r x))
    not_failed (success u) = refl
    not_failed (envelope e) = ground arith
    not_failed (thrown e) = ground arith

    never_skipped :
        (a : RemoteCampaignAction)
        → is_clean (execute_campaign_action r a).outcome
          ≡ not (is_failed (execute_campaign_action r a).outcome)
    never_skipped (leave id reason) = refl
    never_skipped (cancel id) = not_failed (r.reply (update_status id "cancelled"))
    never_skipped (delete id) = not_failed (r.reply (delete_campaign id))

-- The flags of a stop agree: `fullyCleaned` holds exactly when nothing failed and no list was
-- retained, whatever was or was not observed.
pub fully_cleaned_iff :
    (r : Remote) (test : AbTest) (on_demand : Bool)
    → let result = cancel_ab_test r test on_demand in
      result.fully_cleaned ≡ not (result.had_failures || result.had_retained_resources)
unfolding cancel_ab_test execute_cancel_plan
fully_cleaned_iff r test on_demand =
    let plan = plan_cancel_ab_test test (fetch_campaign_status r) (cancel_options on_demand) in
    let survives =
      any_surviving_reference plan (map (execute_campaign_action r) plan.campaign_actions) in
    ground (
      arith,
      campaigns_clean r plan.campaign_actions,
      lists_clean (map (execute_list_action r survives) plan.list_actions),
    )
