-- ===== src/AbTest/Cancel.antt =====
-- packages/abtest/src/lifecycle.ts: fetching the statuses and executing the plan. The service's
-- replies are a parameter, and the requests made are recorded in the order of the actions.
use listmonk_ops.Prelude.{
  ℕ, String, Option, none, some, Bool, true, false, if◌then◌else◌, List, [], ◌∷◌, ◌++◌, ◌==◌, ◌&&◌,
  ◌||◌, not, any, all, map,
}
use listmonk_ops.AbTest.{
  AbTest, RemoteCampaignAction, cancel, delete, leave, CancelPlan, PlanCancelOptions,
  default_active_statuses, default_terminal_statuses, already_deleted_status, plan_cancel_ab_test,
}

-- How a request that did not succeed reads, envelope or exception: the HTTP status, if there is one,
-- and the text of the error.
pub record RemoteError : Type 0 where
  pub status : Option ℕ
  pub message : String

pub data Reply (A : Type 0) : Type 0 where
  success : A → Reply A
  envelope : RemoteError → Reply A
  thrown : RemoteError → Reply A

pub data Request : Type 0 where
  update_status : ℕ → String → Request
  delete_campaign : ℕ → Request
  delete_list : ℕ → Request

-- The service, and the runtime's `/not found|404/i.test`.
pub record Remote : Type 0 where
  pub get_campaign_status : ℕ → Reply (Option String)
  pub reply : Request → Reply (Unit {0})
  pub mentions_not_found : String → Bool

unfoldable pub is_not_found_error : Remote → RemoteError → Bool
is_not_found_error r e = elim e.status [
  | none ↦ r.mentions_not_found e.message
  | some status ↦ status == 404
]

-- The entry of a campaign in the map of statuses; `none` where it is unobservable.
unfoldable pub fetch_campaign_status : Remote → ℕ → Option String
unfolding is_not_found_error
fetch_campaign_status r id = elim (r.get_campaign_status id) [
  | success status ↦ status
  | envelope e ↦ if is_not_found_error r e then some already_deleted_status else none
  | thrown e ↦ if is_not_found_error r e then some already_deleted_status else none
]

pub data Outcome : Type 0 where
  succeeded not_found skipped_active_reference failed : Outcome

abbrev pub outcome_of : Remote → Reply (Unit {0}) → Outcome
outcome_of r (success _) = succeeded
outcome_of r (envelope e) = if is_not_found_error r e then not_found else failed
outcome_of r (thrown e) = if is_not_found_error r e then not_found else failed

pub data ActionKind : Type 0 where
  cancels deletes leaves : ActionKind

-- A result, but for its `detail` text.
pub record CampaignResult : Type 0 where
  pub campaign_id : ℕ
  pub action : ActionKind
  pub outcome : Outcome

abbrev pub campaign_result : ℕ → ActionKind → Outcome → CampaignResult
campaign_result id action outcome = record { campaign_id = id; action = action; outcome = outcome }

pub record ListResult : Type 0 where
  pub list_id : ℕ
  pub outcome : Outcome

abbrev pub is_deletion : ActionKind → Bool
is_deletion deletes = true
is_deletion _ = false

unfoldable pub execute_campaign_action : Remote → RemoteCampaignAction → CampaignResult
unfolding is_not_found_error
execute_campaign_action r (leave id reason) = campaign_result id leaves succeeded
execute_campaign_action r (cancel id) =
    campaign_result id cancels (outcome_of r (r.reply (update_status id "cancelled")))
execute_campaign_action r (delete id) =
    campaign_result id deletes (outcome_of r (r.reply (delete_campaign id)))

abbrev pub campaign_requests : RemoteCampaignAction → List Request
campaign_requests (leave id reason) = []
campaign_requests (cancel id) = update_status id "cancelled" ∷ []
campaign_requests (delete id) = delete_campaign id ∷ []

abbrev pub is_success : Outcome → Bool
is_success succeeded = true
is_success _ = false

abbrev pub is_failed : Outcome → Bool
is_failed failed = true
is_failed _ = false

abbrev pub is_skipped : Outcome → Bool
is_skipped skipped_active_reference = true
is_skipped _ = false

-- `outcome === "success" || outcome === "not_found"`.
abbrev pub is_clean : Outcome → Bool
is_clean succeeded = true
is_clean not_found = true
is_clean _ = false

-- The campaign was deleted by this execution.
abbrev pub is_deleted : List CampaignResult → ℕ → Bool
is_deleted results id =
    any (λ r. r.campaign_id == id && is_success r.outcome && is_deletion r.action) results

unfoldable pub any_surviving_reference : CancelPlan → List CampaignResult → Bool
any_surviving_reference plan results =
    any (λ id. not (is_deleted results id)) plan.campaigns_blocking_list_deletion
    || any (λ r. is_failed r.outcome) results

pub record CancelExecutionResult : Type 0 where
  pub test_id : String
  pub plan : CancelPlan
  pub requests : List Request
  pub campaign_results : List CampaignResult
  pub list_results : List ListResult
  pub fully_cleaned : Bool
  pub had_retained_resources : Bool
  pub had_failures : Bool
  pub had_fetch_failures : Bool

abbrev pub execute_list_action : Remote → Bool → ℕ → ListResult
execute_list_action r true id = record { list_id = id; outcome = skipped_active_reference }
execute_list_action r false id = record {
  list_id = id;
  outcome = outcome_of r (r.reply (delete_list id));
}

abbrev pub list_requests : Bool → List ℕ → List Request
list_requests true ids = []
list_requests false ids = map delete_list ids

unfoldable pub all_requests : List RemoteCampaignAction → List Request
all_requests [] = []
all_requests (a ∷ rest) = campaign_requests a ++ all_requests rest

unfoldable pub execute_cancel_plan : Remote → CancelPlan → CancelExecutionResult
unfolding execute_campaign_action any_surviving_reference all_requests
execute_cancel_plan r plan =
    let results = map (execute_campaign_action r) plan.campaign_actions in
    let survives = any_surviving_reference plan results in
    let lists = map (execute_list_action r survives) plan.list_actions in
    record {
      test_id = plan.test_id;
      plan = plan;
      requests = all_requests plan.campaign_actions ++ list_requests survives plan.list_actions;
      campaign_results = results;
      list_results = lists;
      fully_cleaned = all (λ c. is_clean c.outcome) results && all (λ l. is_clean l.outcome) lists;
      had_retained_resources = any (λ l. is_skipped l.outcome) lists;
      had_failures = any (λ c. is_failed c.outcome) results || any (λ l. is_failed l.outcome) lists;
      had_fetch_failures = false;
    }

abbrev pub is_missing : Option String → Bool
is_missing none = true
is_missing (some s) = false

abbrev pub cancel_options : Bool → PlanCancelOptions
cancel_options delete_terminal = record {
  delete_terminal_campaigns = delete_terminal;
  terminal_statuses = default_terminal_statuses;
  active_statuses = default_active_statuses;
}

unfoldable pub cancel_ab_test : Remote → AbTest → Bool → CancelExecutionResult
unfolding execute_cancel_plan fetch_campaign_status
cancel_ab_test r test delete_terminal =
    record (execute_cancel_plan r
      (plan_cancel_ab_test test (fetch_campaign_status r) (cancel_options delete_terminal))) {
        had_fetch_failures =
            any (λ id. is_missing (fetch_campaign_status r id)) test.campaign_mappings;
      }
