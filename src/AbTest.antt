-- ===== src/AbTest.antt =====
-- packages/abtest/src/lifecycle.ts: the plan that stops an A/B test, from the statuses observed.
pub mod Cancel
pub mod Safety
pub mod Flags
pub mod Allocation
pub mod Doubles
pub mod Remainders
pub mod Seats
pub mod Division
mod Tests
mod SeatTests
use Prim.Native.String
use listmonk_ops.Prelude.{
  ℕ, String, Option, none, some, Bool, true, false, if◌then◌else◌, List, [], ◌∷◌, ◌++◌, same, ◌==◌,
  any, map,
}

pub data RemoteCampaignAction : Type 0 where
  cancel : ℕ → RemoteCampaignAction
  delete : ℕ → RemoteCampaignAction
  leave : ℕ → (reason : String) → RemoteCampaignAction

-- The part of a test that the planner reads: the campaigns and lists of its mappings by their
-- numbers, the holdout list and the winner campaign.
pub record AbTest : Type 0 where
  pub id : String
  pub campaign_mappings : List ℕ
  pub test_list_mappings : List ℕ
  pub holdout_list_id : Option ℕ
  pub winner_campaign_id : Option ℕ

pub record CancelPlan : Type 0 where
  pub test_id : String
  pub campaign_actions : List RemoteCampaignAction
  pub list_actions : List ℕ
  pub campaigns_blocking_list_deletion : List ℕ

pub record PlanCancelOptions : Type 0 where
  pub delete_terminal_campaigns : Bool
  pub terminal_statuses : List String
  pub active_statuses : List String

abbrev pub default_active_statuses : List String
default_active_statuses = "running" ∷ []

abbrev pub default_terminal_statuses : List String
default_terminal_statuses = "finished" ∷ "sent" ∷ "cancelled" ∷ []

abbrev pub already_deleted_status : String
already_deleted_status = "already_deleted"

abbrev pub includes : List String → String → Bool
includes texts s = any (λ t. same t s) texts

-- What the loop adds for one mapping: the action, and whether the campaign survives it.
abbrev pub plan_status : PlanCancelOptions → ℕ → String → RemoteCampaignAction × Bool
plan_status o campaign_id status =
    if same status already_deleted_status
    then (leave campaign_id "campaign already deleted (404)", false)
    else if includes o.active_statuses status
    then (cancel campaign_id, true)
    else if includes o.terminal_statuses status
    then (if o.delete_terminal_campaigns
        then (delete campaign_id, false)
        else (leave campaign_id (String.◌++◌ "terminal status " status), true))
    else (delete campaign_id, false)

unfoldable pub plan_mapping :
    PlanCancelOptions → (ℕ → Option String) → ℕ → RemoteCampaignAction × Bool
plan_mapping o observed campaign_id = elim (observed campaign_id) [
  | none ↦ (leave campaign_id "status could not be observed", true)
  | some status ↦ plan_status o campaign_id status
]

unfoldable pub plan_mappings :
    PlanCancelOptions → (ℕ → Option String) → List ℕ → List RemoteCampaignAction × List ℕ
unfolding plan_mapping
plan_mappings o observed [] = ([], [])
plan_mappings o observed (c ∷ rest) =
    let (action, survives) = plan_mapping o observed c in
    let (actions, surviving) = plan_mappings o observed rest in
    (action ∷ actions, if survives then c ∷ surviving else surviving)

-- Adding to a `Set`, which keeps the order of insertion.
unfoldable pub set_add : List ℕ → ℕ → List ℕ
set_add [] n = n ∷ []
set_add (m ∷ rest) n = if m == n then m ∷ rest else m ∷ set_add rest n

unfoldable pub set_add_all : List ℕ → List ℕ → List ℕ
unfolding set_add
set_add_all set [] = set
set_add_all set (n ∷ rest) = set_add_all (set_add set n) rest

abbrev pub optional : Option ℕ → List ℕ
optional none = []
optional (some n) = n ∷ []

unfoldable pub plan_cancel_ab_test : AbTest → (ℕ → Option String) → PlanCancelOptions → CancelPlan
unfolding plan_mappings set_add_all
plan_cancel_ab_test test observed o =
    let (actions, surviving) = plan_mappings o observed test.campaign_mappings in
    record {
      test_id = test.id;
      campaign_actions = actions;
      list_actions =
          set_add_all (set_add_all [] test.test_list_mappings) (optional test.holdout_list_id);
      campaigns_blocking_list_deletion = surviving ++ optional test.winner_campaign_id;
    }
