-- ===== src/AbTest/Tests.antt =====
-- Stopping a concrete test, and the theorems about it.
use listmonk_ops.Prelude.{none, some, false, if◌then◌else◌, [], ◌∷◌, All, ◌==◌, ◌||◌, not, ◌≡◌}
use listmonk_ops.AbTest.{AbTest}
use listmonk_ops.AbTest.Cancel.{Remote, success, cancel_ab_test}
use listmonk_ops.AbTest.Safety.{IsJustified, requests-IsJustified}
use listmonk_ops.AbTest.Flags.{fully_cleaned_iff}

abbrev remote : Remote
remote = record {
  get_campaign_status = λ id. if id == 1 then success (some "running") else success (some "draft");
  reply = λ request. success tt;
  mentions_not_found = λ message. false;
}

abbrev subject_test : AbTest
subject_test = record {
  id = "t";
  campaign_mappings = 1 ∷ 2 ∷ [];
  test_list_mappings = 11 ∷ 12 ∷ [];
  holdout_list_id = some 13;
  winner_campaign_id = none;
}

requests-IsJustified_example :
    All (IsJustified remote subject_test false) (cancel_ab_test remote subject_test false).requests
requests-IsJustified_example = requests-IsJustified remote subject_test false

fully_cleaned_iff_example :
    let result = cancel_ab_test remote subject_test false in
    result.fully_cleaned ≡ not (result.had_failures || result.had_retained_resources)
fully_cleaned_iff_example = fully_cleaned_iff remote subject_test false
