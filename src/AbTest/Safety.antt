-- ===== src/AbTest/Safety.antt =====
-- What stopping an A/B test may ask of the service.
use listmonk_ops.Prelude.{
  ℕ, String, some, Bool, true, false, List, [], ◌∷◌, ◌++◌, same, not, any, map, All, All-imp,
  append-both, both-append, ◌⊎◌, inl, inr, ◌≡◌, refl, ap, ◌∙◌, arith, subst, Bool-cases,
  Option-cases,
}
use listmonk_ops.AbTest.{
  AbTest, RemoteCampaignAction, cancel, delete, leave, PlanCancelOptions, default_active_statuses,
  default_terminal_statuses, already_deleted_status, includes, plan_status, plan_mapping,
  plan_mappings, optional, plan_cancel_ab_test,
}
use listmonk_ops.AbTest.Cancel.{
  Remote, Reply, success, envelope, thrown, Request, update_status, delete_campaign, delete_list,
  fetch_campaign_status, Outcome, succeeded, not_found, skipped_active_reference, failed,
  outcome_of, CampaignResult, execute_campaign_action, campaign_requests, is_success, is_failed,
  is_clean, is_deleted, any_surviving_reference, list_requests, all_requests, execute_cancel_plan,
  cancel_options, cancel_ab_test,
}

module _ (r : Remote) where
  -- The campaign had been deleted before, or its deletion was asked for and not refused.
  abbrev pub IsGone : ℕ → Type 0
  IsGone id =
      (fetch_campaign_status r id ≡ some already_deleted_status)
      ⊎ (is_clean (outcome_of r (r.reply (delete_campaign id))) ≡ true)

  outcome_clean :
      (x : Reply (Unit {0})) → is_failed (outcome_of r x) ≡ false → is_clean (outcome_of r x) ≡ true
  outcome_clean (success u) h = refl
  outcome_clean (envelope e) h = ground arith
  outcome_clean (thrown e) h = ground arith

  succeeded_clean : (x : Outcome) → is_success x ≡ true → is_clean x ≡ true
  succeeded_clean succeeded h = refl
  succeeded_clean not_found h = absurd (ground arith)
  succeeded_clean skipped_active_reference h = absurd (ground arith)
  succeeded_clean failed h = absurd (ground arith)

  deleted-IsGone :
      (actions : List RemoteCampaignAction) (id : ℕ)
      → is_deleted (map (execute_campaign_action r) actions) id ≡ true
      → IsGone id
  unfolding execute_campaign_action
  deleted-IsGone [] id h = absurd (ground arith)
  deleted-IsGone (leave j reason ∷ rest) id h = deleted-IsGone rest id (ground arith)
  deleted-IsGone (cancel j ∷ rest) id h = deleted-IsGone rest id (ground arith)
  deleted-IsGone (delete j ∷ rest) id h =
      elim (Bool-cases (is_deleted (map (execute_campaign_action r) rest) id)) [
        | inl b ↦ deleted-IsGone rest id b
        | inr b ↦
            let same_id : j ≡ id = ground arith in
            inr (
              subst (λ k. is_clean (outcome_of r (r.reply (delete_campaign k))) ≡ true) {x = j}
                {y = id} same_id
                (succeeded_clean (outcome_of r (r.reply (delete_campaign j))) (ground arith)))
      ]

  module _ (o : PlanCancelOptions) where
    deletes_is_gone :
        (id : ℕ)
        → is_failed (execute_campaign_action r (delete id)).outcome ≡ false
        → is_clean (outcome_of r (r.reply (delete_campaign id))) ≡ true
    unfolding execute_campaign_action
    deletes_is_gone id f = outcome_clean (r.reply (delete_campaign id)) f

    status_is_gone :
        (id : ℕ) (s : String)
        → (plan_status o id s).1 ≡ false
        → is_failed (execute_campaign_action r (plan_status o id s).0).outcome ≡ false
        → (s ≡ already_deleted_status)
          ⊎ (is_clean (outcome_of r (r.reply (delete_campaign id))) ≡ true)
    status_is_gone id s h f = elim (Bool-cases (same s already_deleted_status)) [
      | inl a ↦ inl (ground arith)
      | inr a ↦ elim (Bool-cases (includes o.active_statuses s)) [
        | inl b ↦ absurd (ground arith)
        | inr b ↦ elim (Bool-cases (includes o.terminal_statuses s)) [
          | inl c ↦ elim (Bool-cases o.delete_terminal_campaigns) [
            | inl d ↦ inr (deletes_is_gone id (rw (a, b, c, d) at f))
            | inr d ↦ absurd (ground arith)
          ]
          | inr c ↦ inr (deletes_is_gone id (rw (a, b, c) at f))
        ]
      ]
    ]

    planned-IsGone :
        (id : ℕ)
        → (plan_mapping o (fetch_campaign_status r) id).1 ≡ false
        → is_failed
            (execute_campaign_action r (plan_mapping o (fetch_campaign_status r) id).0).outcome
          ≡ false
        → IsGone id
    unfolding plan_mapping
    planned-IsGone id h f = elim (Option-cases (fetch_campaign_status r id)) [
      | inl n ↦ absurd (ground arith)
      | inr (s, e) ↦
          elim (status_is_gone id s (rw (e, plan_mapping) at h) (rw (e, plan_mapping) at f)) [
            | inl a ↦ inl (e ∙ ap some a)
            | inr c ↦ inr c
          ]
    ]

    mappings-IsGone :
        (ids : List ℕ)
        → All IsGone (plan_mappings o (fetch_campaign_status r) ids).1
        → any
            (λ c. is_failed c.outcome)
            (map (execute_campaign_action r) (plan_mappings o (fetch_campaign_status r) ids).0)
          ≡ false
        → All IsGone ids
    unfolding plan_mappings
    mappings-IsGone [] g f = tt
    mappings-IsGone (id ∷ rest) g f =
        elim (Bool-cases (plan_mapping o (fetch_campaign_status r) id).1) [
          | inl b ↦
              let both : All IsGone (id ∷ (plan_mappings o (fetch_campaign_status r) rest).1) =
                rw b at g in
              (both.0, mappings-IsGone rest both.1 (ground arith))
          | inr b ↦
              (planned-IsGone id b (ground arith), mappings-IsGone rest (rw b at g) (ground arith))
        ]

  -- What makes a request right: only an active campaign is cancelled; a campaign is deleted only when
  -- it is not active, and a terminal one only on demand; a list is deleted only when every campaign of
  -- the test, and the winner, is gone.
  abbrev pub IsJustified : AbTest → Bool → Request → Type 0
  IsJustified test on_demand (update_status id status) =
      (s : String) × (fetch_campaign_status r id ≡ some s)
      × (includes default_active_statuses s ≡ true)
      × (status ≡ "cancelled")
  IsJustified test on_demand (delete_campaign id) =
      (s : String) × (fetch_campaign_status r id ≡ some s)
      × (includes default_active_statuses s ≡ false)
      × ((includes default_terminal_statuses s ≡ false) ⊎ (on_demand ≡ true))
  IsJustified test on_demand (delete_list id) =
      All IsGone test.campaign_mappings × All IsGone (optional test.winner_campaign_id)

  none_survives :
      (results : List CampaignResult) (ids : List ℕ)
      → any (λ id. not (is_deleted results id)) ids ≡ false
      → All (λ id. is_deleted results id ≡ true) ids
  none_survives results [] h = tt
  none_survives results (id ∷ rest) h = elim (Bool-cases (is_deleted results id)) [
    | inl b ↦ (b, none_survives results rest (ground arith))
    | inr b ↦ absurd (ground arith)
  ]

  campaigns-IsGone :
      (test : AbTest) (o : PlanCancelOptions)
      → let plan = plan_cancel_ab_test test (fetch_campaign_status r) o in
        any_surviving_reference plan (map (execute_campaign_action r) plan.campaign_actions) ≡ false
        → All IsGone test.campaign_mappings × All IsGone (optional test.winner_campaign_id)
  unfolding any_surviving_reference plan_cancel_ab_test
  campaigns-IsGone test o h =
      let parts = plan_mappings o (fetch_campaign_status r) test.campaign_mappings in
      let results = map (execute_campaign_action r) parts.0 in
      let blocking : List ℕ = parts.1 ++ optional test.winner_campaign_id in
      let gone : All IsGone blocking =
        All-imp (λ id. is_deleted results id ≡ true) IsGone blocking
          (λ id d. deleted-IsGone parts.0 id d) (none_survives results blocking (ground arith)) in
      let (surviving, winner) =
        append-both IsGone parts.1 (optional test.winner_campaign_id) gone in
      (mappings-IsGone o test.campaign_mappings surviving (ground arith), winner)

  status-IsJustified :
      (test : AbTest) (on_demand : Bool) (id : ℕ) (s : String)
      → fetch_campaign_status r id ≡ some s
      → All
          (IsJustified test on_demand)
          (campaign_requests (plan_status (cancel_options on_demand) id s).0)
  status-IsJustified test on_demand id s e = elim (Bool-cases (same s already_deleted_status)) [
    | inl a ↦ rw a tt
    | inr a ↦ elim (Bool-cases (includes default_active_statuses s)) [
      | inl b ↦ rw (a, b) ((s, e, b, refl), tt)
      | inr b ↦ elim (Bool-cases (includes default_terminal_statuses s)) [
        | inl c ↦ elim (Bool-cases on_demand) [
          | inl d ↦ rw (a, b, c, d) ((s, e, b, inr refl), tt)
          | inr d ↦ rw (a, b, c, d) tt
        ]
        | inr c ↦ rw (a, b, c) ((s, e, b, inl c), tt)
      ]
    ]
  ]

  mappings-IsJustified :
      (test : AbTest) (on_demand : Bool) (ids : List ℕ)
      → All
          (IsJustified test on_demand)
          (all_requests (plan_mappings (cancel_options on_demand) (fetch_campaign_status r) ids).0)
  unfolding all_requests plan_mappings plan_mapping
  mappings-IsJustified test on_demand [] = tt
  mappings-IsJustified test on_demand (id ∷ rest) =
      both-append (IsJustified test on_demand)
        (campaign_requests (plan_mapping (cancel_options on_demand) (fetch_campaign_status r) id).0)
        (all_requests (plan_mappings (cancel_options on_demand) (fetch_campaign_status r) rest).0)
        (elim (Option-cases (fetch_campaign_status r id)) [
          | inl n ↦ rw (n, plan_mapping) tt
          | inr (s, e) ↦ rw (e, plan_mapping) (status-IsJustified test on_demand id s e)
        ])
        (mappings-IsJustified test on_demand rest)

  lists-IsJustified :
      (test : AbTest) (on_demand survives : Bool) (ids : List ℕ)
      → (survives ≡ false
          → All IsGone test.campaign_mappings × All IsGone (optional test.winner_campaign_id))
      → All (IsJustified test on_demand) (list_requests survives ids)
  lists-IsJustified test on_demand true ids h = tt
  lists-IsJustified test on_demand false [] h = tt
  lists-IsJustified test on_demand false (id ∷ ids) h =
      (h refl, lists-IsJustified test on_demand false ids h)

  -- Whatever the service replies, every request that stopping a test makes is justified by the status
  -- fetched for its campaign: a status change only sets an active campaign to "cancelled"; a
  -- campaign is deleted only if its status is not active, and if it is terminal only when the
  -- caller asked for it; and a list is deleted only if each campaign of the test, and the winner
  -- campaign, had been deleted before or the reply to its deletion is a success or a not-found.
  pub requests-IsJustified :
      (test : AbTest) (on_demand : Bool)
      → All (IsJustified test on_demand) (cancel_ab_test r test on_demand).requests
  unfolding cancel_ab_test execute_cancel_plan plan_cancel_ab_test
  requests-IsJustified test on_demand =
      let plan = plan_cancel_ab_test test (fetch_campaign_status r) (cancel_options on_demand) in
      let survives =
        any_surviving_reference plan (map (execute_campaign_action r) plan.campaign_actions) in
      both-append (IsJustified test on_demand) (all_requests plan.campaign_actions)
        (list_requests survives plan.list_actions)
        (mappings-IsJustified test on_demand test.campaign_mappings)
        (lists-IsJustified test on_demand survives plan.list_actions
          (λ h. campaigns-IsGone test (cancel_options on_demand) h))
