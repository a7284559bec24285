-- ===== src/Examples/Operations.antt =====
-- Single operations at a run that asks for an approval.
use weatherflow.Prelude.{◌⊎◌, ◌↔◌, ◌≡◌, refl, none, inl, [], ◌∷◌, true}
use weatherflow.Outcome.{err, run_idempotency_conflict, ok}
use weatherflow.Table.{lookup, filter}
use weatherflow.Database.{empty}
use weatherflow.Capabilities.{observe, external_write}
use weatherflow.Runs.Status.{RunStatus, planning}
use weatherflow.Runs.Model.{Run}
use weatherflow.Runs.Repository
use weatherflow.Runs.Coordinator.{create_run, move}
use weatherflow.Runs.Swap.{transitioned, transition_in-eq}
use weatherflow.Runs.Moves.{move_result, with_change, move-eq}
use weatherflow.Runs.Idempotency.{IsFor, create_run-replayed, create_run-again}
use weatherflow.Trust.ActionStatus.{ActionStatus}
use weatherflow.Trust.ApprovalStatus.{ApprovalStatus}
use weatherflow.Workspaces.{allows_action_path}
use weatherflow.Workspaces.Nesting.{IsBelow, IsBelowOne, allows_action_path-IsBelow}
use weatherflow.Trust.Policy.{visible}
use weatherflow.Trust.Visibility.{is_shown, visible-is_shown}
use weatherflow.Trust.Actions
use weatherflow.Trust.Actions.{action_key}
use weatherflow.Trust.Approvals
use weatherflow.Trust.Approvals.{approval_key}
use weatherflow.Trust.Swap.{
  action_transitioned, action_transition-eq, approval_transitioned, approval_transition-eq,
}
use weatherflow.Database.Effect.{row_after, left_by}
use weatherflow.Integrity.{HasKeys}
use weatherflow.Protocol.Trace.{then_call, idle}
use weatherflow.Protocol.Guarantees.{reached-HasKeys}
use weatherflow.Examples.Fixtures.{
  stamp, tool, workspace, request, create, created, proposed, run, Reaches-proposed,
}
use weatherflow.Examples.Rows.{created-run, create-returned}

abbrev created_keys : HasKeys created
created_keys = reached-HasKeys created (then_call create idle)

abbrev queued_run : Run
queued_run = run RunStatus.queued 0 1

transition_in-eq_example :
    let t = Repository.transition_in 2 "r" planning 0 Repository.no_detail created in
    let expected =
      transitioned 2 "r" planning 0 Repository.no_detail
        (lookup Repository.run_key "r" created.runs) in
    (t.0 ≡ expected)
    × (lookup Repository.run_key "r" t.1.runs
        ≡ row_after expected "r" "r" (lookup Repository.run_key "r" created.runs))
    × (t.1 ≡ left_by expected created (record created { runs = t.1.runs }))
transition_in-eq_example =
    transition_in-eq 2 "r" planning 0 Repository.no_detail created "r" created_keys.runs

move-eq_example :
    let t = move 2 (stamp "e2" 2) "r" planning 0 Repository.no_detail created in
    let found = lookup Repository.run_key "r" created.runs in
    let expected = move_result 2 (stamp "e2" 2) "r" planning 0 Repository.no_detail created found in
    (t.0 ≡ expected)
    × (lookup Repository.run_key "r" t.1.runs
        ≡ row_after expected "r" "r" (lookup Repository.run_key "r" created.runs))
    × (t.1
        ≡ left_by expected created (record created {
          runs = t.1.runs;
          events =
              with_change 2
                (stamp "e2" 2)
                "r"
                planning
                0
                Repository.no_detail
                created
                found
                created.events;
        }))
move-eq_example =
    move-eq 2 (stamp "e2" 2) "r" planning 0 Repository.no_detail created "r" created_keys.runs

create_run-replayed_example :
    (IsFor request queued_run
      × (create_run true (stamp "r2" 9) (stamp "e9" 9) request empty created
          ≡ (ok queued_run, created)))
    ⊎ (¬ (IsFor request queued_run)
        × (create_run true (stamp "r2" 9) (stamp "e9" 9) request empty created
            ≡ (err run_idempotency_conflict, created)))
unfolding Repository.get_by_client_request_id_in lookup
create_run-replayed_example =
    create_run-replayed true (stamp "r2" 9) (stamp "e9" 9) request empty created queued_run
      created-run (inl refl)

create_run-again_example :
    create_run true
      (stamp "r2" 9)
      (stamp "e9" 9)
      request
      empty
      (create_run true (stamp "r" 1) (stamp "e1" 1) request empty empty).1
    ≡ (ok queued_run, (create_run true (stamp "r" 1) (stamp "e1" 1) request empty empty).1)
unfolding Repository.get_by_client_request_id_in lookup
create_run-again_example =
    create_run-again true (stamp "r" 1) (stamp "e1" 1) (stamp "r2" 9) (stamp "e9" 9) request empty
      empty empty queued_run (inl refl) create-returned (inl refl)

action_transition-eq_example :
    let t = Actions.transition_in 5 "a" ActionStatus.approved 0 Actions.no_detail proposed in
    let expected =
      action_transitioned 5 "a" ActionStatus.approved 0 Actions.no_detail proposed
        (lookup Actions.action_key "a" proposed.actions) in
    (t.0 ≡ expected)
    × (lookup Actions.action_key "a" t.1.actions
        ≡ row_after expected "a" "a" (lookup Actions.action_key "a" proposed.actions))
    × (t.1 ≡ left_by expected proposed (record proposed { actions = t.1.actions }))
action_transition-eq_example =
    action_transition-eq 5 "a" ActionStatus.approved 0 Actions.no_detail proposed "a"
      (reached-HasKeys proposed Reaches-proposed).actions

approval_transition-eq_example :
    let t = Approvals.transition_in 5 "p" ApprovalStatus.denied 0 "user" none proposed in
    let expected =
      approval_transitioned 5 "p" ApprovalStatus.denied 0 "user" none proposed
        (lookup approval_key "p" proposed.approvals) in
    (t.0 ≡ expected)
    × (lookup approval_key "p" t.1.approvals
        ≡ row_after expected "p" "p" (lookup approval_key "p" proposed.approvals))
    × (t.1 ≡ left_by expected proposed (record proposed { approvals = t.1.approvals }))
approval_transition-eq_example =
    approval_transition-eq 5 "p" ApprovalStatus.denied 0 "user" none proposed "p"
      (reached-HasKeys proposed Reaches-proposed).approvals

visible-is_shown_example :
    visible (tool external_write ("mail" ∷ []) ∷ tool observe ("files" ∷ []) ∷ []) workspace
    ≡ filter
        (is_shown workspace)
        (tool external_write ("mail" ∷ []) ∷ tool observe ("files" ∷ []) ∷ [])
visible-is_shown_example =
    visible-is_shown (tool external_write ("mail" ∷ []) ∷ tool observe ("files" ∷ []) ∷ [])
      workspace

allows_action_path-IsBelow_example :
    (allows_action_path workspace ("home" ∷ "work" ∷ ".weatherflow" ∷ []) ≡ true) ↔ (
      IsBelowOne workspace.action_roots ("home" ∷ "work" ∷ ".weatherflow" ∷ [])
      × ¬ (IsBelow workspace.internal_root ("home" ∷ "work" ∷ ".weatherflow" ∷ [])))
allows_action_path-IsBelow_example =
    allows_action_path-IsBelow workspace ("home" ∷ "work" ∷ ".weatherflow" ∷ [])
