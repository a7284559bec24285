-- ===== src/Trust/Authorization/Statements.antt =====
-- The statements of the coordinators start no action without authority.
use weatherflow.Prelude.{
  ℕ, String, ◌≡◌, ◌≢◌, refl, sym, subst, inl, Bool, true, false, Option, some, arith, eq_refl,
}
use weatherflow.Table.{lookup}
use weatherflow.Table.Laws.{lookup-insert}
use weatherflow.Database.{Db}
use weatherflow.Database.Commits.{
  Commits, Triple, Triple-bind, Commits-Triple, Commits-bind, Commits-pure,
}
use weatherflow.Events.Model.{Event}
use weatherflow.Events.Ledger.{append_in}
use weatherflow.Trust.ActionStatus.{ActionStatus}
use weatherflow.Trust.ApprovalStatus.{ApprovalStatus}
use weatherflow.Trust.Model.{Action, new_action}
use weatherflow.Trust.Policy.{evaluate, sandbox, effect_decisions}
use weatherflow.Trust.Actions
use weatherflow.Trust.Actions.{action_key}
use weatherflow.Trust.Coordinator.{Proposal, SandboxStamps, insert_sandboxed, is_sandbox}
use weatherflow.Trust.Decisions.{decision, expiry}
use weatherflow.Trust.Authorization.{
  HasAuthority, IsAuthorized, action_create_in-IsAuthorized, approval_create_in-IsAuthorized,
}
use weatherflow.Trust.Authorization.Moves.{action_transition_in-authority}
use weatherflow.Integrity.{beside-HasKeys}
use weatherflow.Protocol.{Statements}
use weatherflow.Trust.Authorization.Untouched.{
  append_in-IsAuthorized, move_in-IsAuthorized, insert_run-IsAuthorized,
  attach_capability_snapshot_in-IsAuthorized, attach_rhythm_snapshot_in-IsAuthorized,
}
use weatherflow.Trust.Authorization.Decisions.{resolve_pending-IsAuthorized}

move_action-IsAuthorized :
    (now : ℕ) (action_id : String) (target : ActionStatus) (v : ℕ) (detail : Actions.Detail)
    → target ≢ ActionStatus.approved
    → Commits IsAuthorized (Actions.transition_in now action_id target v detail)
move_action-IsAuthorized now action_id target v detail other = record {
  at = λ db r p e.
      action_transition_in-authority now action_id target v detail db p r e
        (λ c found approval. absurd (other approval));
}

-- The policy lets only effects that it sandboxes pass without approval.
sandbox_effect :
    (q : Proposal)
    → is_sandbox (evaluate q.tool q.workspace).kind ≡ true
    → effect_decisions q.tool.effect ≡ sandbox
unfolding evaluate
sandbox_effect q h = ground arith

-- A new action with a sandboxed effect, before and after an event is appended.
abbrev IsNew : Action → Db → Type 0
IsNew a db = IsAuthorized db × (lookup action_key a.id db.actions ≡ some a)

action_create_in-IsNew :
    (a : Action)
    → a.status ≡ ActionStatus.proposed
    → Triple IsAuthorized (Actions.create_in a) (λ _. IsNew a)
unfolding Actions.create_in
action_create_in-IsNew a proposed = record {
  at = λ db r p e. (
    (action_create_in-IsAuthorized a proposed).at db r p e,
    ground (arith, e, eq_refl a.id, lookup-insert action_key a.id a db.actions),
  );
}

append_in-IsNew : (a : Action) (e : Event) → Triple (IsNew a) (append_in e) (λ _. IsNew a)
unfolding append_in
append_in-IsNew a e = record {
  at = λ db r p x. ((append_in-IsAuthorized e).at db r p.0 x, ground (arith, p.1));
}

insert_sandboxed-IsAuthorized :
    (stamps : SandboxStamps) (q : Proposal)
    → is_sandbox (evaluate q.tool q.workspace).kind ≡ true
    → Commits IsAuthorized (insert_sandboxed stamps q)
unfolding insert_sandboxed new_action
insert_sandboxed-IsAuthorized stamps q h = record {
  at =
      (Triple-bind {P = IsAuthorized} {Q = λ _. IsNew _} {R = λ _. IsAuthorized} _ _
        (action_create_in-IsNew _ refl)
        λ _. Triple-bind {Q = λ _. IsNew _} _ _ (append_in-IsNew _ _) λ _.
          Triple-bind {Q = λ _. IsAuthorized} _ _
            (record {
              at = λ db r p e.
                  action_transition_in-authority _ _ _ _ _ db p.0 r e
                    (λ c found _. inl (ground (arith, p.1, found, sandbox_effect q h)));
            })
            λ a.
              Commits-Triple _ (Commits-bind _ _ (append_in-IsAuthorized _) λ _. Commits-pure a)
                (λ db p. p)).at;
}

-- An approving decision approves both, any other decision and an expiry approve no action.
decision-coherent :
    (approved : Bool) (decided_by : String) (rationale : Option String)
    → (decision approved decided_by rationale).action ≡ ActionStatus.approved
    → (decision approved decided_by rationale).approval ≡ ApprovalStatus.approved
unfolding decision
decision-coherent true decided_by rationale h = refl
decision-coherent false decided_by rationale h = ground arith

expiry-coherent : expiry.action ≡ ActionStatus.approved → expiry.approval ≡ ApprovalStatus.approved
unfolding expiry
expiry-coherent h = ground arith

pub IsAuthorized-Statements : Statements IsAuthorized
IsAuthorized-Statements = record {
  beside = λ a b g h. record {
    keys = beside-HasKeys a b g h.keys;
    at = λ action_id x found started.
        subst (λ rows. HasAuthority (record b { approvals = rows }) x) (sym g.approvals)
          (h.at action_id x (cc (g.actions, found)) started);
  };
  append = λ e _. append_in-IsAuthorized e;
  insert_run = insert_run-IsAuthorized;
  move = move_in-IsAuthorized;
  attach_capability_snapshot = attach_capability_snapshot_in-IsAuthorized;
  attach_rhythm_snapshot = attach_rhythm_snapshot_in-IsAuthorized;
  create_action = action_create_in-IsAuthorized;
  create_approval = approval_create_in-IsAuthorized;
  move_action = move_action-IsAuthorized;
  sandbox = insert_sandboxed-IsAuthorized;
  decide = λ stamps approval_id v approved decided_by rationale.
      resolve_pending-IsAuthorized stamps approval_id v _
        (decision-coherent approved decided_by rationale);
  expire =
      λ stamps approval_id v. resolve_pending-IsAuthorized stamps approval_id v _ expiry-coherent;
}
