-- ===== src/Trust/Lifecycle.antt =====
-- An action's status moves along ACTION_TRANSITIONS of core/src/weatherflow/trust/models.py, and
-- what it does is fixed when it is created.
pub mod Statements
use weatherflow.Prelude.{
  ℕ, ◌+◌, ◌≤◌, String, ◌≡◌, refl, subst, Bool, true, ◌&&◌, Option, none, some, arith, ◌==◌, eq_iff,
  ◌=?◌, if◌then◌else◌, inl, inr, Bool-cases, Option-cases,
}
use weatherflow.Json.{Object}
use weatherflow.Outcome.{ok}
use weatherflow.Table.{lookup}
use weatherflow.Table.Laws.{lookup-update_where}
use weatherflow.Database.{Db, Tx}
use weatherflow.Database.Commits.{Commits}
use weatherflow.Trust.ActionStatus.{ActionStatus, action_can_transition_to}
use weatherflow.Trust.Model.{Action}
use weatherflow.Trust.Actions
use weatherflow.Trust.Actions.{action_key}
use weatherflow.Trust.Swap.{action_transition-swap, action_outcome, action_swapped}
use weatherflow.Integrity.{HasKeys, action_transition_in-HasKeys}

-- A sequence of allowed changes.
pub data ActionPath (s : ActionStatus) : ActionStatus → Type 0 where
  here : ActionPath s s
  step :
      {t u : ActionStatus} → ActionPath s t → action_can_transition_to t u ≡ true → ActionPath s u

-- The run, the tool, its arguments and effect, and the idempotency key are the same.
pub record IsSameCall (a b : Action) : Type 0 where
  pub run_id : a.run_id ≡ b.run_id
  pub tool_id : a.tool_id ≡ b.tool_id
  pub arguments : a.arguments ≡ b.arguments
  pub effect : a.effect ≡ b.effect
  pub idempotency_key : a.idempotency_key ≡ b.idempotency_key

-- The action `start` is still there, as the same call, later on its path.
pub record IsContinued (start : Action) (db : Db) : Type 0 where
  pub keys : HasKeys db
  pub action : Action
  pub found : lookup action_key start.id db.actions ≡ some action
  pub call : IsSameCall start action
  pub path : ActionPath start.status action.status
  pub version : start.version ≤ action.version

module _ (start : Action) where
  -- Actions on the database that leave the rows of the actions as they are.
  pub untouched-IsContinued :
      {A : Type 0} (m : Tx A)
      → Commits HasKeys m
      → ((db : Db) (a : A) → HasKeys db → (m db).0 ≡ ok a → (m db).1.actions ≡ db.actions)
      → Commits (IsContinued start) m
  untouched-IsContinued m k frame = record {
    at = λ db a p e. record {
      keys = k.at db a p.keys e;
      action = p.action;
      found = cc (frame db a p.keys e, p.found);
      call = p.call;
      path = p.path;
      version = p.version;
    };
  }

  module _ (now : ℕ) (moved_id : String) (target : ActionStatus) (v : ℕ) (detail : Actions.Detail)
      (db : Db) (r : Action) (p : IsContinued start db)
      (e : (Actions.transition_in now moved_id target v detail db).0 ≡ ok r) where
    -- The row of `start` after the transition of a row that was found.
    found_after :
        (c : Action)
        → lookup action_key moved_id db.actions ≡ some c
        → lookup action_key start.id
            (Actions.transition_in now moved_id target v detail db).1.actions
          ≡ (if moved_id == start.id
              then some (Actions.moved target now detail c)
              else lookup action_key start.id db.actions)
    unfolding action_outcome Actions.moved
    found_after c found = ground (
      arith,
      found,
      e,
      eq_iff moved_id start.id,
      action_transition-swap now moved_id target v detail db p.keys.actions,
      lookup-update_where action_key moved_id start.id (Actions.has_version v)
          (Actions.moved target now detail) db.actions (λ a. refl),
    )

    after_transition :
        (c : Action)
        → lookup action_key moved_id db.actions ≡ some c
        → IsContinued start (Actions.transition_in now moved_id target v detail db).1
    unfolding action_outcome Actions.moved
    after_transition c found =
        let keys = (action_transition_in-HasKeys now moved_id target v detail).at db r p.keys e in
        elim (Bool-cases (moved_id == start.id)) [
          | inl this ↦
              let same : p.action ≡ c =
                ground (arith, this, eq_iff moved_id start.id, found, p.found) in
              let allowed : action_can_transition_to c.status target ≡ true = ground (
                arith,
                found,
                e,
                action_transition-swap now moved_id target v detail db p.keys.actions,
              ) in
              record {
                keys = keys;
                action = Actions.moved target now detail c;
                found = ground (arith, this, found_after c found);
                call = ground (arith, same, p.call);
                path =
                    step (subst (λ (x : Action). ActionPath start.status x.status) same p.path)
                      allowed;
                version = ground (arith, same, p.version);
              }
          | inr other ↦ record {
            keys = keys;
            action = p.action;
            found = ground (arith, other, p.found, found_after c found);
            call = p.call;
            path = p.path;
            version = p.version;
          }
        ]

    pub transition_in-IsContinued :
        IsContinued start (Actions.transition_in now moved_id target v detail db).1
    unfolding action_outcome
    transition_in-IsContinued = elim (Option-cases (lookup action_key moved_id db.actions)) [
      | inl absent ↦ absurd (
          ground (
            arith,
            absent,
            e,
            action_transition-swap now moved_id target v detail db p.keys.actions,
          ))
      | inr (c, found) ↦ after_transition c found
    ]
