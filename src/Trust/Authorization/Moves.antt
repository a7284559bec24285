-- ===== src/Trust/Authorization/Moves.antt =====
-- Authority through the status changes of actions.
use weatherflow.Prelude.{
  ℕ, String, ◌≡◌, ◌≢◌, refl, sym, subst, inl, inr, true, some, arith, ◌==◌, eq_iff, if◌then◌else◌,
  Option-cases, Bool-cases,
}
use weatherflow.Outcome.{ok}
use weatherflow.Table.{lookup}
use weatherflow.Table.Laws.{lookup-update_where}
use weatherflow.Database.{Db}
use weatherflow.Trust.ActionStatus.{ActionStatus, action_status_eq, action_can_transition_to}
use weatherflow.Trust.Model.{Action}
use weatherflow.Trust.Actions
use weatherflow.Trust.Actions.{action_key}
use weatherflow.Trust.Swap.{action_transition-swap, action_outcome, action_swapped}
use weatherflow.Trust.Authorization.{is_started, HasAuthority, IsAuthorized}
use weatherflow.Integrity.{action_transition_in-HasKeys}

-- Only approval starts an action.
started_before :
    (s t : ActionStatus)
    → action_can_transition_to s t ≡ true
    → t ≢ ActionStatus.approved
    → is_started t ≡ true
    → is_started s ≡ true
unfolding action_can_transition_to is_started
started_before s t allowed other started = ground arith

module _ (now : ℕ) (action_id : String) (target : ActionStatus) (v : ℕ) (detail : Actions.Detail)
    (db : Db) (p : IsAuthorized db) where
  -- The row that the transition wrote.
  lookup-action_swapped :
      (c : Action) (j : String)
      → lookup action_key action_id db.actions ≡ some c
      → Actions.has_version v c ≡ true
      → lookup action_key j (action_swapped now action_id target v detail db).actions ≡ (
          if action_id == j
          then some (Actions.moved target now detail c)
          else lookup action_key j db.actions)
  unfolding Actions.moved
  lookup-action_swapped c j found version = ground (
    arith,
    found,
    version,
    eq_iff action_id j,
    lookup-update_where action_key action_id j (Actions.has_version v)
        (Actions.moved target now detail) db.actions (λ a. refl),
  )

  -- Every started action has authority after the transition, if the moved one has.
  swapped-authority :
      (c : Action)
      → lookup action_key action_id db.actions ≡ some c
      → Actions.has_version v c ≡ true
      → (is_started target ≡ true → HasAuthority db c)
      → (j : String) (a : Action)
      → lookup action_key j (action_swapped now action_id target v detail db).actions ≡ some a
      → is_started a.status ≡ true
      → HasAuthority db a
  unfolding Actions.moved
  swapped-authority c found version authority j a found' started =
      elim (Bool-cases (action_id == j)) [
        | inl same ↦
            let moved_eq : Actions.moved target now detail c ≡ a =
              ground (arith, same, found', lookup-action_swapped c j found version) in
            subst (HasAuthority db) moved_eq
              (authority (subst (λ b. is_started b.status ≡ true) (sym moved_eq) started))
        | inr other ↦
            p.at j a (ground (arith, other, found', lookup-action_swapped c j found version))
              started
      ]

  -- The moved action has authority: it is being given, or the action was started before.
  moved-authority :
      (c : Action)
      → lookup action_key action_id db.actions ≡ some c
      → action_can_transition_to c.status target ≡ true
      → (target ≡ ActionStatus.approved → HasAuthority db c)
      → is_started target ≡ true
      → HasAuthority db c
  moved-authority c found allowed given started =
      elim (Bool-cases (action_status_eq target ActionStatus.approved)) [
        | inl approval ↦ given (ground arith)
        | inr other ↦
            p.at action_id c found
              (started_before c.status target allowed (λ e. ground (arith, e)) started)
      ]

  pub action_transition_in-authority :
      (r : Action)
      → (Actions.transition_in now action_id target v detail db).0 ≡ ok r
      → ((c : Action)
          → lookup action_key action_id db.actions ≡ some c
          → target ≡ ActionStatus.approved
          → HasAuthority db c)
      → IsAuthorized (Actions.transition_in now action_id target v detail db).1
  unfolding action_outcome
  action_transition_in-authority r e given = record {
    keys = (action_transition_in-HasKeys now action_id target v detail).at db r p.keys e;
    at = elim (Option-cases (lookup action_key action_id db.actions)) [
      | inl absent ↦ absurd (
          ground (
            arith,
            absent,
            e,
            action_transition-swap now action_id target v detail db p.keys.actions,
          ))
      | inr (c, found) ↦
          let same = action_transition-swap now action_id target v detail db p.keys.actions in
          let allowed : action_can_transition_to c.status target ≡ true =
            ground (arith, found, e, same) in
          let version : Actions.has_version v c ≡ true = ground (arith, found, e, same) in
          let after : (Actions.transition_in now action_id target v detail db).1
              ≡ action_swapped now action_id target v detail db =
            ground (arith, found, e, same) in
          rw after
            (swapped-authority c found version (moved-authority c found allowed (given c found)))
    ];
  }
