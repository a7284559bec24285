-- ===== src/Runtime/Outcomes.antt =====
-- What `ActionExecutionCoordinator.execute` returns is what it has stored.
use weatherflow.Prelude.{
  ℕ, String, ◌≡◌, refl, subst, none, some, arith, eq_refl, inl, inr, Option-cases,
}
use weatherflow.Outcome.{Result, ok, err}
use weatherflow.Table.{lookup}
use weatherflow.Table.Laws.{lookup-key, lookup-update_where}
use weatherflow.Database.{Db, Tx, pure, settle, ◌>>=◌, transaction}
use weatherflow.Database.Commits.{Triple, Triple-bind}
use weatherflow.Events.Model.{Stamp, Event}
use weatherflow.Events.Ledger.{append_in}
use weatherflow.Runs.Status.{RunStatus}
use weatherflow.Runs.Repository
use weatherflow.Runs.Coordinator.{move_in}
use weatherflow.Runs.Swap.{transition_in-swap, after_checks}
use weatherflow.Trust.ActionStatus.{ActionStatus}
use weatherflow.Trust.Model.{Action}
use weatherflow.Trust.Actions
use weatherflow.Trust.Actions.{Detail, action_key}
use weatherflow.Trust.Swap.{action_transition-swap, action_outcome}
use weatherflow.Integrity.{HasKeys, append_in-HasKeys, action_transition_in-HasKeys}
use weatherflow.Integrity.Coordinators.{move_in-HasKeys}
use weatherflow.Runtime.ActionExecution.{
  FinishStamps, finish_in, review_in, ReviewReason, reason_text,
}

-- The action is the database's row, with the status and the details that a transition wrote.
pub record IsStored (target : ActionStatus) (detail : Detail) (a : Action) (db : Db) : Type 0 where
  pub keys : HasKeys db
  pub found : lookup action_key a.id db.actions ≡ some a
  pub status : a.status ≡ target
  pub result : a.result ≡ detail.result
  pub message : a.error_message ≡ detail.error_message

settled :
    {A : Type 0} (Q : A → Db → Type 0) (db : Db) (result : Result A × Db) (a : A)
    → (result.0 ≡ ok a → Q a result.1)
    → (settle db result).0 ≡ ok a
    → Q a (settle db result).1
settled Q db (ok b, after) a k e = k e
settled Q db (err x, after) a k e = cc

-- What a transaction commits.
pub Triple-transaction :
    {P : Db → Type 0} {A : Type 0} {Q : A → Db → Type 0} (m : Tx A)
    → Triple P m Q
    → Triple P (transaction m) Q
unfolding transaction
Triple-transaction {Q} m k = record { at = λ db a h e. settled Q db (m db) a (k.at db a h) e }

-- A transition stores what it returns.
transition_in-IsStored :
    (now : ℕ) (action_id : String) (target : ActionStatus) (v : ℕ) (detail : Detail)
    → Triple HasKeys (Actions.transition_in now action_id target v detail) (IsStored target detail)
unfolding action_outcome Actions.moved
transition_in-IsStored now action_id target v detail = record {
  at = λ db a k e.
      let same = action_transition-swap now action_id target v detail db k.actions in
      let keys = (action_transition_in-HasKeys now action_id target v detail).at db a k e in
      elim (Option-cases (lookup action_key action_id db.actions)) [
        | inl absent ↦ absurd (ground (arith, absent, e, same))
        | inr (c, found) ↦
            let row =
              lookup-update_where action_key action_id c.id (Actions.has_version v)
                (Actions.moved target now detail) db.actions (λ x. refl) in
            let id = lookup-key action_key action_id db.actions c found in
            record {
              keys = keys;
              found = ground (arith, found, e, same, row, id, eq_refl action_id);
              status = ground (arith, found, e, same);
              result = ground (arith, found, e, same);
              message = ground (arith, found, e, same);
            }
      ];
}

module _ {target : ActionStatus} {detail : Detail} (a : Action) where
  append_in-IsStored :
      (e : Event) → Triple (IsStored target detail a) (append_in e) (λ _. IsStored target detail a)
  unfolding append_in
  append_in-IsStored e = record {
    at = λ db r p x. record {
      keys = (append_in-HasKeys e).at db r p.keys x;
      found = ground (arith, x, p.found);
      status = p.status;
      result = p.result;
      message = p.message;
    };
  }

  move_in-IsStored :
      (now : ℕ) (stamp : Stamp) (run_id : String) (to : RunStatus) (v : ℕ) (d : Repository.Detail)
      → Triple
          (IsStored target detail a)
          (move_in now stamp run_id to v d)
          (λ _. IsStored target detail a)
  unfolding move_in ◌>>=◌ append_in after_checks
  move_in-IsStored now stamp run_id to v d = record {
    at = λ db r p x. record {
      keys = (move_in-HasKeys now stamp run_id to v d).at db r p.keys x;
      found = ground (arith, p.found, transition_in-swap now run_id to v d db p.keys.runs);
      status = p.status;
      result = p.result;
      message = p.message;
    };
  }

  pure-IsStored : Triple (IsStored target detail a) (pure a) (IsStored target detail)
  unfolding ◌>>=◌
  pure-IsStored = record {
    at = λ db b p e. subst (λ (x : Action). IsStored target detail x db) (ground (arith, e)) p;
  }

pub finish_in-IsStored :
    (stamps : FinishStamps) (action : Action) (target : ActionStatus) (event_type : String)
    (detail : Detail)
    → Triple HasKeys (finish_in stamps action target event_type detail) (IsStored target detail)
unfolding finish_in
finish_in-IsStored stamps action target event_type detail =
    Triple-bind {Q = IsStored target detail} {R = IsStored target detail} _ _
      (transition_in-IsStored _ _ _ _ _)
      λ a.
        Triple-bind {Q = λ _. IsStored target detail a} {R = IsStored target detail} _ _
          (append_in-IsStored a _) λ _. pure-IsStored a

-- The details of a review.
unfoldable pub review_detail : ReviewReason → Detail
review_detail reason = record {
  result = none;
  error_class = some "AmbiguousSideEffectError";
  error_message = some (reason_text reason);
}

pub review_in-IsStored :
    (stamps : FinishStamps) (action : Action) (reason : ReviewReason) (run_id : String) (v : ℕ)
    → Triple HasKeys
        (review_in stamps action reason run_id v)
        (IsStored ActionStatus.needs_review (review_detail reason))
unfolding review_in review_detail
review_in-IsStored stamps action reason run_id v =
    Triple-bind {Q = IsStored ActionStatus.needs_review (review_detail reason)}
      {R = IsStored ActionStatus.needs_review (review_detail reason)} _ _
      (transition_in-IsStored _ _ _ _ _)
      λ a.
        Triple-bind {Q = λ _. IsStored ActionStatus.needs_review (review_detail reason) a}
          {R = IsStored ActionStatus.needs_review (review_detail reason)} _ _
          (append_in-IsStored a _)
          λ _.
            Triple-bind {Q = λ _. IsStored ActionStatus.needs_review (review_detail reason) a}
              {R = IsStored ActionStatus.needs_review (review_detail reason)} _ _
              (move_in-IsStored a _ _ _ _ _ _) λ _. pure-IsStored a
