-- ===== src/Trust/Authorization.antt =====
-- No action is started without authority: it is one that the policy sandboxes, or its approval has
-- been given.
pub mod Moves
pub mod ApprovalMoves
pub mod Untouched
pub mod Decisions
pub mod Statements
use weatherflow.Prelude.{
  ℕ, String, ◌≡◌, ◌≢◌, refl, ◌⊎◌, inl, inr, Bool, true, false, ◌&&◌, Option, none, some, arith,
  ◌==◌, eq_iff, if◌then◌else◌, Option-cases, Bool-cases,
}
use weatherflow.Outcome.{ok}
use weatherflow.Table.{lookup, update_where, insert, Unique}
use weatherflow.Table.Laws.{lookup-update_any, lookup-insert, lookup-other_key}
use weatherflow.Database.{Db, Tx, empty}
use weatherflow.Database.Commits.{Commits}
use weatherflow.Trust.ActionStatus.{ActionStatus, action_can_transition_to}
use weatherflow.Trust.ApprovalStatus.{ApprovalStatus, approval_can_transition_to}
use weatherflow.Trust.Model.{Action, Approval}
use weatherflow.Trust.Policy.{sandbox, effect_decisions}
use weatherflow.Trust.Actions
use weatherflow.Trust.Actions.{action_key}
use weatherflow.Trust.Approvals
use weatherflow.Trust.Approvals.{approval_key, action_of}
use weatherflow.Trust.Swap.{
  action_transition-swap, action_outcome, action_swapped, approval_transition-swap,
  approval_outcome, approval_swapped,
}
use weatherflow.Integrity.{
  HasKeys, action_create_in-HasKeys, approval_create_in-HasKeys, action_transition_in-HasKeys,
  approval_transition_in-HasKeys,
}

-- The statuses of an action that may be, is being or has been executed.
unfoldable pub is_started : ActionStatus → Bool
is_started ActionStatus.proposed = false
is_started ActionStatus.denied = false
is_started ActionStatus.cancelled = false
is_started _ = true

-- The action's approval has been given.
abbrev pub IsApproved : Db → String → Type 0
IsApproved db action_id =
    (p : Approval) × (lookup action_of action_id db.approvals ≡ some p)
    × (p.status ≡ ApprovalStatus.approved)

abbrev pub HasAuthority : Db → Action → Type 0
HasAuthority db a = (effect_decisions a.effect ≡ sandbox) ⊎ IsApproved db a.id

pub record IsAuthorized (db : Db) : Type 0 where
  pub keys : HasKeys db
  pub at :
      (action_id : String) (a : Action)
      → lookup action_key action_id db.actions ≡ some a
      → is_started a.status ≡ true
      → HasAuthority db a

-- Actions that write neither actions nor approvals.
pub untouched-IsAuthorized :
    {A : Type 0} (m : Tx A)
    → Commits HasKeys m
    → ((db : Db) (a : A)
        → HasKeys db
        → (m db).0 ≡ ok a
        → ((m db).1.actions ≡ db.actions) × ((m db).1.approvals ≡ db.approvals))
    → Commits IsAuthorized m
untouched-IsAuthorized m k frame = record {
  at = λ db r p e.
      let f = frame db r p.keys e in
      record {
        keys = k.at db r p.keys e;
        at = λ action_id a found started. rw f.1 (p.at action_id a (rw f.0 at found) started);
      };
}

-- A new action is not started.
pub action_create_in-IsAuthorized :
    (a : Action) → a.status ≡ ActionStatus.proposed → Commits IsAuthorized (Actions.create_in a)
unfolding Actions.create_in is_started
action_create_in-IsAuthorized a proposed = record {
  at = λ db r p e. record {
    keys = (action_create_in-HasKeys a).at db r p.keys e;
    at = λ action_id a' found started.
        ground
          (arith, e, proposed, lookup-insert action_key action_id a db.actions, p.at action_id a');
  };
}

-- A new approval takes none away.
pub approval_create_in-IsAuthorized : (q : Approval) → Commits IsAuthorized (Approvals.create_in q)
unfolding Approvals.create_in
approval_create_in-IsAuthorized q = record {
  at = λ db r p e. record {
    keys = (approval_create_in-HasKeys q).at db r p.keys e;
    at = λ action_id a found started.
        ground (arith, e, lookup-insert action_of a.id q db.approvals, p.at action_id a);
  };
}
