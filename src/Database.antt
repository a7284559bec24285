-- ===== src/Database.antt =====
-- The durable state: the tables that the modelled repositories read and write, and
-- `Database.transaction` of core/src/weatherflow/storage/database.py as an action on it.
pub mod Commits
pub mod Keeps
pub mod Beside
pub mod Effect
use weatherflow.Prelude.{Bool, true, false, Option, none, some, List, []}
use weatherflow.Outcome.{Error, Result, ok, err}
use weatherflow.Events.Model.{Event}
use weatherflow.Sessions.Model.{ConversationSession}
use weatherflow.Runs.Model.{Run}
use weatherflow.Trust.Model.{Action, Approval}
use weatherflow.Workspaces.{Workspace}
use weatherflow.Automations.Model.{Automation, AutomationRunLink}
use weatherflow.Runtime.Models.{RunControl, RunCheckpoint, QuarantinedCheckpoint}
use weatherflow.Continuations.Model.{SealedContinuation}

pub record Db : Type 0 where
  pub events : List Event
  pub sessions : List ConversationSession
  pub runs : List Run
  pub actions : List Action
  pub approvals : List Approval
  pub workspaces : List Workspace
  pub automations : List Automation
  pub links : List AutomationRunLink
  pub controls : List RunControl
  pub checkpoints : List RunCheckpoint
  pub quarantine : List QuarantinedCheckpoint
  pub continuations : List SealedContinuation

abbrev pub empty : Db
empty = record {
  events = [];
  sessions = [];
  runs = [];
  actions = [];
  approvals = [];
  workspaces = [];
  automations = [];
  links = [];
  controls = [];
  checkpoints = [];
  quarantine = [];
  continuations = [];
}

-- Statements on one connection. What was written before an exception is still seen on the
-- connection, until the transaction rolls it back.
abbrev pub Tx : Type 0 → Type 0
Tx A = Db → Result A × Db

module _ {A : Type 0} where
  pub pure : A → Tx A
  pure a db = (ok a, db)

  pub raise : Error → Tx A
  raise e db = (err e, db)

  -- Reads of the database, and reads that may raise.
  pub gets : (Db → A) → Tx A
  gets f db = (ok (f db), db)

  pub query : (Db → Result A) → Tx A
  query f db = (f db, db)

  pub or_raise : Error → Option A → Tx A
  unfolding raise pure
  or_raise e none = raise e
  or_raise e (some a) = pure a

-- `try`: what the action returned or raised, as a value.
pub attempt : {A : Type 0} → Tx A → Tx (Result A)
attempt m db = let (r, db') = m db in (ok r, db')

pub raise_if : Bool → Error → Tx (Unit {0})
unfolding raise pure
raise_if true e = raise e
raise_if false e = pure tt

abbrev pub continue : {A B : Type 0} → Result A → (A → Tx B) → Tx B
continue (ok a) f db = f a db
continue (err e) f db = (err e, db)

infixl 5 ◌>>=◌ ◌>>◌
-- Opening this opens the actions above too.
unfoldable pub ◌>>=◌ : {A B : Type 0} → Tx A → (A → Tx B) → Tx B
unfolding pure raise gets query or_raise raise_if attempt
◌>>=◌ m f db = let (r, db') = m db in continue r f db'

abbrev pub ◌>>◌ : {A B : Type 0} → Tx A → Tx B → Tx B
m >> k = m >>= λ _. k

abbrev pub settle : {A : Type 0} → Db → Result A × Db → Result A × Db
settle before (ok a, after) = (ok a, after)
settle before (err e, after) = (err e, before)

-- BEGIN IMMEDIATE, then COMMIT, or ROLLBACK and raise again.
unfoldable pub transaction : {A : Type 0} → Tx A → Tx A
transaction m db = settle db (m db)
