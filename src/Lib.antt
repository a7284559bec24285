-- ===== src/Lib.antt =====
-- WeatherFlow runs an agent's work as durable runs. A run moves through a status machine; what a tool
-- may do is an action, which the policy lets pass, sandboxes or sends to the user for approval; every
-- change is one SQLite transaction that also appends events to a ledger. This library models that
-- durable core, below core/src/weatherflow:
--
--   Database      storage/database.py: the tables as lists of rows, and transactions that commit what
--                 they wrote or roll it back. A statement of a repository is a function from the
--                 database to a result and a database (`Tx`).
--   Table         the SQL statements on one table: lookup, insert, guarded update, row count; ORDER BY
--                 with LIMIT (Order, and what it selects in Order/Laws and Order/Suffix).
--   Json          the JSON values of payloads and arguments, with Python's equality.
--   Outcome       the exceptions that the modelled code raises.
--   Events        events/: the ledger, its order and its bounded queries; Stream is the websocket
--                 /v1/events of api/app.py that sends them.
--   Sessions      sessions/: the statements that the creation of runs uses (Repository) and the other
--                 methods but for delete (Conversations).
--   Runs          runs/: the status machine (Status), the repository, and RunCoordinator, whose
--                 create_run is `create_run`, transition is `move` and transition_in is `move_in`.
--   Capabilities  capabilities/models.py: tool specifications.
--   Workspaces    workspaces/: workspaces and the paths that actions may use, and their repository.
--   Trust         trust/: actions, approvals, SupervisedPolicy (Policy), and ApprovalCoordinator, whose
--                 propose and authorize_sandboxed are in Coordinator and whose decide and expire are
--                 in Decisions.
--   Runtime       runtime/action_execution.py, ActionExecutionCoordinator, and validate_tool_output
--                 of runtime/validation.py (Validation); runtime/checkpoints.py and repository.py
--                 (Checkpoints); runtime/controls.py, the user's messages to a run (Controls);
--                 outcomes.py and record_observation of turn_committer.py (Observations).
--   Continuations continuations/: what a provider needs to resume a run, encrypted (Crypto) and stored
--                 (Repository).
--   Automations   automations/: schedules and their next occurrence (Schedule), the repository
--                 (Repository, and its claims and links in Claims) and AutomationService (Service).
--   Activity      activity/categories.py: the matcher of activity categories.
--   Integrity     the unique keys of events, sessions, runs, actions and approvals.
--   Protocol      the coordinators together: the calls, and what every sequence of calls keeps.
--   Examples      concrete inputs of the theorems.
--
-- How the parts interact. The coordinators read the database twice: once without a lock and again in
-- the transaction. In the model the first look is at a database `seen`, an argument of its own, so that
-- others may have written between the two. Each coordinator's transaction is composed of the
-- repositories' statements as in the source. A tool's executor is a parameter: it returns an outcome
-- and may itself change the database, as calls made meanwhile do. Protocol.Trace has these calls as
-- the steps of a relation, with those of the run's controls and any change of the tables beside the
-- core, such as those of automations and continuations.
--
-- Automations claim an occurrence, which stores a pending link, then submit a run and finish the link;
-- the submission is a parameter, an action on the database. Controls are queued while a run may take
-- them and appended to its checkpoint's transcript between two turns of the model.
--
-- Parameters. What `str(ULID())` and `datetime.now(UTC)` return is a `Stamp` that the caller gives, so
-- a new id may clash with an old one. The JSON Schema library is a record of two tests, and so are
-- regular expressions. A time zone is a pair of functions between instants and local times. AES-GCM,
-- SHA-256, `str.strip` and the JSON text of a value are functions too. Paths in Workspaces are already
-- resolved. Numbers are natural numbers: times in microseconds, costs in micro-dollars, and versions,
-- which Python does not bound either.
--
-- Bounds and fuel. The ledger's queries have the source's limits, 100 by default and 1000 at most. The
-- decimal form of a number n is computed with fuel n + 1, which suffices since each digit divides it by
-- ten. The loop of next_after over eight days has the source's bound, and the websocket's rounds are a
-- list of the ledgers that they read. All other functions are structurally recursive.
--
-- Not modelled: the encoding of rows, SQLite itself beyond the statements used, cancellation between
-- the statements of a transaction (it rolls back), rows whose JSON cannot be decoded, the deletion of
-- sessions, the agent loop, and the services around the core, such as connectors, model providers,
-- MCP, extensions, the API and the desktop application.
mod Prelude
mod Table
mod Json
mod Outcome
pub mod Events
pub mod Sessions
pub mod Runs
pub mod Capabilities
pub mod Workspaces
pub mod Trust
pub mod Database
pub mod Integrity
pub mod Runtime
pub mod Protocol
pub mod Activity
pub mod Automations
pub mod Continuations
pub mod Examples
