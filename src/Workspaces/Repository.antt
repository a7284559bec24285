-- ===== src/Workspaces/Repository.antt =====
-- `WorkspaceRepository` of core/src/weatherflow/workspaces/repository.py. A workspace is its `config`.
use weatherflow.Prelude.{
  ℕ, ◌+◌, String, Bool, not, ◌&&◌, ◌||◌, Option, List, ◌==◌, ◌=?◌, ltb, if◌then◌else◌, is_some,
  text_lt,
}
use weatherflow.Outcome.{ok, err, duplicate_workspace, workspace_version_conflict}
use weatherflow.Table.{rowcount, update_where, lookup, insert}
use weatherflow.Table.Order.{order_by}
use weatherflow.Database.{Db, Tx, raise_if, ◌>>=◌, ◌>>◌, transaction}
use weatherflow.Workspaces.{Workspace, workspace_key}

unfoldable pub create_in : Workspace → Tx (Unit {0})
create_in workspace db =
    if is_some (lookup workspace_key workspace.id db.workspaces)
    then (err duplicate_workspace, db)
    else (ok tt, record db { workspaces = insert workspace db.workspaces })

unfoldable pub create : Workspace → Tx (Unit {0})
create workspace = transaction (create_in workspace)

unfoldable pub get_in : String → Db → Option Workspace
get_in workspace_id db = lookup workspace_key workspace_id db.workspaces

-- ORDER BY created_at, id
unfoldable pub older_workspace : Workspace → Workspace → Bool
older_workspace a b =
    ltb a.created_at b.created_at || ((a.created_at =? b.created_at) && text_lt a.id b.id)

unfoldable pub list_all : Db → List Workspace
unfolding older_workspace
list_all db = order_by older_workspace db.workspaces

-- The row that is written; its id is the workspace's.
unfoldable pub overwritten : Workspace → Workspace → Workspace
overwritten workspace row = record workspace { id = row.id }

-- UPDATE workspaces SET config, version, updated_at WHERE id = ? AND version = ?
unfoldable pub update_workspace : Workspace → ℕ → Tx ℕ
update_workspace workspace expected_version db =
    let selects = λ (w : Workspace). (w.id == workspace.id) && (w.version =? expected_version) in
    (
      ok (rowcount selects db.workspaces),
      record db { workspaces = update_where selects (overwritten workspace) db.workspaces },
    )

unfoldable pub update_in : Workspace → ℕ → Tx (Unit {0})
unfolding update_workspace overwritten
update_in workspace expected_version = do
  raise_if (not (workspace.version =? expected_version + 1)) workspace_version_conflict
  rows ← update_workspace workspace expected_version
  raise_if (not (rows =? 1)) workspace_version_conflict
