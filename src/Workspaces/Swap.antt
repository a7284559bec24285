-- ===== src/Workspaces/Swap.antt =====
-- What `WorkspaceRepository.update_in` of core/src/weatherflow/workspaces/repository.py comes to.
use weatherflow.Prelude.{ℕ, ◌+◌, ◌&&◌, some, ◌≡◌, refl, arith, ◌==◌, ◌=?◌, eq_refl}
use weatherflow.Outcome.{ok, err, workspace_version_conflict}
use weatherflow.Table.{update_where, Unique}
use weatherflow.Table.Laws.{rowcount-Unique, lookup-update_where, lookup-key, Unique-update_where}
use weatherflow.Database.{Db, ◌>>=◌}
use weatherflow.Workspaces.{Workspace, workspace_key}
use weatherflow.Workspaces.Repository.{get_in, overwritten, update_workspace, update_in}

-- A workspace that `update_in` has written from a version is stored as given, and the next write from
-- that version is refused.
pub update_in-once :
    (workspace other : Workspace) (v : ℕ) (db : Db) (w : Workspace)
    → Unique workspace_key db.workspaces
    → get_in workspace.id db ≡ some w
    → other.id ≡ workspace.id
    → (update_in workspace v db).0 ≡ ok tt
    → (w.version ≡ v)
      × (workspace.version ≡ v + 1)
      × (get_in workspace.id (update_in workspace v db).1 ≡ some workspace)
      × ((update_in other v (update_in workspace v db).1).0 ≡ err workspace_version_conflict)
unfolding ◌>>=◌ update_in update_workspace overwritten get_in
update_in-once workspace other v db w unique found same returned =
    let one =
      rowcount-Unique workspace_key workspace.id (λ r. r.version =? v) db.workspaces w unique
        found in
    let moved =
      lookup-update_where workspace_key workspace.id workspace.id (λ r. r.version =? v)
        (overwritten workspace) db.workspaces (λ r. refl) in
    let keep =
      Unique-update_where workspace_key (λ r. (r.id == workspace.id) && (r.version =? v))
        (overwritten workspace) db.workspaces (λ r. refl) unique in
    let after =
      update_where (λ (r : Workspace). (r.id == workspace.id) && (r.version =? v))
        (overwritten workspace) db.workspaces in
    let known = lookup-key workspace_key workspace.id db.workspaces w found in
    let again =
      rowcount-Unique workspace_key workspace.id (λ r. r.version =? v) after
        (overwritten workspace w) keep in
    ground (arith, one, moved, known, found, same, returned, again, eq_refl workspace.id)
