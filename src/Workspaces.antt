-- ===== src/Workspaces.antt =====
-- `Workspace` of core/src/weatherflow/workspaces/models.py. A resolved path is the list of its
-- parts below the root directory; `Path.resolve` is the file system's.
pub mod Nesting
pub mod Repository
pub mod Swap
use weatherflow.Prelude.{
  ℕ, String, Bool, true, false, ◌&&◌, ◌||◌, List, [], ◌∷◌, ◌==◌, if◌then◌else◌,
}
use weatherflow.Runs.Model.{RunBudget}

abbrev pub ResolvedPath : Type 0
ResolvedPath = List String

pub data NetworkPolicy : Type 0 where
  offline declared open_network : NetworkPolicy

pub record Workspace : Type 0 where
  pub id : String
  pub name : String
  pub action_roots : List ResolvedPath
  pub internal_root : ResolvedPath
  pub artifact_root : ResolvedPath
  pub granted_scopes : List String
  pub network_policy : NetworkPolicy
  pub installed_packs : List String
  pub installed_skills : List String
  pub agent_definitions : List String
  pub extension_refs : List String
  pub default_budget : RunBudget
  pub policy_profile : String
  pub version : ℕ
  pub created_at : ℕ
  pub updated_at : ℕ

abbrev pub workspace_key : Workspace → String
workspace_key w = w.id

-- `candidate == root or candidate.is_relative_to(root)`: the root's parts are a prefix.
unfoldable pub is_within : ResolvedPath → ResolvedPath → Bool
is_within candidate [] = true
is_within [] (r ∷ root) = false
is_within (c ∷ candidate) (r ∷ root) = (c == r) && is_within candidate root

unfoldable pub any_within : ResolvedPath → List ResolvedPath → Bool
unfolding is_within
any_within candidate [] = false
any_within candidate (root ∷ roots) = is_within candidate root || any_within candidate roots

unfoldable pub allows_action_path : Workspace → ResolvedPath → Bool
unfolding any_within
allows_action_path workspace candidate =
    if is_within candidate workspace.internal_root
    then false
    else any_within candidate workspace.action_roots
