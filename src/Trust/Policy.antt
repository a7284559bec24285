-- ===== src/Trust/Policy.antt =====
-- core/src/weatherflow/trust/policy.py; the texts of the reasons are constructors.
use weatherflow.Prelude.{String, Bool, true, false, ◌||◌, List, [], ◌∷◌, ◌==◌, if◌then◌else◌}
use weatherflow.Table.{filter}
use weatherflow.Capabilities.{
  ToolEffect, observe, workspace_write, execute, network_read, external_write, install, destructive,
  sensitive, ToolHealth, unavailable, ToolSpec,
}
use weatherflow.Workspaces.{Workspace}

pub data DecisionKind : Type 0 where
  allow sandbox approve deny hide : DecisionKind

pub data Reason : Type 0 where
  tool_unavailable scopes_not_granted : Reason
  supervised : ToolEffect → Reason

pub record PolicyDecision : Type 0 where
  pub kind : DecisionKind
  pub reason : Reason
  pub missing_scopes : List String

unfoldable pub effect_decisions : ToolEffect → DecisionKind
effect_decisions observe = allow
effect_decisions network_read = allow
effect_decisions workspace_write = sandbox
effect_decisions execute = sandbox
effect_decisions external_write = approve
effect_decisions install = approve
effect_decisions destructive = approve
effect_decisions sensitive = approve

abbrev pub contains : List String → String → Bool
contains [] x = false
contains (y ∷ ys) x = (y == x) || contains ys x

-- `required - granted`
unfoldable pub missing_from : List String → List String → List String
missing_from [] granted = []
missing_from (s ∷ required) granted =
    let rest = missing_from required granted in if contains granted s then rest else s ∷ rest

abbrev pub is_unavailable : ToolHealth → Bool
is_unavailable unavailable = true
is_unavailable _ = false

unfoldable pub scoped_decision : ToolEffect → List String → PolicyDecision
unfolding effect_decisions
scoped_decision effect [] = record {
  kind = effect_decisions effect;
  reason = supervised effect;
  missing_scopes = [];
}
scoped_decision effect (s ∷ missing) = record {
  kind = deny;
  reason = scopes_not_granted;
  missing_scopes = s ∷ missing;
}

unfoldable pub evaluate : ToolSpec → Workspace → PolicyDecision
unfolding scoped_decision
evaluate tool workspace =
    if is_unavailable tool.health
    then record { kind = hide; reason = tool_unavailable; missing_scopes = [] }
    else scoped_decision tool.effect (missing_from tool.required_scopes workspace.granted_scopes)

abbrev pub is_visible : DecisionKind → Bool
is_visible deny = false
is_visible hide = false
is_visible _ = true

unfoldable pub visible : List ToolSpec → Workspace → List ToolSpec
unfolding evaluate
visible tools workspace = filter (λ tool. is_visible (evaluate tool workspace).kind) tools
