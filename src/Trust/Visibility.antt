-- ===== src/Trust/Visibility.antt =====
-- Which tools the policy shows: those that are available and whose scopes are all granted.
use weatherflow.Prelude.{
  String, ◌≡◌, refl, Bool, true, false, not, ◌&&◌, List, [], ◌∷◌, arith, ◌≢◌, inl, inr, Bool-cases,
}
use weatherflow.Table.{filter}
use weatherflow.Capabilities.{ToolEffect, ToolSpec}
use weatherflow.Workspaces.{Workspace}
use weatherflow.Trust.Policy.{
  effect_decisions, contains, missing_from, is_unavailable, is_visible, scoped_decision, evaluate,
  visible,
}

-- Every required scope is granted.
unfoldable pub all_granted : List String → List String → Bool
all_granted [] granted = true
all_granted (s ∷ required) granted = contains granted s && all_granted required granted

missing_from-all_granted :
    (required granted : List String)
    → all_granted required granted ≡ true
    → missing_from required granted ≡ []
unfolding missing_from all_granted
missing_from-all_granted [] granted h = refl
missing_from-all_granted (s ∷ required) granted h =
    ground (arith, missing_from-all_granted required granted)

missing_from-refused :
    (required granted : List String)
    → all_granted required granted ≡ false
    → missing_from required granted ≢ []
unfolding missing_from all_granted
missing_from-refused [] granted h e = ground arith
missing_from-refused (s ∷ required) granted h e =
    ground (arith, missing_from-refused required granted)

-- The tool is available and every scope that it requires is granted.
unfoldable pub is_shown : Workspace → ToolSpec → Bool
is_shown workspace tool =
    not (is_unavailable tool.health) && all_granted tool.required_scopes workspace.granted_scopes

scoped-is_visible :
    (effect : ToolEffect) (missing : List String) (granted : Bool)
    → (granted ≡ true → missing ≡ [])
    → (granted ≡ false → missing ≢ [])
    → is_visible (scoped_decision effect missing).kind ≡ granted
unfolding scoped_decision effect_decisions
scoped-is_visible effect [] true all some_missing = ground arith
scoped-is_visible effect [] false all some_missing = absurd (some_missing refl refl)
scoped-is_visible effect (s ∷ missing) true all some_missing = ground (arith, all refl)
scoped-is_visible effect (s ∷ missing) false all some_missing = refl

evaluate-is_shown :
    (workspace : Workspace) (tool : ToolSpec)
    → is_visible (evaluate tool workspace).kind ≡ is_shown workspace tool
unfolding evaluate is_shown
evaluate-is_shown workspace tool = elim (Bool-cases (is_unavailable tool.health)) [
  | inl gone ↦ rw gone refl
  | inr there ↦ rw there (
      scoped-is_visible tool.effect (missing_from tool.required_scopes workspace.granted_scopes)
        (all_granted tool.required_scopes workspace.granted_scopes)
        (missing_from-all_granted tool.required_scopes workspace.granted_scopes)
        (missing_from-refused tool.required_scopes workspace.granted_scopes))
]

-- The policy shows, in their order, the tools that are available and whose required scopes are all
-- granted in the workspace.
pub visible-is_shown :
    (tools : List ToolSpec) (workspace : Workspace)
    → visible tools workspace ≡ filter (is_shown workspace) tools
unfolding visible filter
visible-is_shown [] workspace = refl
visible-is_shown (tool ∷ tools) workspace =
    rw (evaluate-is_shown workspace tool, visible-is_shown tools workspace) refl
