-- ===== src/Runs/Status.antt =====
-- `RunStatus` and `TRANSITIONS` of core/src/weatherflow/runs/models.py
use weatherflow.Prelude.{ℕ, String, Bool, true, false, ◌||◌, List, [], ◌∷◌, ◌=?◌, if◌then◌else◌}
use weatherflow.Outcome.{Result, ok, err, invalid_transition}

pub data RunStatus : Type 0 where
  queued planning running waiting_approval waiting_user : RunStatus
  paused needs_review succeeded failed cancelled : RunStatus

unfoldable pub value : RunStatus → String
value queued = "queued"
value planning = "planning"
value running = "running"
value waiting_approval = "waiting_approval"
value waiting_user = "waiting_user"
value paused = "paused"
value needs_review = "needs_review"
value succeeded = "succeeded"
value failed = "failed"
value cancelled = "cancelled"

abbrev rank : RunStatus → ℕ
rank queued = 0
rank planning = 1
rank running = 2
rank waiting_approval = 3
rank waiting_user = 4
rank paused = 5
rank needs_review = 6
rank succeeded = 7
rank failed = 8
rank cancelled = 9

-- Identity of enum members.
abbrev pub status_eq : RunStatus → RunStatus → Bool
status_eq a b = rank a =? rank b

abbrev pub member : RunStatus → List RunStatus → Bool
member s [] = false
member s (t ∷ ts) = status_eq s t || member s ts

unfoldable pub transitions : RunStatus → List RunStatus
transitions queued = planning ∷ needs_review ∷ cancelled ∷ []
transitions planning = running ∷ waiting_user ∷ paused ∷ needs_review ∷ failed ∷ cancelled ∷ []
transitions running =
    waiting_approval ∷ waiting_user ∷ paused ∷ needs_review ∷ succeeded ∷ failed ∷ cancelled ∷ []
transitions waiting_approval = running ∷ paused ∷ cancelled ∷ []
transitions waiting_user = planning ∷ running ∷ cancelled ∷ []
transitions paused = planning ∷ running ∷ failed ∷ cancelled ∷ []
transitions needs_review = running ∷ failed ∷ cancelled ∷ []
transitions succeeded = []
transitions failed = []
transitions cancelled = []

unfoldable pub can_transition_to : RunStatus → RunStatus → Bool
unfolding transitions
can_transition_to current target = member target (transitions current)

unfoldable pub require_transition : RunStatus → RunStatus → Result (Unit {0})
require_transition current target =
    if can_transition_to current target then ok tt else err invalid_transition

pub data ToolMode : Type 0 where
  ask bypass : ToolMode

abbrev pub tool_mode_eq : ToolMode → ToolMode → Bool
tool_mode_eq ask ask = true
tool_mode_eq bypass bypass = true
tool_mode_eq _ _ = false

unfoldable pub tool_mode_value : ToolMode → String
tool_mode_value ask = "ask"
tool_mode_value bypass = "bypass"
