-- ===== src/Trust/ActionStatus.antt =====
-- `ActionStatus` and `ACTION_TRANSITIONS` of core/src/weatherflow/trust/models.py
use weatherflow.Prelude.{ℕ, String, Bool, false, ◌||◌, List, [], ◌∷◌, ◌=?◌}

pub data ActionStatus : Type 0 where
  proposed approved denied executing succeeded failed needs_review cancelled : ActionStatus

abbrev action_rank : ActionStatus → ℕ
action_rank proposed = 0
action_rank approved = 1
action_rank denied = 2
action_rank executing = 3
action_rank succeeded = 4
action_rank failed = 5
action_rank needs_review = 6
action_rank cancelled = 7

abbrev pub action_status_eq : ActionStatus → ActionStatus → Bool
action_status_eq a b = action_rank a =? action_rank b

abbrev action_member : ActionStatus → List ActionStatus → Bool
action_member s [] = false
action_member s (t ∷ ts) = action_status_eq s t || action_member s ts

unfoldable pub action_transitions : ActionStatus → List ActionStatus
action_transitions proposed = approved ∷ denied ∷ cancelled ∷ []
action_transitions approved = executing ∷ []
action_transitions denied = []
action_transitions executing = succeeded ∷ failed ∷ needs_review ∷ []
action_transitions succeeded = needs_review ∷ []
action_transitions failed = []
action_transitions needs_review = []
action_transitions cancelled = []

unfoldable pub action_can_transition_to : ActionStatus → ActionStatus → Bool
unfolding action_transitions
action_can_transition_to current target = action_member target (action_transitions current)

unfoldable pub action_status_value : ActionStatus → String
action_status_value proposed = "proposed"
action_status_value approved = "approved"
action_status_value denied = "denied"
action_status_value executing = "executing"
action_status_value succeeded = "succeeded"
action_status_value failed = "failed"
action_status_value needs_review = "needs_review"
action_status_value cancelled = "cancelled"
