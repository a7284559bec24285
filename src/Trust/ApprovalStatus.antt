-- ===== src/Trust/ApprovalStatus.antt =====
-- `ApprovalStatus` and `APPROVAL_TRANSITIONS` of core/src/weatherflow/trust/models.py
use weatherflow.Prelude.{ℕ, String, Bool, false, ◌||◌, List, [], ◌∷◌, ◌=?◌}

pub data ApprovalStatus : Type 0 where
  pending approved denied expired cancelled : ApprovalStatus

abbrev approval_rank : ApprovalStatus → ℕ
approval_rank pending = 0
approval_rank approved = 1
approval_rank denied = 2
approval_rank expired = 3
approval_rank cancelled = 4

abbrev pub approval_status_eq : ApprovalStatus → ApprovalStatus → Bool
approval_status_eq a b = approval_rank a =? approval_rank b

abbrev approval_member : ApprovalStatus → List ApprovalStatus → Bool
approval_member s [] = false
approval_member s (t ∷ ts) = approval_status_eq s t || approval_member s ts

unfoldable pub approval_transitions : ApprovalStatus → List ApprovalStatus
approval_transitions pending = approved ∷ denied ∷ expired ∷ cancelled ∷ []
approval_transitions approved = []
approval_transitions denied = []
approval_transitions expired = []
approval_transitions cancelled = []

unfoldable pub approval_can_transition_to : ApprovalStatus → ApprovalStatus → Bool
unfolding approval_transitions
approval_can_transition_to current target = approval_member target (approval_transitions current)

unfoldable pub approval_status_value : ApprovalStatus → String
approval_status_value pending = "pending"
approval_status_value approved = "approved"
approval_status_value denied = "denied"
approval_status_value expired = "expired"
approval_status_value cancelled = "cancelled"
