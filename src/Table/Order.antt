-- ===== src/Table/Order.antt =====
-- ORDER BY: the rows by an order, and of rows that it does not tell apart the later first.
pub mod Laws
pub mod Suffix
use weatherflow.Prelude.{Bool, true, false, List, [], ◌∷◌, ◌≡◌, All, if◌then◌else◌}

module _ {ℓ} {V : Type ℓ} (before : V → V → Bool) where
  unfoldable pub insert_by : V → List V → List V
  insert_by v [] = v ∷ []
  insert_by v (w ∷ rows) = if before v w then v ∷ w ∷ rows else w ∷ insert_by v rows

  unfoldable pub order_by : List V → List V
  unfolding insert_by
  order_by [] = []
  order_by (v ∷ rows) = insert_by v (order_by rows)

  -- A strict weak order.
  pub record IsOrder : Type ℓ where
    pub asym : (v w : V) → before v w ≡ true → before w v ≡ false
    pub chain : (u v w : V) → before v u ≡ false → before w v ≡ false → before w u ≡ false

  -- No row stands before an earlier one.
  abbrev pub Sorted : List V → Type ℓ
  Sorted [] = Unit
  Sorted (v ∷ rows) = All (λ w. before w v ≡ false) rows × Sorted rows
