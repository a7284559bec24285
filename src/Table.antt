-- ===== src/Table.antt =====
-- SQL tables as lists of rows in insertion order, and the statements the repositories execute.
pub mod Laws
pub mod Order
use weatherflow.Prelude.{
  ℕ, suc, String, Bool, Option, none, some, List, [], ◌∷◌, ◌++◌, ◌≡◌, ◌==◌, if◌then◌else◌,
}

module _ {ℓ} {V : Type ℓ} where
  -- SELECT * FROM t WHERE p
  unfoldable pub filter : (V → Bool) → List V → List V
  filter p [] = []
  filter p (v ∷ rows) = let rest = filter p rows in if p v then v ∷ rest else rest

  -- The number of rows that a statement's WHERE clause selects: `cursor.rowcount`.
  unfoldable pub rowcount : (V → Bool) → List V → ℕ
  rowcount p [] = 0
  rowcount p (v ∷ rows) = let rest = rowcount p rows in if p v then suc rest else rest

  -- UPDATE t SET f WHERE p
  unfoldable pub update_where : (V → Bool) → (V → V) → List V → List V
  update_where p f [] = []
  update_where p f (v ∷ rows) = (if p v then f v else v) ∷ update_where p f rows

  -- INSERT INTO t VALUES v
  abbrev pub insert : V → List V → List V
  insert v rows = rows ++ v ∷ []

-- SELECT * FROM t WHERE key = k, for a column that is PRIMARY KEY or UNIQUE.
module _ {ℓ} {V : Type ℓ} (key : V → String) where
  unfoldable pub lookup : String → List V → Option V
  lookup k [] = none
  lookup k (v ∷ rows) = if key v == k then some v else lookup k rows

  -- No two rows have the same key: the column is PRIMARY KEY or UNIQUE.
  abbrev pub Unique : List V → Type ℓ
  Unique [] = Unit
  Unique (v ∷ rows) = (lookup (key v) rows ≡ none) × Unique rows
