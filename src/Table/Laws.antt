-- ===== src/Table/Laws.antt =====
-- What the statements on a table with a primary key do.
use weatherflow.Prelude.{
  String, ◌≡◌, refl, Bool, ◌&&◌, none, some, List, [], ◌∷◌, inl, inr, arith, ◌==◌, eq_iff, eq_refl,
  if◌then◌else◌, is_some, inl, inr, Option-cases,
}
use weatherflow.Table.{rowcount, update_where, lookup, Unique, insert}
use mathlib.Core.Option

module _ {ℓ} {V : Type ℓ} (key : V → String) where
  -- An update that leaves the key alone changes the row of a key where it selects it.
  pub lookup-update_any :
      (j : String) (p : V → Bool) (f : V → V) (rows : List V)
      → ((v : V) → key (f v) ≡ key v)
      → lookup key j (update_where p f rows)
        ≡ Option.map (λ v. if p v then f v else v) (lookup key j rows)
  unfolding lookup update_where
  lookup-update_any j p f [] keep = refl
  lookup-update_any j p f (v ∷ rows) keep =
      ground (arith, keep v, lookup-update_any j p f rows keep)

  key-lookup :
      (j k : String) (rows : List V) (v : V) → lookup key j rows ≡ some v → (key v == k) ≡ (j == k)
  unfolding lookup
  key-lookup j k [] v h = cc
  key-lookup j k (w ∷ rows) v h =
      ground (arith, eq_iff (key w) j, eq_iff j k, eq_iff (key w) k, key-lookup j k rows v)

  -- So does an update of one row by that key, under a further guard.
  pub lookup-update_where :
      (k j : String) (p : V → Bool) (f : V → V) (rows : List V)
      → ((v : V) → key (f v) ≡ key v)
      → lookup key j (update_where (λ v. (key v == k) && p v) f rows) ≡ (
          if k == j
          then Option.map (λ v. if p v then f v else v) (lookup key j rows)
          else lookup key j rows)
  lookup-update_where k j p f rows keep = elim (Option-cases (lookup key j rows)) [
    | inl absent ↦
        ground (arith, absent, lookup-update_any j (λ v. (key v == k) && p v) f rows keep)
    | inr (v, found) ↦ ground (
      arith,
      found,
      key-lookup j k rows v found,
      eq_iff j k,
      eq_iff k j,
      lookup-update_any j (λ v. (key v == k) && p v) f rows keep,
    )
  ]

  -- Without a row of that key no row is selected.
  rowcount-none :
      (k : String) (p : V → Bool) (rows : List V)
      → lookup key k rows ≡ none
      → rowcount (λ v. (key v == k) && p v) rows ≡ 0
  unfolding lookup rowcount
  rowcount-none k p [] h = refl
  rowcount-none k p (v ∷ rows) h = ground (arith, rowcount-none k p rows)

  -- In a table with unique keys a guarded update of one key selects its row, if the guard holds.
  pub rowcount-Unique :
      (k : String) (p : V → Bool) (rows : List V) (v : V)
      → Unique key rows
      → lookup key k rows ≡ some v
      → rowcount (λ w. (key w == k) && p w) rows ≡ (if p v then 1 else 0)
  unfolding lookup rowcount
  rowcount-Unique k p [] v u h = ground arith
  rowcount-Unique k p (w ∷ rows) v u h =
      ground (arith, eq_iff (key w) k, rowcount-none k p rows, rowcount-Unique k p rows v)

  pub lookup-insert :
      (j : String) (v : V) (rows : List V)
      → lookup key j (insert v rows) ≡ (
          if is_some (lookup key j rows)
          then lookup key j rows
          else if key v == j
          then some v
          else none)
  unfolding lookup
  lookup-insert j v [] = ground arith
  lookup-insert j v (w ∷ rows) = ground (arith, lookup-insert j v rows)

  pub Unique-insert :
      (v : V) (rows : List V)
      → Unique key rows
      → lookup key (key v) rows ≡ none
      → Unique key (insert v rows)
  unfolding lookup
  Unique-insert v [] u h = ground arith
  Unique-insert v (w ∷ rows) u h = ground (
    arith,
    lookup-insert (key w) v rows,
    eq_iff (key v) (key w),
    eq_iff (key w) (key v),
    Unique-insert v rows,
  )

  -- The update adds no key.
  pub lookup-update_none :
      (j : String) (p : V → Bool) (f : V → V) (rows : List V)
      → ((v : V) → key (f v) ≡ key v)
      → lookup key j rows ≡ none
      → lookup key j (update_where p f rows) ≡ none
  lookup-update_none j p f rows keep h = ground (arith, lookup-update_any j p f rows keep)

  pub Unique-update_where :
      (p : V → Bool) (f : V → V) (rows : List V)
      → ((v : V) → key (f v) ≡ key v)
      → Unique key rows
      → Unique key (update_where p f rows)
  unfolding update_where
  Unique-update_where p f [] keep u = u
  Unique-update_where p f (v ∷ rows) keep u = ground (
    arith,
    keep v,
    lookup-update_none (key v) p f rows keep,
    Unique-update_where p f rows keep u.1,
  )

  pub lookup-key : (k : String) (rows : List V) (v : V) → lookup key k rows ≡ some v → key v ≡ k
  unfolding lookup
  lookup-key k [] v h = cc
  lookup-key k (w ∷ rows) v h = ground (arith, eq_iff (key w) k, lookup-key k rows v)

-- A row that one key finds is the row of its other key.
pub lookup-other_key {ℓ} :
    {V : Type ℓ} (key other : V → String) (j : String) (rows : List V) (v : V)
    → Unique other rows
    → lookup key j rows ≡ some v
    → lookup other (other v) rows ≡ some v
unfolding lookup
lookup-other_key key other j [] v u h = cc
lookup-other_key key other j (w ∷ rows) v u h =
    ground
      (arith, eq_iff (other w) (other v), eq_refl (other v), lookup-other_key key other j rows v)
