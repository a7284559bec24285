-- ===== src/Table/Order/Suffix.antt =====
-- `WHERE key > cursor ORDER BY key`: the rows after the cursor's, in the order.
use weatherflow.Prelude.{
  ℕ, zero, suc, take, drop, get_last?, is_some, String, Bool, true, false, List, [], ◌∷◌, none,
  some, ◌≡◌, refl, ◌∙◌, subst, inl, inr, All, arith, eq_refl, eq_iff, ◌==◌, if◌then◌else◌,
  Bool-cases,
}
use weatherflow.Table.{filter, lookup, Unique}
use weatherflow.Table.Order.{insert_by, order_by, IsOrder, Sorted}
use weatherflow.Table.Order.Laws.{Sorted-order_by}

module _ {ℓ} {V : Type ℓ} (before : V → V → Bool) where
  filter-none : (p : V → Bool) (rows : List V) → All (λ v. p v ≡ false) rows → filter p rows ≡ []
  unfolding filter
  filter-none p [] h = refl
  filter-none p (v ∷ rows) (h, k) = rw h (filter-none p rows k)

  -- A row before the head stands at the head.
  insert_by-first :
      (order : IsOrder before) (v w : V) (p : V → Bool) (rows : List V)
      → before v w ≡ true
      → All (λ u. before u w ≡ false) rows
      → insert_by before v (filter p rows) ≡ v ∷ filter p rows
  unfolding insert_by filter
  insert_by-first order v w p [] h k = refl
  insert_by-first order v w p (u ∷ rows) h (k, l) = elim (Bool-cases (p u)) [
    | inr left ↦ rw left (insert_by-first order v w p rows h l)
    | inl kept ↦ elim (Bool-cases (before v u)) [
      | inl first ↦ rw (kept, first) refl
      | inr later ↦ absurd (ground (arith, order.chain w u v k later))
    ]
  ]

  filter-insert_by :
      (order : IsOrder before) (p : V → Bool) (v : V) (rows : List V)
      → Sorted before rows
      → filter p (insert_by before v rows)
        ≡ (if p v then insert_by before v (filter p rows) else filter p rows)
  unfolding insert_by filter
  filter-insert_by order p v [] h = refl
  filter-insert_by order p v (w ∷ rows) (h, k) =
      ground (arith, filter-insert_by order p v rows k, insert_by-first order v w p rows, h)

  pub filter-order_by :
      (order : IsOrder before) (p : V → Bool) (rows : List V)
      → order_by before (filter p rows) ≡ filter p (order_by before rows)
  unfolding order_by filter
  filter-order_by order p [] = refl
  filter-order_by order p (v ∷ rows) = ground (
    arith,
    filter-insert_by order p v (order_by before rows) (Sorted-order_by before order rows),
    filter-order_by order p rows,
  )

module _ {ℓ} {V : Type ℓ} (key : V → String) where
  -- The rows that follow the one of a key.
  unfoldable pub after : String → List V → List V
  after k [] = []
  after k (v ∷ rows) = if key v == k then rows else after k rows

module _ {ℓ} {V : Type ℓ} (key : V → String) (before : V → V → Bool) where
  lookup-insert_by :
      (k : String) (v : V) (rows : List V)
      → lookup key (key v) rows ≡ none
      → lookup key k (insert_by before v rows) ≡ (if key v == k then some v else lookup key k rows)
  unfolding insert_by lookup
  lookup-insert_by k v [] h = refl
  lookup-insert_by k v (w ∷ rows) h = ground (
    arith,
    lookup-insert_by k v rows,
    eq_iff (key w) (key v),
    eq_iff (key w) k,
    eq_iff (key v) k,
    eq_refl (key v),
  )

  Unique-insert_by :
      (v : V) (rows : List V)
      → lookup key (key v) rows ≡ none
      → Unique key rows
      → Unique key (insert_by before v rows)
  unfolding insert_by lookup
  Unique-insert_by v [] h u = (h, u)
  Unique-insert_by v (w ∷ rows) h u = ground (
    arith,
    Unique-insert_by v rows,
    lookup-insert_by (key w) v rows,
    eq_iff (key w) (key v),
    eq_iff (key v) (key w),
  )

  pub lookup-order_by :
      (k : String) (rows : List V)
      → Unique key rows
      → lookup key k (order_by before rows) ≡ lookup key k rows
  unfolding order_by lookup
  lookup-order_by k [] u = refl
  lookup-order_by k (v ∷ rows) u = ground (
    arith,
    lookup-insert_by k v (order_by before rows),
    lookup-order_by k rows,
    lookup-order_by (key v) rows,
  )

  pub Unique-order_by : (rows : List V) → Unique key rows → Unique key (order_by before rows)
  unfolding order_by
  Unique-order_by [] u = u
  Unique-order_by (v ∷ rows) u = ground (
    arith,
    Unique-insert_by v (order_by before rows),
    Unique-order_by rows,
    lookup-order_by (key v) rows,
  )

  module _ (order : IsOrder before)
      (total : (v w : V) → before v w ≡ false → before w v ≡ false → key v ≡ key w) where
    filter-later :
        (v : V) (rows : List V)
        → lookup key (key v) rows ≡ none
        → All (λ w. before w v ≡ false) rows
        → filter (before v) rows ≡ rows
    unfolding filter lookup
    filter-later v [] h k = refl
    filter-later v (w ∷ rows) h (k, l) =
        ground (arith, filter-later v rows, total v w, eq_refl (key w), k, l)

    lookup-All :
        (P : V → Type 0) (k : String) (v : V) (rows : List V)
        → lookup key k rows ≡ some v
        → All P rows
        → P v
    unfolding lookup
    lookup-All P k v [] h a = cc
    lookup-All P k v (w ∷ rows) h (a, b) = elim (Bool-cases (key w == k)) [
      | inl same ↦ subst P (ground (arith, h, same)) a
      | inr other ↦ lookup-All P k v rows (ground (arith, h, other)) b
    ]

    filter-after :
        (k : String) (v : V) (rows : List V)
        → Sorted before rows
        → Unique key rows
        → lookup key k rows ≡ some v
        → filter (before v) rows ≡ after key k rows
    unfolding filter lookup after
    filter-after k v [] h u found = refl
    filter-after k v (w ∷ rows) (h, s) (n, u) found = elim (Bool-cases (key w == k)) [
      | inl same ↦
          ground
            (arith, same, found, filter-later w rows n h, order.asym w w, Bool-cases (before w w))
      | inr other ↦
          let rest : lookup key k rows ≡ some v = ground (arith, found, other) in
          ground (
            arith,
            other,
            filter-after k v rows s u rest,
            lookup-All (λ x. before x w ≡ false) k v rows rest h,
          )
    ]

    -- In a table with unique keys, the rows that stand after a given one are what follows it in the
    -- ordered table.
    pub order_by-after :
        (k : String) (v : V) (rows : List V)
        → Unique key rows
        → lookup key k rows ≡ some v
        → order_by before (filter (before v) rows) ≡ after key k (order_by before rows)
    order_by-after k v rows u found =
        filter-order_by before order (before v) rows
        ∙ filter-after k v (order_by before rows) (Sorted-order_by before order rows)
            (Unique-order_by rows u) (lookup-order_by k rows u ∙ found)

-- Reading on from the last row that was read.
module _ {ℓ} {V : Type ℓ} (key : V → String) where
  pub lookup-after :
      (k c : String) (rows : List V)
      → is_some (lookup key k (after key c rows)) ≡ true
      → is_some (lookup key k rows) ≡ true
  unfolding lookup after
  lookup-after k c [] h = h
  lookup-after k c (v ∷ rows) h = ground (arith, lookup-after k c rows)

  pub after-after :
      (k c : String) (rows : List V)
      → Unique key rows
      → is_some (lookup key k (after key c rows)) ≡ true
      → after key k rows ≡ after key k (after key c rows)
  unfolding lookup after
  after-after k c [] u h = refl
  after-after k c (v ∷ rows) u h =
      ground
        (arith, after-after k c rows, lookup-after k c rows, eq_iff (key v) k, eq_iff (key v) c)

  pub after-last :
      (n : ℕ) (rows : List V) (v : V)
      → Unique key rows
      → get_last? (take n rows) ≡ some v
      → (is_some (lookup key (key v) rows) ≡ true) × (after key (key v) rows ≡ drop n rows)
  unfolding lookup after
  after-last zero rows v u h = ground arith
  after-last (suc n) [] v u h = ground arith
  after-last (suc zero) (w ∷ rows) v u h = ground (arith, eq_refl (key w), h)
  after-last (suc (suc n)) (w ∷ []) v u h = ground (arith, eq_refl (key w), h)
  after-last (suc (suc n)) (w ∷ x ∷ rows) v u h =
      ground (arith, after-last (suc n) (x ∷ rows) v u.1 h, eq_iff (key w) (key v), u.0)

  pub Unique-after : (c : String) (rows : List V) → Unique key rows → Unique key (after key c rows)
  unfolding after
  Unique-after c [] u = u
  Unique-after c (v ∷ rows) u = ground (arith, Unique-after c rows)
