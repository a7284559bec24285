-- ===== src/Table/Order/Laws.antt =====
-- What ORDER BY with a LIMIT selects.
use mathlib.Core.List.{Memᴰ}
use mathlib.Core.List.Memᴰ
use weatherflow.Prelude.{
  String, is_some, eq_refl, ℕ, zero, suc, ◌≤◌, Bool, true, false, List, [], ◌∷◌, ◌≡◌, ◌⊎◌, inl, inr,
  refl, sym, ap, ◌∙◌, subst, All, arith, take, length, Bool-cases,
}
use weatherflow.Table.{filter, lookup, insert}
use weatherflow.Table.Order.{insert_by, order_by, IsOrder, Sorted}

module _ {ℓ} {V : Type ℓ} where
  pub All-map : (P Q : V → Type 0) (rows : List V) → ((v : V) → P v → Q v) → All P rows → All Q rows
  All-map P Q [] f h = tt
  All-map P Q (v ∷ rows) f (h, k) = (f v h, All-map P Q rows f k)

  pub All-filter : (p : V → Bool) (rows : List V) → All (λ v. p v ≡ true) (filter p rows)
  unfolding filter
  All-filter p [] = tt
  All-filter p (v ∷ rows) = ground (arith, All-filter p rows)

  pub filter-All :
      (P : V → Type 0) (p : V → Bool) (rows : List V) → All P rows → All P (filter p rows)
  unfolding filter
  filter-All P p [] h = tt
  filter-All P p (v ∷ rows) (h, k) = elim (Bool-cases (p v)) [
    | inl kept ↦ rw kept (h, filter-All P p rows k)
    | inr left ↦ rw left (filter-All P p rows k)
  ]

  pub All-take : (P : V → Type 0) (n : ℕ) (rows : List V) → All P rows → All P (take n rows)
  All-take P zero rows h = tt
  All-take P (suc n) [] h = tt
  All-take P (suc n) (v ∷ rows) (h, k) = (h, All-take P n rows k)

  pub All-Mem : (P : V → Type 0) (v : V) (rows : List V) → All P rows → Memᴰ v rows → P v
  All-Mem P v [] h m = elim m [ ]
  All-Mem P v (w ∷ rows) (h, k) (Memᴰ.head e) = subst P (sym e) h
  All-Mem P v (w ∷ rows) (h, k) (Memᴰ.tail m) = All-Mem P v rows k m

  pub All-tabulate : {P : V → Type 0} (rows : List V) → ((v : V) → Memᴰ v rows → P v) → All P rows
  All-tabulate [] h = tt
  All-tabulate (v ∷ rows) h = (h v (Memᴰ.head refl), All-tabulate rows (λ w m. h w (Memᴰ.tail m)))

  pub Mem-insert : (v : V) (rows : List V) → Memᴰ v (insert v rows)
  Mem-insert v [] = Memᴰ.head refl
  Mem-insert v (w ∷ rows) = Memᴰ.tail (Mem-insert v rows)

  pub Mem-lookup :
      (key : V → String) (v : V) (rows : List V)
      → Memᴰ v rows
      → is_some (lookup key (key v) rows) ≡ true
  unfolding lookup
  Mem-lookup key v [] m = elim m [ ]
  Mem-lookup key v (w ∷ rows) (Memᴰ.head e) = ground (arith, ap key e, eq_refl (key w))
  Mem-lookup key v (w ∷ rows) (Memᴰ.tail m) = ground (arith, Mem-lookup key v rows m)

  pub length-take : (n : ℕ) (rows : List V) → length (take n rows) ≤ n
  length-take zero rows = omega arith
  length-take (suc n) [] = omega arith
  length-take (suc n) (v ∷ rows) = omega (arith, length-take n rows)

  pub Mem-filter :
      (p : V → Bool) (v : V) (rows : List V) → Memᴰ v rows → p v ≡ true → Memᴰ v (filter p rows)
  unfolding filter
  Mem-filter p v [] m h = elim m [ ]
  Mem-filter p v (w ∷ rows) (Memᴰ.head e) h = rw (sym (ap p e) ∙ h) (Memᴰ.head e)
  Mem-filter p v (w ∷ rows) (Memᴰ.tail m) h = elim (Bool-cases (p w)) [
    | inl kept ↦ rw kept (Memᴰ.tail (Mem-filter p v rows m h))
    | inr left ↦ rw left (Mem-filter p v rows m h)
  ]

module _ {ℓ} {V : Type ℓ} (before : V → V → Bool) where
  All-insert_by :
      (P : V → Type 0) (v : V) (rows : List V) → P v → All P rows → All P (insert_by before v rows)
  unfolding insert_by
  All-insert_by P v [] h k = (h, tt)
  All-insert_by P v (w ∷ rows) h k = elim (Bool-cases (before v w)) [
    | inl first ↦ rw first (h, k)
    | inr later ↦ rw later (k.0, All-insert_by P v rows h k.1)
  ]

  pub All-order_by : (P : V → Type 0) (rows : List V) → All P rows → All P (order_by before rows)
  unfolding order_by
  All-order_by P [] h = tt
  All-order_by P (v ∷ rows) (h, k) =
      All-insert_by P v (order_by before rows) h (All-order_by P rows k)

  All-chain :
      (order : IsOrder before) (v w : V) (rows : List V)
      → before w v ≡ false
      → All (λ u. before u w ≡ false) rows
      → All (λ u. before u v ≡ false) rows
  All-chain order v w [] h k = tt
  All-chain order v w (u ∷ rows) h (k, l) = (order.chain v w u h k, All-chain order v w rows h l)

  Sorted-insert_by :
      (order : IsOrder before) (v : V) (rows : List V)
      → Sorted before rows
      → Sorted before (insert_by before v rows)
  unfolding insert_by
  Sorted-insert_by order v [] h = (tt, tt)
  Sorted-insert_by order v (w ∷ rows) (h, k) = elim (Bool-cases (before v w)) [
    | inl first ↦
        rw first
          (let after = order.asym v w first in ((after, All-chain order v w rows after h), (h, k)))
    | inr later ↦
        rw later
          (All-insert_by (λ u. before u w ≡ false) v rows later h, Sorted-insert_by order v rows k)
  ]

  pub Sorted-order_by :
      (order : IsOrder before) (rows : List V) → Sorted before (order_by before rows)
  unfolding order_by
  Sorted-order_by order [] = tt
  Sorted-order_by order (v ∷ rows) =
      Sorted-insert_by order v (order_by before rows) (Sorted-order_by order rows)

  Mem-insert_by_self : (v : V) (rows : List V) → Memᴰ v (insert_by before v rows)
  unfolding insert_by
  Mem-insert_by_self v [] = Memᴰ.head refl
  Mem-insert_by_self v (w ∷ rows) = elim (Bool-cases (before v w)) [
    | inl first ↦ rw first (Memᴰ.head refl)
    | inr later ↦ rw later (Memᴰ.tail (Mem-insert_by_self v rows))
  ]

  Mem-insert_by : (u v : V) (rows : List V) → Memᴰ u rows → Memᴰ u (insert_by before v rows)
  unfolding insert_by
  Mem-insert_by u v [] m = elim m [ ]
  Mem-insert_by u v (w ∷ rows) (Memᴰ.head e) = elim (Bool-cases (before v w)) [
    | inl first ↦ rw first (Memᴰ.tail (Memᴰ.head e))
    | inr later ↦ rw later (Memᴰ.head e)
  ]
  Mem-insert_by u v (w ∷ rows) (Memᴰ.tail m) = elim (Bool-cases (before v w)) [
    | inl first ↦ rw first (Memᴰ.tail (Memᴰ.tail m))
    | inr later ↦ rw later (Memᴰ.tail (Mem-insert_by u v rows m))
  ]

  pub Mem-order_by : (u : V) (rows : List V) → Memᴰ u rows → Memᴰ u (order_by before rows)
  unfolding order_by
  Mem-order_by u [] m = m
  Mem-order_by u (v ∷ rows) (Memᴰ.head e) =
      Memᴰ.cast e (Mem-insert_by_self v (order_by before rows))
  Mem-order_by u (v ∷ rows) (Memᴰ.tail m) =
      Mem-insert_by u v (order_by before rows) (Mem-order_by u rows m)

  -- A row of a sorted table is among the first `n`, or there are `n` that it does not precede.
  pub Mem-take :
      (n : ℕ) (v : V) (rows : List V)
      → Sorted before rows
      → Memᴰ v rows
      → Memᴰ v (take n rows)
        ⊎ ((length (take n rows) ≡ n) × All (λ w. before v w ≡ false) (take n rows))
  Mem-take zero v rows h m = inr (refl, tt)
  Mem-take (suc n) v [] h m = elim m [ ]
  Mem-take (suc n) v (w ∷ rows) h (Memᴰ.head e) = inl (Memᴰ.head e)
  Mem-take (suc n) v (w ∷ rows) (h, k) (Memᴰ.tail m) = elim (Mem-take n v rows k m) [
    | inl taken ↦ inl (Memᴰ.tail taken)
    | inr (full, later) ↦ inr (ap suc full, (All-Mem (λ u. before u w ≡ false) v rows h m, later))
  ]

  pub Sorted-take : (n : ℕ) (rows : List V) → Sorted before rows → Sorted before (take n rows)
  Sorted-take zero rows h = tt
  Sorted-take (suc n) [] h = tt
  Sorted-take (suc n) (v ∷ rows) (h, k) =
      (All-take (λ w. before w v ≡ false) n rows h, Sorted-take n rows k)

  -- `SELECT ... WHERE p ORDER BY ... LIMIT n`: at most `n` rows, each with `p`, in the order; a row
  -- with `p` that is not among them precedes none of them, and then there are `n`.
  pub record IsSelection (p : V → Bool) (n : ℕ) (rows chosen : List V) : Type ℓ where
    pub bounded : length chosen ≤ n
    pub matching : All (λ v. p v ≡ true) chosen
    pub sorted : Sorted before chosen
    pub earliest :
        (v : V)
        → Memᴰ v rows
        → p v ≡ true
        → Memᴰ v chosen ⊎ ((length chosen ≡ n) × All (λ w. before v w ≡ false) chosen)

  pub select-IsSelection :
      (order : IsOrder before) (p : V → Bool) (n : ℕ) (rows : List V)
      → IsSelection p n rows (take n (order_by before (filter p rows)))
  select-IsSelection order p n rows =
      let sorted = Sorted-order_by order (filter p rows) in
      record {
        bounded = length-take n _;
        matching = All-take _ n _ (All-order_by _ (filter p rows) (All-filter p rows));
        sorted = Sorted-take n _ sorted;
        earliest = λ v m h.
            Mem-take n v _ sorted (Mem-order_by v (filter p rows) (Mem-filter p v rows m h));
      }
