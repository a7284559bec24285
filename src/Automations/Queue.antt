-- ===== src/Automations/Queue.antt =====
-- The order in which `AutomationService.tick` takes pending links and due automations.
use mathlib.Core.List.{Memᴰ}
use weatherflow.Prelude.{
  ℕ, ◌≤◌, List, [], ◌∷◌, ◌≡◌, refl, ◌⊎◌, true, false, some, All, length, arith, subst, inl, inr,
  Option-cases,
}
use weatherflow.Prelude.Text.Order.{text_lt_asym, text_lt_chain}
use weatherflow.Outcome.{ok}
use weatherflow.Table.Order.{IsOrder}
use weatherflow.Table.Order.Laws.{IsSelection, select-IsSelection, All-map}
use weatherflow.Database.{Db}
use weatherflow.Automations.Model.{AutomationStatus, enabled, paused, Automation, AutomationRunLink}
use weatherflow.Automations.Repository.{is_enabled, is_due, is_pending, due_before, list_due}
use weatherflow.Automations.Claims.{older_link, list_pending}

due_before-IsOrder : IsOrder due_before
unfolding due_before
due_before-IsOrder = record {
  asym = λ a b h. elim (Option-cases a.next_run_at) [
    | inl e ↦ elim (Option-cases b.next_run_at) [
      | inl f ↦ ground (arith, text_lt_asym a.id b.id)
      | inr (t, f) ↦ ground (arith, text_lt_asym a.id b.id)
    ]
    | inr (s, e) ↦ elim (Option-cases b.next_run_at) [
      | inl f ↦ ground (arith, text_lt_asym a.id b.id)
      | inr (t, f) ↦ ground (arith, text_lt_asym a.id b.id)
    ]
  ];
  chain = λ a b c h k. ground (arith, text_lt_chain a.id b.id c.id);
}

older_link-IsOrder : IsOrder older_link
unfolding older_link
older_link-IsOrder = record {
  asym = λ a b h. ground (arith, text_lt_asym a.id b.id);
  chain = λ a b c h k. ground (arith, text_lt_chain a.id b.id c.id);
}

-- The automation is enabled, and its next run is at `now` or earlier.
pub record IsDue (now : ℕ) (a : Automation) : Type 0 where
  pub status : a.status ≡ enabled
  pub time : ℕ
  pub next_run_at : a.next_run_at ≡ some time
  pub has_come : time ≤ now

-- The next run is not later.
abbrev pub IsNotLater : Automation → Automation → Type 0
IsNotLater b a = (s : ℕ) × (t : ℕ) × (b.next_run_at ≡ some s) × (a.next_run_at ≡ some t) × (s ≤ t)

is_enabled-enabled : (s : AutomationStatus) → is_enabled s ≡ true → s ≡ enabled
is_enabled-enabled enabled h = refl
is_enabled-enabled paused h = cc

is_due-IsDue : (now : ℕ) (a : Automation) → is_due now a ≡ true → IsDue now a
unfolding is_due
is_due-IsDue now a h = elim (Option-cases a.next_run_at) [
  | inl never ↦ absurd (ground (arith, h, never))
  | inr (t, at) ↦ record {
    status = is_enabled-enabled a.status (ground (arith, h));
    time = t;
    next_run_at = at;
    has_come = ground (arith, h, at);
  }
]

IsDue-is_due : (now : ℕ) (a : Automation) → IsDue now a → is_due now a ≡ true
unfolding is_due
IsDue-is_due now a h = rw (h.status, h.next_run_at) (let later = h.has_come in ground arith)

due_before-IsNotLater :
    (now : ℕ) (a b : Automation)
    → IsDue now a
    → is_due now b ≡ true
    → due_before a b ≡ false
    → IsNotLater b a
unfolding due_before
due_before-IsNotLater now a b h k after =
    let due = is_due-IsDue now b k in
    let at = due.next_run_at in
    let at' = h.next_run_at in (due.time, h.time, at, at', ground (arith, at, at', after))

All-both :
    (P Q : Automation → Type 0) (rows : List Automation)
    → All P rows
    → All Q rows
    → All (λ a. P a × Q a) rows
All-both P Q [] h k = tt
All-both P Q (a ∷ rows) (h, hs) (k, ks) = ((h, k), All-both P Q rows hs ks)

-- Where `list_due` returns, its limit is from 1 to 1000. It returns at most as many automations as
-- the limit, each enabled and with a next run that is not after `now`; an enabled automation of the
-- database whose next run is not after `now` is among them, or there are as many as the limit and
-- the next run of none of them is later than its own.
pub list_due-earliest :
    (now limit : ℕ) (db : Db) (due : List Automation) (a : Automation)
    → list_due now limit db ≡ ok due
    → Memᴰ a db.automations
    → IsDue now a
    → (1 ≤ limit)
      × (limit ≤ 1000)
      × (length due ≤ limit)
      × All (IsDue now) due
      × (Memᴰ a due ⊎ ((length due ≡ limit) × All (λ b. IsNotLater b a) due))
unfolding list_due
list_due-earliest now limit db due a returned stored h =
    let s : IsSelection due_before (is_due now) limit db.automations due =
      subst (IsSelection due_before (is_due now) limit db.automations) (ground (arith, returned))
        (select-IsSelection due_before due_before-IsOrder (is_due now) limit db.automations) in
    (
      ground (arith, returned),
      ground (arith, returned),
      s.bounded,
      All-map _ _ due (is_due-IsDue now) s.matching,
      elim (s.earliest a stored (IsDue-is_due now a h)) [
        | inl taken ↦ inl taken
        | inr (full, later) ↦ inr (
          full,
          All-map _ _ due (λ b both. due_before-IsNotLater now a b h both.0 both.1)
              (All-both _ _ due s.matching later),
        )
      ],
    )

-- `list_pending` does the same for the pending links, the oldest first.
pub list_pending-IsSelection :
    (limit : ℕ) (db : Db) (links : List AutomationRunLink)
    → list_pending limit db ≡ ok links
    → IsSelection older_link (λ l. is_pending l.status) limit db.links links
unfolding list_pending
list_pending-IsSelection limit db links returned =
    subst (IsSelection older_link (λ l. is_pending l.status) limit db.links)
      (ground (arith, returned))
      (select-IsSelection older_link older_link-IsOrder (λ l. is_pending l.status) limit db.links)
