-- ===== src/Automations/Claims/Once.antt =====
-- `AutomationRepository.claim_scheduled` of core/src/weatherflow/automations/repository.py: an
-- occurrence is claimed once.
use weatherflow.Prelude.{
  ℕ, ◌<◌, String, Bool, true, ◌&&◌, Option, none, some, ◌≡◌, refl, ◌∙◌, ap, inl, inr, arith, ◌==◌,
  eq_refl, if◌then◌else◌, Option-cases, Bool-cases,
}
use weatherflow.Outcome.{Result, ok, err, Result-cases}
use weatherflow.Table.{lookup, update_where, Unique}
use weatherflow.Table.Laws.{
  rowcount-Unique, Unique-update_where, lookup-update_where, lookup-insert,
}
use weatherflow.Database.{Db, transaction, settle, ◌>>=◌}
use weatherflow.Events.Model.{Stamp}
use weatherflow.Automations.Schedule.{Zones, next_after}
use weatherflow.Automations.Model.{Automation, AutomationRunLink, scheduled_link}
use weatherflow.Automations.Repository.{
  automation_key, link_key, get, is_due, is_enabled, has_version, same_time, update_automation,
  insert_link,
}
use weatherflow.Automations.Claims.{claimed, claim_due, claim_scheduled, claim_scheduled_in}

-- The rows that the claim of an occurrence updates.
abbrev pub selected : Automation → ℕ → Automation → Bool
selected a t b =
    (b.id == a.id)
    && (has_version a.version b && (same_time b.next_run_at (some t) && is_enabled b.status))

abbrev pub with_claim : Option ℕ → ℕ → Automation → ℕ → Db → Db
with_claim next now a t db = record db {
  automations = update_where (selected a t) (claimed next now) db.automations;
}

-- What a claim of a due automation comes to.
unfoldable pub claim_outcome :
    (ℕ → String)
    → Stamp
    → Automation
    → ℕ
    → Result (Option ℕ)
    → Db
    → Result (Option AutomationRunLink) × Db
unfolding insert_link
claim_outcome isoformat stamp a t (err e) db = (err e, db)
claim_outcome isoformat stamp a t (ok next) db =
    let link = scheduled_link isoformat stamp a t in
    elim (insert_link link (with_claim next stamp.now a t db)).0 [
      | err e ↦ (err e, db)
      | ok _ ↦ (ok (some link), (insert_link link (with_claim next stamp.now a t db)).1)
    ]

claim_due-outcome :
    (zones : Zones) (isoformat : ℕ → String) (stamp : Stamp) (db : Db) (a : Automation) (t : ℕ)
    → Unique automation_key db.automations
    → get a.id db ≡ some a
    → is_enabled a.status ≡ true
    → a.next_run_at ≡ some t
    → settle db (claim_due zones isoformat stamp a t db)
      ≡ claim_outcome isoformat stamp a t (next_after zones a.schedule stamp.now) db
unfolding ◌>>=◌ claim_due claim_outcome get update_automation insert_link
claim_due-outcome zones isoformat stamp db a t u found on due =
    let one =
      rowcount-Unique automation_key a.id
        (λ b. has_version a.version b && (same_time b.next_run_at (some t) && is_enabled b.status))
        db.automations a u found in
    elim (Result-cases (next_after zones a.schedule stamp.now)) [
      | inl (e, r) ↦ rw r refl
      | inr (next, r) ↦ ground (arith, r, one, on, due)
    ]

-- What `claim_scheduled` comes to for an automation that the database has.
unfoldable pub scheduled_outcome :
    Zones
    → (ℕ → String)
    → Stamp
    → Automation
    → Option ℕ
    → Db
    → Result (Option AutomationRunLink) × Db
scheduled_outcome zones isoformat stamp a none db = (ok none, db)
scheduled_outcome zones isoformat stamp a (some t) db =
    if is_due stamp.now a
    then claim_outcome isoformat stamp a t (next_after zones a.schedule stamp.now) db
    else (ok none, db)

-- `claim_scheduled` of a stored automation as its checks and two statements.
pub claim_scheduled-swap :
    (zones : Zones) (isoformat : ℕ → String) (stamp : Stamp) (db : Db) (a : Automation)
    → Unique automation_key db.automations
    → get a.id db ≡ some a
    → claim_scheduled zones isoformat stamp a.id db
      ≡ scheduled_outcome zones isoformat stamp a a.next_run_at db
unfolding claim_scheduled claim_scheduled_in transaction ◌>>=◌ is_due scheduled_outcome
claim_scheduled-swap zones isoformat stamp db a u found = elim (Option-cases a.next_run_at) [
  | inl never ↦ rw (found, never) refl
  | inr (t, at) ↦
      rw found (ground (arith, at, claim_due-outcome zones isoformat stamp db a t u found))
]

-- A claim that gives a link moves the automation to its next occurrence.
record IsClaimed (zones : Zones) (isoformat : ℕ → String) (stamp : Stamp) (a : Automation)
    (link : AutomationRunLink) (after : Db) : Type 0 where
  occurrence : ℕ
  next : Option ℕ
  due : is_due stamp.now a ≡ true
  at : a.next_run_at ≡ some occurrence
  then_at : next_after zones a.schedule stamp.now ≡ ok next
  made : link ≡ scheduled_link isoformat stamp a occurrence
  row : get a.id after ≡ some (claimed next stamp.now a)
  unique : Unique automation_key after.automations
  kept : lookup link_key link.id after.links ≡ some link

claim_outcome-IsClaimed :
    (zones : Zones) (isoformat : ℕ → String) (stamp : Stamp) (db : Db) (a : Automation)
    (link : AutomationRunLink) (t : ℕ) (next : Option ℕ)
    → Unique automation_key db.automations
    → get a.id db ≡ some a
    → is_due stamp.now a ≡ true
    → a.next_run_at ≡ some t
    → next_after zones a.schedule stamp.now ≡ ok next
    → (claim_outcome isoformat stamp a t (ok next) db).0 ≡ ok (some link)
    → IsClaimed zones isoformat stamp a link (claim_outcome isoformat stamp a t (ok next) db).1
unfolding claim_outcome get is_due insert_link claimed
claim_outcome-IsClaimed zones isoformat stamp db a link t next u found due at then_at returned =
    let p = λ (b : Automation).
      has_version a.version b && (same_time b.next_run_at (some t) && is_enabled b.status) in
    let moved =
      lookup-update_where automation_key a.id a.id p (claimed next stamp.now) db.automations
        (λ v. refl) in
    let unique =
      Unique-update_where automation_key (selected a t) (claimed next stamp.now) db.automations
        (λ v. refl) u in
    let new = scheduled_link isoformat stamp a t in
    let inserted = lookup-insert link_key new.id new db.links in
    record {
      occurrence = t;
      next = next;
      due = due;
      at = at;
      then_at = then_at;
      made = ground (arith, returned);
      row = ground (arith, moved, found, eq_refl a.id, due, at, returned);
      unique = ground (arith, unique, returned);
      kept = ground (arith, inserted, returned, eq_refl new.id);
    }

scheduled_outcome-IsClaimed :
    (zones : Zones) (isoformat : ℕ → String) (stamp : Stamp) (db : Db) (a : Automation)
    (link : AutomationRunLink) (at : Option ℕ)
    → Unique automation_key db.automations
    → get a.id db ≡ some a
    → a.next_run_at ≡ at
    → (scheduled_outcome zones isoformat stamp a at db).0 ≡ ok (some link)
    → IsClaimed zones isoformat stamp a link (scheduled_outcome zones isoformat stamp a at db).1
unfolding scheduled_outcome claim_outcome
scheduled_outcome-IsClaimed zones isoformat stamp db a link none u found at = λ e. cc
scheduled_outcome-IsClaimed zones isoformat stamp db a link (some t) u found at =
    elim (Bool-cases (is_due stamp.now a)) [
      | inr later ↦ rw later (λ e. cc)
      | inl due ↦ elim (Result-cases (next_after zones a.schedule stamp.now)) [
        | inl (e, r) ↦ rw (due, r) (λ f. cc)
        | inr (next, r) ↦
            rw (due, r)
              (claim_outcome-IsClaimed zones isoformat stamp db a link t next u found due at r)
      ]
    ]

-- Before its next occurrence a claimed automation gives none.
claimed-waits :
    (zones : Zones) (isoformat : ℕ → String) (again : Stamp) (a : Automation) (next : Option ℕ)
    (now : ℕ) (after : Db)
    → ((n : ℕ) → next ≡ some n → again.now < n)
    → scheduled_outcome zones isoformat again
        (claimed next now a)
        (claimed next now a).next_run_at
        after
      ≡ (ok none, after)
unfolding scheduled_outcome claimed is_due
claimed-waits zones isoformat again a none now after earlier = refl
claimed-waits zones isoformat again a (some n) now after earlier = ground (arith, earlier n refl)

IsClaimed-waits :
    (zones : Zones) (isoformat : ℕ → String) (stamp again : Stamp) (a : Automation)
    (link : AutomationRunLink) (after : Db)
    → IsClaimed zones isoformat stamp a link after
    → ((n : ℕ) → next_after zones a.schedule stamp.now ≡ ok (some n) → again.now < n)
    → claim_scheduled zones isoformat again a.id after ≡ (ok none, after)
unfolding claimed
IsClaimed-waits zones isoformat stamp again a link after h earlier =
    claim_scheduled-swap zones isoformat again after (claimed h.next stamp.now a) h.unique h.row
    ∙ claimed-waits zones isoformat again a h.next stamp.now after
        (λ n e. earlier n (h.then_at ∙ ap ok e))

-- Where `claim_scheduled` gives an automation's occurrence, the automation was due, the link is
-- stored, and until the next occurrence no further claim, whenever it is made, gives one or changes
-- anything.
pub claim_scheduled-once :
    (zones : Zones) (isoformat : ℕ → String) (stamp again : Stamp) (db : Db) (a : Automation)
    (link : AutomationRunLink)
    → Unique automation_key db.automations
    → get a.id db ≡ some a
    → (claim_scheduled zones isoformat stamp a.id db).0 ≡ ok (some link)
    → ((n : ℕ) → next_after zones a.schedule stamp.now ≡ ok (some n) → again.now < n)
    → (is_due stamp.now a ≡ true)
      × (lookup link_key link.id (claim_scheduled zones isoformat stamp a.id db).1.links
          ≡ some link)
      × (claim_scheduled zones isoformat again a.id
            (claim_scheduled zones isoformat stamp a.id db).1
          ≡ (ok none, (claim_scheduled zones isoformat stamp a.id db).1))
claim_scheduled-once zones isoformat stamp again db a link u found returned earlier =
    let first = claim_scheduled-swap zones isoformat stamp db a u found in
    let claim =
      scheduled_outcome-IsClaimed zones isoformat stamp db a link a.next_run_at u found refl
        (ground (arith, first, returned)) in
    rw first
      (claim.due, claim.kept, IsClaimed-waits zones isoformat stamp again a link _ claim earlier)
