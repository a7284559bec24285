-- ===== src/Automations/Claims/Effect.antt =====
-- What a claim of a scheduled occurrence, `AutomationRepository.claim_scheduled` of
-- core/src/weatherflow/automations/repository.py, does to the whole database.
use Prim.Native.String.{◌++◌}
use weatherflow.Prelude.{
  ℕ, ◌+◌, String, Bool, ◌≡◌, refl, ap, ◌∙◌, true, false, not, ◌&&◌, Option, none, some, List, inl,
  inr, arith, ◌==◌, eq_iff, eq_refl, ltb, if◌then◌else◌, is_some, Bool-cases, Option-cases,
}
use weatherflow.Outcome.{Error, Result, ok, err, integrity_error, Result-cases}
use weatherflow.Table.{lookup, insert, Unique}
use weatherflow.Table.Laws.{lookup-update_where}
use weatherflow.Database.{Db}
use weatherflow.Events.Model.{Stamp}
use weatherflow.Workspaces.{workspace_key}
use weatherflow.Automations.Schedule.{Zones, next_after}
use weatherflow.Automations.Model.{
  AutomationStatus, enabled, paused, pending, scheduled, Automation, AutomationRunLink,
  scheduled_link,
}
use weatherflow.Automations.Repository.{
  automation_key, link_key, request_of, get, is_due, is_enabled, has_version, same_time,
  insert_link,
}
use weatherflow.Automations.Claims.{claimed, claim_scheduled}
use weatherflow.Automations.Claims.Once.{
  with_claim, claim_outcome, scheduled_outcome, claim_scheduled-swap,
}

-- The link of a scheduled occurrence.
abbrev pub occurrence_link : (ℕ → String) → Stamp → Automation → ℕ → AutomationRunLink
occurrence_link isoformat stamp a t = record {
  id = stamp.id;
  automation_id = a.id;
  workspace_id = a.workspace_id;
  trigger = scheduled;
  scheduled_for = t;
  client_request_id = "automation:" ++ a.id ++ ":scheduled:" ++ isoformat t;
  status = pending;
  run_id = none;
  error_code = none;
  created_at = stamp.now;
  updated_at = stamp.now;
}

-- The link's id and request id are new, and its workspace is there.
abbrev fits : AutomationRunLink → Db → Bool
fits link db =
    not (is_some (lookup link_key link.id db.links))
    && (not (is_some (lookup request_of link.client_request_id db.links))
        && is_some (lookup workspace_key link.workspace_id db.workspaces))

-- The claim of the occurrence `t`, where the next one is known.
abbrev pub claim_next :
    (ℕ → String)
    → Stamp
    → Db
    → Automation
    → ℕ
    → Result (Option ℕ)
    → Result (Option (AutomationRunLink × Option ℕ))
claim_next isoformat stamp db a t (err e) = err e
claim_next isoformat stamp db a t (ok next) =
    if fits (occurrence_link isoformat stamp a t) db
    then ok (some (occurrence_link isoformat stamp a t, next))
    else err integrity_error

-- What is claimed: the link of an occurrence, and the time of the next.
abbrev pub claim_of :
    Zones
    → (ℕ → String)
    → Stamp
    → Db
    → Automation
    → AutomationStatus
    → Option ℕ
    → Result (Option (AutomationRunLink × Option ℕ))
claim_of zones isoformat stamp db a paused at = ok none
claim_of zones isoformat stamp db a enabled none = ok none
claim_of zones isoformat stamp db a enabled (some t) =
    if ltb stamp.now t
    then ok none
    else claim_next isoformat stamp db a t (next_after zones a.schedule stamp.now)

abbrev pub link_of :
    Result (Option (AutomationRunLink × Option ℕ)) → Result (Option AutomationRunLink)
link_of (err e) = err e
link_of (ok none) = ok none
link_of (ok (some (link, next))) = ok (some link)

-- The automation of the key `j` after a claim of `a`.
abbrev pub after_claim :
    ℕ
    → Automation
    → Result (Option (AutomationRunLink × Option ℕ))
    → String
    → Option Automation
    → Option Automation
after_claim now a (err e) j before = before
after_claim now a (ok none) j before = before
after_claim now a (ok (some (link, next))) j before =
    if a.id == j
    then some (record a {
      next_run_at = next;
      last_run_at = some now;
      version = a.version + 1;
      updated_at = now;
    })
    else before

-- The database before a claim, or after it, where its automations are `automations`.
abbrev pub claim_left : Result (Option (AutomationRunLink × Option ℕ)) → Db → List Automation → Db
claim_left (err e) db automations = db
claim_left (ok none) db automations = db
claim_left (ok (some (link, next))) db automations = record db {
  automations = automations;
  links = insert link db.links;
}

module _ (isoformat : ℕ → String) (stamp : Stamp) (db : Db) (a : Automation) (t : ℕ)
    (found : lookup automation_key a.id db.automations ≡ some a) (on : a.status ≡ enabled)
    (at : a.next_run_at ≡ some t) where
  -- The rows after the update of a claim.
  lookup-claimed :
      (next : Option ℕ) (j : String)
      → lookup automation_key j (with_claim next stamp.now a t db).automations ≡ (
          if a.id == j
          then some (claimed next stamp.now a)
          else lookup automation_key j db.automations)
  unfolding claimed
  lookup-claimed next j =
      let p = λ (b : Automation).
        has_version a.version b && (same_time b.next_run_at (some t) && is_enabled b.status) in
      let row =
        lookup-update_where automation_key a.id j p (claimed next stamp.now) db.automations
          (λ v. refl) in
      ground (arith, row, found, on, at, eq_iff a.id j)

  insert_link-fits :
      (next : Option ℕ)
      → insert_link (scheduled_link isoformat stamp a t) (with_claim next stamp.now a t db) ≡ (
          if fits (occurrence_link isoformat stamp a t) db
          then (
            ok tt,
            record (with_claim next stamp.now a t db) {
              links = insert (occurrence_link isoformat stamp a t) db.links;
            },
          )
          else (err integrity_error, with_claim next stamp.now a t db))
  unfolding insert_link scheduled_link
  insert_link-fits next = ground (arith, lookup-claimed next a.id, eq_refl a.id)

  claim_outcome-left :
      (next : Option ℕ) (j : String)
      → let c = claim_outcome isoformat stamp a t (ok next) db in
        (c.0 ≡ link_of (claim_next isoformat stamp db a t (ok next)))
        × (lookup automation_key j c.1.automations
            ≡ after_claim stamp.now a
                (claim_next isoformat stamp db a t (ok next))
                j
                (lookup automation_key j db.automations))
        × (c.1 ≡ claim_left (claim_next isoformat stamp db a t (ok next)) db c.1.automations)
  unfolding claim_outcome claimed scheduled_link
  claim_outcome-left next j = elim (Bool-cases (fits (occurrence_link isoformat stamp a t) db)) [
    | inl new ↦ ground (arith, insert_link-fits next, new, lookup-claimed next j)
    | inr taken ↦ ground (arith, insert_link-fits next, taken)
  ]

claim_outcome-err :
    (isoformat : ℕ → String) (stamp : Stamp) (db : Db) (a : Automation) (t : ℕ) (e : Error)
    → claim_outcome isoformat stamp a t (err e) db ≡ (err e, db)
unfolding claim_outcome
claim_outcome-err isoformat stamp db a t e = refl

claim_of-due :
    (zones : Zones) (isoformat : ℕ → String) (stamp : Stamp) (db : Db) (a : Automation) (t : ℕ)
    → a.status ≡ enabled
    → a.next_run_at ≡ some t
    → is_due stamp.now a ≡ true
    → claim_of zones isoformat stamp db a a.status a.next_run_at
      ≡ claim_next isoformat stamp db a t (next_after zones a.schedule stamp.now)
unfolding is_due
claim_of-due zones isoformat stamp db a t on at due =
    let come : ltb stamp.now t ≡ false = ground (arith, on, at, due) in
    ap (λ (s : AutomationStatus). claim_of zones isoformat stamp db a s a.next_run_at) on
    ∙ ap (claim_of zones isoformat stamp db a enabled) at
    ∙ rw come refl

-- With unique ids, `claim_scheduled` of a stored automation gives nothing and changes nothing if the
-- automation is paused, has no next run or has it after `now`. Otherwise it raises the error of
-- `next_after`, or an integrity error if the id or the request id of the occurrence's link is taken
-- or its workspace is not there, and changes nothing; or it returns that link, which is the one that
-- is new in the table of links. The automation then has its next occurrence as its next run, the
-- time of the claim as its last, and the next version; the row of every other automation is as it
-- was, and no other table has changed.
pub claim_scheduled-eq :
    (zones : Zones) (isoformat : ℕ → String) (stamp : Stamp) (db : Db) (a : Automation) (j : String)
    → Unique automation_key db.automations
    → lookup automation_key a.id db.automations ≡ some a
    → let t = claim_scheduled zones isoformat stamp a.id db in
      let claim = claim_of zones isoformat stamp db a a.status a.next_run_at in
      (t.0 ≡ link_of claim)
      × (lookup automation_key j t.1.automations
          ≡ after_claim stamp.now a claim j (lookup automation_key j db.automations))
      × (t.1 ≡ claim_left claim db t.1.automations)
unfolding get scheduled_outcome is_due
claim_scheduled-eq zones isoformat stamp db a j u found =
    let swap = claim_scheduled-swap zones isoformat stamp db a u found in
    elim (Bool-cases (is_due stamp.now a)) [
      | inr later ↦ elim (Option-cases a.next_run_at) [
        | inl never ↦ ground (arith, swap, never)
        | inr (t, at) ↦ ground (arith, swap, later, at)
      ]
      | inl due ↦ elim (Option-cases a.next_run_at) [
        | inl never ↦ absurd (ground (arith, due, never))
        | inr (t, at) ↦
            let on : a.status ≡ enabled = ground (arith, due) in
            let known = claim_of-due zones isoformat stamp db a t on at due in
            elim (Result-cases (next_after zones a.schedule stamp.now)) [
              | inl (e, r) ↦
                  ground
                    (arith, swap, due, at, r, known, claim_outcome-err isoformat stamp db a t e)
              | inr (next, r) ↦
                  let left = claim_outcome-left isoformat stamp db a t found on at next j in
                  ground (arith, swap, due, at, r, known, left)
            ]
      ]
    ]
