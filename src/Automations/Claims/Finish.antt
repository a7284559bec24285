-- ===== src/Automations/Claims/Finish.antt =====
-- `AutomationRepository._finish_link` of core/src/weatherflow/automations/repository.py: a link is
-- finished once.
use weatherflow.Prelude.{
  ℕ, String, true, false, not, ◌&&◌, Option, some, ◌≡◌, refl, arith, ◌==◌, eq_refl, if◌then◌else◌,
}
use weatherflow.Outcome.{Result, ok, err, integrity_error}
use weatherflow.Table.{lookup, update_where, Unique}
use weatherflow.Table.Laws.{rowcount-Unique, lookup-update_where, Unique-update_where}
use weatherflow.Database.{Db, transaction, ◌>>=◌}
use weatherflow.Automations.Model.{RunLinkStatus, AutomationRunLink}
use weatherflow.Automations.Repository.{link_key, is_pending}
use weatherflow.Automations.Claims.{finished, missing_run, update_link, finish_link}

-- What finishing a link comes to.
unfoldable pub finish_outcome :
    String
    → RunLinkStatus
    → Option String
    → Option String
    → ℕ
    → AutomationRunLink
    → Db
    → Result AutomationRunLink × Db
unfolding finished
finish_outcome link_id status run_id error_code now l db =
    if not (is_pending l.status)
    then (ok l, db)
    else if missing_run run_id db
    then (err integrity_error, db)
    else (
      ok (finished status run_id error_code now l),
      record db {
        links =
            update_where (λ k. (k.id == link_id) && is_pending k.status)
              (finished status run_id error_code now) db.links;
      },
    )

module _ (link_id : String) (db : Db) (l : AutomationRunLink) (unique : Unique link_key db.links)
    (found : lookup link_key link_id db.links ≡ some l) where
  pub finish_link-eq :
      (status : RunLinkStatus) (run_id error_code : Option String) (now : ℕ)
      → finish_link link_id status run_id error_code now db
        ≡ finish_outcome link_id status run_id error_code now l db
  unfolding ◌>>=◌ finish_link finish_outcome update_link transaction
  finish_link-eq status run_id error_code now =
      let one =
        rowcount-Unique link_key link_id (λ k. is_pending k.status) db.links l unique found in
      ground (arith, found, one)

  abbrev after : RunLinkStatus → Option String → Option String → ℕ → Db
  after status run_id error_code now = record db {
    links =
        update_where (λ k. (k.id == link_id) && is_pending k.status)
          (finished status run_id error_code now) db.links;
  }

  -- A pending link that is finished is the row of its id.
  row_after :
      (status : RunLinkStatus) (run_id error_code : Option String) (now : ℕ)
      → is_pending l.status ≡ true
      → lookup link_key link_id (after status run_id error_code now).links
        ≡ some (finished status run_id error_code now l)
  unfolding finished
  row_after status run_id error_code now awaiting =
      let moved =
        lookup-update_where link_key link_id link_id (λ k. is_pending k.status)
          (finished status run_id error_code now) db.links (λ k. refl) in
      ground (arith, moved, found, eq_refl link_id, awaiting)

  Unique-after :
      (status : RunLinkStatus) (run_id error_code : Option String) (now : ℕ)
      → Unique link_key (after status run_id error_code now).links
  unfolding finished
  Unique-after status run_id error_code now =
      Unique-update_where link_key (λ k. (k.id == link_id) && is_pending k.status)
        (finished status run_id error_code now) db.links (λ k. refl) unique

  -- What a link that was pending is finished as.
  pub finish_link-finished :
      (status : RunLinkStatus) (run_id error_code : Option String) (now : ℕ)
      (done : AutomationRunLink)
      → is_pending l.status ≡ true
      → (finish_link link_id status run_id error_code now db).0 ≡ ok done
      → finish_link link_id status run_id error_code now db
        ≡ (ok (finished status run_id error_code now l), after status run_id error_code now)
  unfolding finish_outcome
  finish_link-finished status run_id error_code now done awaiting returned =
      let first = finish_link-eq status run_id error_code now in
      ground (arith, first, returned, awaiting)

-- Once a pending link has been finished with a status that is not pending, finishing it again, in
-- any way, returns the link as it was finished and changes nothing.
pub finish_link-once :
    (link_id : String) (db : Db) (l : AutomationRunLink) (status again : RunLinkStatus)
    (run_id error_code other_run other_code : Option String) (now later : ℕ)
    (done : AutomationRunLink)
    → Unique link_key db.links
    → lookup link_key link_id db.links ≡ some l
    → is_pending l.status ≡ true
    → is_pending status ≡ false
    → (finish_link link_id status run_id error_code now db).0 ≡ ok done
    → (done ≡ finished status run_id error_code now l)
      × (finish_link link_id again other_run other_code later
            (finish_link link_id status run_id error_code now db).1
          ≡ (ok done, (finish_link link_id status run_id error_code now db).1))
unfolding finish_outcome finished
finish_link-once link_id db l status again run_id error_code other_run other_code now later done
      unique found awaiting settled returned =
    let first =
      finish_link-finished link_id db l unique found status run_id error_code now done awaiting
        returned in
    let second =
      finish_link-eq link_id (after link_id db l unique found status run_id error_code now)
        (finished status run_id error_code now l)
        (Unique-after link_id db l unique found status run_id error_code now)
        (row_after link_id db l unique found status run_id error_code now awaiting) again other_run
        other_code later in
    ground (arith, first, second, returned, settled)
