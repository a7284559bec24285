-- ===== src/Automations/Service/Settles.antt =====
-- `AutomationService._submit` of core/src/weatherflow/automations/service.py settles the link that it
-- submits.
use weatherflow.Prelude.{
  ℕ, String, true, false, ◌&&◌, Option, none, some, ◌≡◌, ◌≢◌, refl, sym, ap, ◌∙◌, subst, inl, inr,
  arith, ◌==◌, eq_refl, if◌then◌else◌, is_some, Option-cases, Bool-cases,
}
use weatherflow.Outcome.{Error, Result, ok, err, cancelled_error, Result-cases}
use weatherflow.Table.{lookup, update_where, Unique}
use weatherflow.Table.Laws.{lookup-update_where, Unique-update_where}
use weatherflow.Database.{Db, ◌>>=◌}
use weatherflow.Automations.Model.{submitted, failed, RunLinkStatus, AutomationRunLink}
use weatherflow.Automations.Repository.{get, link_key, is_pending}
use weatherflow.Automations.Claims.{finished, missing_run, finish_link, mark_submitted, mark_failed}
use weatherflow.Automations.Claims.Finish.{finish_link-eq, finish_outcome}
use weatherflow.Automations.Service.{Submitter, settle_link, required, submit, submit_now}

-- A submission that returns names a run that exists, is not cancelled, and leaves automations and
-- their links alone.
pub record IsQuiet (submit_run : Submitter) : Type 0 where
  pub links : (i q w : String) (db : Db) → (submit_run i q w db).1.links ≡ db.links
  pub automations :
      (i q w : String) (db : Db) → (submit_run i q w db).1.automations ≡ db.automations
  pub stored :
      (i q w : String) (db : Db) (run_id : String)
      → (submit_run i q w db).0 ≡ ok run_id
      → missing_run (some run_id) (submit_run i q w db).1 ≡ false
  pub uncancelled : (i q w : String) (db : Db) → (submit_run i q w db).0 ≢ err cancelled_error

-- The link is stored and no longer pending.
pub record IsSettled (link_id : String) (db : Db) : Type 0 where
  pub row : AutomationRunLink
  pub found : lookup link_key link_id db.links ≡ some row
  pub settled : is_pending row.status ≡ false

-- What settling the link of `link_id` does to the others.
pub record Settles (link_id : String) (db : Db) {A : Type 0} (after : Result A × Db) : Type 0 where
  pub value : A
  pub returns : after.0 ≡ ok value
  pub unique : Unique link_key after.1.links
  pub now_settled : IsSettled link_id after.1
  pub still_settled : (j : String) → IsSettled j db → IsSettled j after.1
  pub stored :
      (j : String)
      → is_some (lookup link_key j db.links) ≡ true
      → is_some (lookup link_key j after.1.links) ≡ true
  pub automations : after.1.automations ≡ db.automations

module _ (status : RunLinkStatus) (settling : is_pending status ≡ false)
    (run_id error_code : Option String) (now : ℕ) where
  abbrev after : String → Db → Db
  after link_id db = record db {
    links =
        update_where (λ k. (k.id == link_id) && is_pending k.status)
          (finished status run_id error_code now) db.links;
  }

  row_after :
      (link_id j : String) (db : Db) (l : AutomationRunLink)
      → lookup link_key j db.links ≡ some l
      → lookup link_key j (after link_id db).links
        ≡ some (
            if (link_id == j) && is_pending l.status
            then finished status run_id error_code now l
            else l)
  unfolding finished
  row_after link_id j db l found =
      let moved =
        lookup-update_where link_key link_id j (λ k. is_pending k.status)
          (finished status run_id error_code now) db.links (λ k. refl) in
      ground (arith, moved, found)

  finished-Settles :
      (link_id : String) (db : Db) (l : AutomationRunLink)
      → Unique link_key db.links
      → lookup link_key link_id db.links ≡ some l
      → is_pending l.status ≡ true
      → Settles link_id db (ok (finished status run_id error_code now l), after link_id db)
  unfolding finished
  finished-Settles link_id db l unique found awaiting = record {
    value = finished status run_id error_code now l;
    returns = refl;
    unique =
        Unique-update_where link_key (λ k. (k.id == link_id) && is_pending k.status)
          (finished status run_id error_code now) db.links (λ k. refl) unique;
    now_settled = record {
      row = finished status run_id error_code now l;
      found = ground (arith, row_after link_id link_id db l found, eq_refl link_id, awaiting);
      settled = settling;
    };
    still_settled = λ j s. record {
      row = s.row;
      found = ground (arith, row_after link_id j db s.row s.found, s.settled);
      settled = s.settled;
    };
    stored = λ j there. elim (Option-cases (lookup link_key j db.links)) [
      | inl absent ↦ ground (arith, there, absent)
      | inr (k, known) ↦ ap is_some (row_after link_id j db k known)
    ];
    automations = refl;
  }

  finish_link-Settles :
      (link_id : String) (db : Db) (l : AutomationRunLink)
      → Unique link_key db.links
      → lookup link_key link_id db.links ≡ some l
      → missing_run run_id db ≡ false
      → Settles link_id db (finish_link link_id status run_id error_code now db)
  unfolding finish_outcome
  finish_link-Settles link_id db l unique found stored = elim (Bool-cases (is_pending l.status)) [
    | inl awaiting ↦
        rw (finish_link-eq link_id db l unique found status run_id error_code now, awaiting, stored)
          (finished-Settles link_id db l unique found awaiting)
    | inr already ↦
        rw (finish_link-eq link_id db l unique found status run_id error_code now, already)
          (record {
            value = l;
            returns = refl;
            unique = unique;
            now_settled = record { row = l; found = found; settled = already };
            still_settled = λ j s. s;
            stored = λ j there. there;
            automations = refl;
          })
  ]

Settles-from :
    {A : Type 0} (link_id : String) (db before : Db) (after : Result A × Db)
    → before.links ≡ db.links
    → before.automations ≡ db.automations
    → Settles link_id before after
    → Settles link_id db after
Settles-from link_id db before after links automations h = record {
  value = h.value;
  returns = h.returns;
  unique = h.unique;
  now_settled = h.now_settled;
  still_settled = λ j s.
      h.still_settled j (record {
        row = s.row;
        found = ap (lookup link_key j) links ∙ s.found;
        settled = s.settled;
      });
  stored = λ j there. h.stored j (ap (λ rows. is_some (lookup link_key j rows)) links ∙ there);
  automations = h.automations ∙ automations;
}

settle_link-failed :
    (link : AutomationRunLink) (now : ℕ) (e : Error)
    → e ≢ cancelled_error
    → settle_link link now (err e) ≡ mark_failed link.id "submission_failed" now
unfolding settle_link
settle_link-failed link now cancelled_error h = absurd (h refl)
settle_link-failed link now _ h = refl

module _ (submit_run : Submitter) (quiet : IsQuiet submit_run) (now : ℕ) where
  settle_link-Settles :
      (link : AutomationRunLink) (r : Result String) (db : Db)
      → Unique link_key db.links
      → is_some (lookup link_key link.id db.links) ≡ true
      → ((run_id : String) → r ≡ ok run_id → missing_run (some run_id) db ≡ false)
      → r ≢ err cancelled_error
      → Settles link.id db (settle_link link now r db)
  unfolding settle_link mark_submitted mark_failed
  settle_link-Settles link r db unique there stored uncancelled =
      elim (Option-cases (lookup link_key link.id db.links)) [
        | inl absent ↦ absurd (ground (arith, there, absent))
        | inr (l, found) ↦ elim (Result-cases r) [
          | inr (run_id, at) ↦ rw at (
              finish_link-Settles submitted refl (some run_id) none now link.id db l unique found
                (stored run_id at))
          | inl (e, at) ↦
              rw (at, settle_link-failed link now e (λ same. uncancelled (at ∙ ap err same)))
                (finish_link-Settles failed refl none (some "submission_failed") now link.id db l
                  unique found refl)
        ]
      ]

  pub submit_now-Settles :
      (link : AutomationRunLink) (db : Db)
      → Unique link_key db.links
      → is_some (lookup link_key link.id db.links) ≡ true
      → is_some (get link.automation_id db) ≡ true
      → Settles link.id db (submit_now submit_run now link db)
  unfolding submit_now submit required ◌>>=◌
  submit_now-Settles link db unique there owned = elim (Option-cases (get link.automation_id db)) [
    | inl absent ↦ absurd (ground (arith, owned, absent))
    | inr (a, found) ↦
        let after = (submit_run a.prompt link.client_request_id a.workspace_id db).1 in
        let same = quiet.links a.prompt link.client_request_id a.workspace_id db in
        rw found (
          Settles-from link.id db after _ same
            (quiet.automations a.prompt link.client_request_id a.workspace_id db)
            (settle_link-Settles link _ after (subst (Unique link_key) (sym same) unique)
              (ap (λ rows. is_some (lookup link_key link.id rows)) same ∙ there)
              (quiet.stored a.prompt link.client_request_id a.workspace_id db)
              (quiet.uncancelled a.prompt link.client_request_id a.workspace_id db)))
  ]
