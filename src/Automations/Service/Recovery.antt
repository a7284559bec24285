-- ===== src/Automations/Service/Recovery.antt =====
-- `AutomationService.recover_pending` of core/src/weatherflow/automations/service.py settles the
-- links that a crash has left pending.
use mathlib.Core.List.{Memᴰ}
use weatherflow.Prelude.{
  ℕ, String, true, List, [], ◌∷◌, ◌≡◌, refl, sym, ap, ◌∙◌, subst, arith, is_some, All, take,
}
use weatherflow.Outcome.{Result, ok}
use weatherflow.Table.{filter, lookup, Unique}
use weatherflow.Table.Order.{order_by}
use weatherflow.Table.Order.Laws.{All-take, All-order_by, filter-All}
use weatherflow.Database.{Db, ◌>>=◌}
use weatherflow.Automations.Model.{AutomationRunLink}
use weatherflow.Automations.Repository.{get, automation_key, link_key, is_pending}
use weatherflow.Automations.Claims.{older_link, list_pending}
use weatherflow.Automations.Service.{Submitter, submit_now, submit_all, recover_pending}
use weatherflow.Automations.Service.Settles.{IsQuiet, IsSettled, submit_now-Settles}

-- Every link of the list is stored, and its automation exists.
abbrev IsOwned : Db → AutomationRunLink → Type 0
IsOwned db link =
    (is_some (lookup link_key link.id db.links) ≡ true)
    × (is_some (get link.automation_id db) ≡ true)

-- What settling all the links of a list does.
pub record SettlesAll (links : List AutomationRunLink) (db : Db) {A : Type 0}
    (after : Result A × Db) : Type 0 where
  pub value : A
  pub returns : after.0 ≡ ok value
  pub all_settled : (link : AutomationRunLink) → Memᴰ link links → IsSettled link.id after.1
  pub still_settled : (j : String) → IsSettled j db → IsSettled j after.1

module _ (submit_run : Submitter) (quiet : IsQuiet submit_run) (now : ℕ) where
  All-IsOwned :
      (db after : Db) (links : List AutomationRunLink)
      → ((link : AutomationRunLink) → IsOwned db link → IsOwned after link)
      → All (IsOwned db) links
      → All (IsOwned after) links
  All-IsOwned db after [] k h = tt
  All-IsOwned db after (link ∷ links) k (h, hs) = (k link h, All-IsOwned db after links k hs)

  IsSettled-of :
      (link l : AutomationRunLink) (links : List AutomationRunLink) (after : Db)
      → IsSettled link.id after
      → ((k : AutomationRunLink) → Memᴰ k links → IsSettled k.id after)
      → Memᴰ l (link ∷ links)
      → IsSettled l.id after
  IsSettled-of link l links after h k (Memᴰ.head e) =
      subst (λ (j : AutomationRunLink). IsSettled j.id after) (sym e) h
  IsSettled-of link l links after h k (Memᴰ.tail m) = k l m

  submit_all-SettlesAll :
      (links : List AutomationRunLink) (db : Db)
      → Unique link_key db.links
      → All (IsOwned db) links
      → SettlesAll links db (submit_all submit_run now links db)
  unfolding submit_all ◌>>=◌ get
  submit_all-SettlesAll [] db unique owned = record {
    value = [];
    returns = refl;
    all_settled = λ link m. elim m [ ];
    still_settled = λ j s. s;
  }
  submit_all-SettlesAll (link ∷ links) db unique ((there, owner), owned) =
      let first = submit_now-Settles submit_run quiet now link db unique there owner in
      let between = (submit_now submit_run now link db).1 in
      let rest = submit_all-SettlesAll links between first.unique (
        All-IsOwned db between links
          (λ l o. (
            first.stored l.id o.0,
            ap (λ rows. is_some (lookup automation_key l.automation_id rows)) first.automations
                ∙ o.1,
          ))
          owned) in
      rw (first.returns, rest.returns)
        (record {
          value = first.value ∷ rest.value;
          returns = refl;
          all_settled = λ l m.
              IsSettled-of link l links _ (rest.still_settled link.id first.now_settled)
                rest.all_settled m;
          still_settled = λ j s. rest.still_settled j (first.still_settled j s);
        })

  -- If every link's automation exists and the submission is quiet, `recover_pending` returns, whatever
  -- submissions raise, and every link that it found pending is stored as submitted or failed.
  pub recover_pending-SettlesAll :
      (db : Db) (links : List AutomationRunLink)
      → Unique link_key db.links
      → All (IsOwned db) db.links
      → list_pending 100 db ≡ ok links
      → SettlesAll links db (recover_pending submit_run now db)
  unfolding recover_pending list_pending ◌>>=◌
  recover_pending-SettlesAll db links unique owned pending_links =
      let chosen = take 100 (order_by older_link (filter (λ l. is_pending l.status) db.links)) in
      let same : chosen ≡ links = ground (arith, pending_links) in
      rw same (
        submit_all-SettlesAll links db unique (
          subst (All (IsOwned db)) same (
            All-take (IsOwned db) 100 _ (
              All-order_by older_link (IsOwned db) _
                (filter-All (IsOwned db) (λ l. is_pending l.status) db.links owned)))))
