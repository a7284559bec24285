-- ===== src/Runtime/Controls/Marked.antt =====
-- Marking controls as applied, in core/src/weatherflow/runtime/controls.py.
use weatherflow.Prelude.{
  ℕ, String, true, ◌&&◌, List, [], ◌∷◌, All, ◌≡◌, refl, arith, ◌==◌, eq_iff, is_some,
}
use weatherflow.Table.{filter, lookup, update_where}
use weatherflow.Table.Order.{order_by}
use weatherflow.Table.Order.Laws.{All-tabulate, Mem-lookup, Mem-filter, Mem-order_by}
use weatherflow.Database.{Db, ◌>>=◌}
use weatherflow.Database.Commits.{Commits, Triple, Triple-bind, Commits-Triple, Commits-pure}
use weatherflow.Events.Model.{Event}
use weatherflow.Events.Ledger.{append_in}
use weatherflow.Runtime.Models.{RunCheckpoint, RunControl}
use weatherflow.Runtime.Controls.{
  Kinds, control_key, awaits, older_control, list_pending_in, mark_applied_in, update_control,
  applied_control, apply_each, ApplyStamps, is_pending,
}

-- A control of the run that still awaits is one of the list.
abbrev pub Among : String → Kinds → List RunControl → RunControl → Type 0
Among run_id kinds controls c =
    awaits run_id kinds c ≡ true → is_some (lookup control_key c.id controls) ≡ true

abbrev pub Left : String → Kinds → List RunControl → Db → Type 0
Left run_id kinds controls db = All (Among run_id kinds controls) db.controls

marked-Among :
    (run_id : String) (kinds : Kinds) (c : RunControl) (controls : List RunControl)
    (applied_at step_index : ℕ) (rows : List RunControl)
    → All (Among run_id kinds (c ∷ controls)) rows
    → All (Among run_id kinds controls) (
        update_where
          (λ d. (d.id == c.id) && is_pending d.status)
          (applied_control applied_at step_index)
          rows)
unfolding update_where lookup applied_control awaits
marked-Among run_id kinds c controls applied_at step_index [] h = tt
marked-Among run_id kinds c controls applied_at step_index (d ∷ rows) (h, hs) = (
  ground (arith, h, eq_iff d.id c.id, eq_iff c.id d.id),
  marked-Among run_id kinds c controls applied_at step_index rows hs,
)

mark_applied_in-Left :
    (run_id : String) (kinds : Kinds) (c : RunControl) (controls : List RunControl)
    (applied_at step_index : ℕ)
    → Triple
        (Left run_id kinds (c ∷ controls))
        (mark_applied_in c.id applied_at step_index)
        (λ _. Left run_id kinds controls)
unfolding mark_applied_in ◌>>=◌ update_control
mark_applied_in-Left run_id kinds c controls applied_at step_index = record {
  at = λ db a h returned.
      ground
        (arith, returned, marked-Among run_id kinds c controls applied_at step_index db.controls h);
}

append_in-Left :
    (run_id : String) (kinds : Kinds) (controls : List RunControl) (e : Event)
    → Commits (Left run_id kinds controls) (append_in e)
unfolding append_in
append_in-Left run_id kinds controls e = record {
  at = λ db a h returned. ground (arith, h, returned);
}

-- Once the loop has applied the controls of its list, none of the run awaits.
pub apply_each-Left :
    (run_id : String) (kinds : Kinds) (stamps : ApplyStamps) (checkpoint : RunCheckpoint)
    (step_index : ℕ) (controls : List RunControl)
    → Triple
        (Left run_id kinds controls)
        (apply_each stamps checkpoint step_index controls)
        (λ _. Left run_id kinds [])
unfolding apply_each
apply_each-Left run_id kinds stamps checkpoint step_index [] =
    Commits-Triple _ (Commits-pure tt) (λ db h. h)
apply_each-Left run_id kinds stamps checkpoint step_index (c ∷ controls) =
    Triple-bind {P = Left run_id kinds (c ∷ controls)} {Q = λ _. Left run_id kinds controls}
      {R = λ _. Left run_id kinds []} _ _
      (mark_applied_in-Left run_id kinds c controls stamps.applied_at step_index)
      (λ _.
        Triple-bind {P = Left run_id kinds controls} {Q = λ _. Left run_id kinds controls}
          {R = λ _. Left run_id kinds []} _ _
          (Commits-Triple _ (append_in-Left run_id kinds controls _) (λ db h. h))
          (λ _. apply_each-Left run_id kinds stamps checkpoint step_index controls))

-- The controls that a query found are all that await.
pub list_pending_in-Left :
    (run_id : String) (kinds : Kinds) (db : Db)
    → Left run_id kinds (list_pending_in run_id kinds db) db
unfolding list_pending_in
list_pending_in-Left run_id kinds db = All-tabulate db.controls (λ c m awaiting.
    Mem-lookup control_key c _
      (Mem-order_by older_control c _ (Mem-filter (awaits run_id kinds) c db.controls m awaiting)))

none_left :
    (run_id : String) (kinds : Kinds) (rows : List RunControl)
    → All (Among run_id kinds []) rows
    → filter (awaits run_id kinds) rows ≡ []
unfolding filter lookup
none_left run_id kinds [] h = refl
none_left run_id kinds (c ∷ rows) (h, hs) = ground (arith, h, none_left run_id kinds rows hs)

pub Left-none :
    (run_id : String) (kinds : Kinds) (db : Db)
    → Left run_id kinds [] db
    → list_pending_in run_id kinds db ≡ []
unfolding list_pending_in order_by
Left-none run_id kinds db h = rw (none_left run_id kinds db.controls h) refl
