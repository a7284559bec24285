-- ===== src/Runtime/Controls/Steered.antt =====
-- `RunControlCoordinator._apply_in` of core/src/weatherflow/runtime/controls.py appends controls to a
-- checkpoint.
use weatherflow.Prelude.{
  ℕ, String, none, some, List, [], ◌∷◌, ◌++◌, map, All, ◌≡◌, refl, sym, ap, ◌∙◌, subst, inl, inr,
  arith,
}
use weatherflow.Json.{pop, get-pop}
use weatherflow.Json as Json
use weatherflow.Outcome.{ok, Result-cases}
use weatherflow.Table.{lookup, Unique}
use weatherflow.Database.{Db, ◌>>=◌}
use weatherflow.Database.Commits.{Commits, Commits-pure, Commits-bind}
use weatherflow.Events.Model.{Event}
use weatherflow.Events.Ledger.{append_in}
use weatherflow.Runtime.Models.{RunCheckpoint, RunControl}
use weatherflow.Runtime.Checkpoints.{save_in, checkpoint_key, get_in, saved}
use weatherflow.Runtime.Checkpoints.Swap.{save_in-IsSaved}
use weatherflow.Runtime.Controls.{
  Kinds, list_pending_in, mark_applied_in, update_control, apply_each, apply_in, ApplyStamps,
  steered, user_message,
}
use weatherflow.Runtime.Controls.Marked.{Among, Left, apply_each-Left, Left-none}

-- What a saved checkpoint is, where the controls have been appended to it.
pub record IsSteered (checkpoint : RunCheckpoint) (controls : List RunControl)
    (done : RunCheckpoint) (db : Db) : Type 0 where
  pub same_run : done.run_id ≡ checkpoint.run_id
  pub transcript : done.transcript ≡ checkpoint.transcript ++ map user_message controls
  pub no_turn : Json.get "pending_turn" done.state ≡ none
  pub no_batch : Json.get "batch_next_index" done.state ≡ none
  pub stored : get_in checkpoint.run_id db ≡ some done

save_in-IsSteered :
    (now : ℕ) (checkpoint : RunCheckpoint) (controls : List RunControl) (db : Db)
    (done : RunCheckpoint)
    → Unique checkpoint_key db.checkpoints
    → (save_in now (steered checkpoint controls) checkpoint.version db).0 ≡ ok done
    → IsSteered checkpoint controls done
        (save_in now (steered checkpoint controls) checkpoint.version db).1
      × ((save_in now (steered checkpoint controls) checkpoint.version db).1.controls ≡ db.controls)
unfolding steered saved
save_in-IsSteered now checkpoint controls db done unique returned =
    let h =
      save_in-IsSaved now (steered checkpoint controls) done checkpoint.version db unique
        returned in
    let made : done ≡ saved (steered checkpoint controls) now h.current =
      ground (arith, h.whole, returned) in
    let cleared = pop "pending_turn" checkpoint.state in
    rw (h.whole, made)
      (
        record {
          same_run = h.same_run;
          transcript = refl;
          no_turn =
              get-pop "pending_turn" "batch_next_index" cleared
              ∙ get-pop "pending_turn" "pending_turn" checkpoint.state;
          no_batch = get-pop "batch_next_index" "batch_next_index" cleared;
          stored = h.row;
        },
        refl,
      )

mark :
    (P : List RunCheckpoint → Type 0) (control_id : String) (applied_at step_index : ℕ)
    → Commits (λ db. P db.checkpoints) (mark_applied_in control_id applied_at step_index)
unfolding mark_applied_in ◌>>=◌ update_control
mark P control_id applied_at step_index = record {
  at = λ db a h returned. ground (arith, h, returned);
}

append :
    (P : List RunCheckpoint → Type 0) (e : Event) → Commits (λ db. P db.checkpoints) (append_in e)
unfolding append_in
append P e = record { at = λ db a h returned. ground (arith, h, returned) }

-- The loop leaves the checkpoints alone.
apply_each-Commits :
    (P : List RunCheckpoint → Type 0) (stamps : ApplyStamps) (checkpoint : RunCheckpoint)
    (step_index : ℕ) (controls : List RunControl)
    → Commits (λ db. P db.checkpoints) (apply_each stamps checkpoint step_index controls)
unfolding apply_each
apply_each-Commits P stamps checkpoint step_index [] = Commits-pure tt
apply_each-Commits P stamps checkpoint step_index (c ∷ controls) =
    Commits-bind _ _ (mark P c.id stamps.applied_at step_index) (λ _.
      Commits-bind _ _ (append P _)
        (λ _. apply_each-Commits P stamps checkpoint step_index controls))

-- `_apply_in` where the save and the loop return.
record Applies (stamps : ApplyStamps) (checkpoint done : RunCheckpoint) (controls : List RunControl)
    (db : Db) : Type 0 where
  saved_as :
      (save_in stamps.saved_at (steered checkpoint controls) checkpoint.version db).0 ≡ ok done
  after : Db
  after_save :
      (save_in stamps.saved_at (steered checkpoint controls) checkpoint.version db).1 ≡ after
  looped : (apply_each stamps checkpoint done.step_index controls after).0 ≡ ok tt
  whole :
      apply_in stamps checkpoint controls db
      ≡ (ok done, (apply_each stamps checkpoint done.step_index controls after).1)

apply_in-Applies :
    (stamps : ApplyStamps) (checkpoint done : RunCheckpoint) (controls : List RunControl) (db : Db)
    → (apply_in stamps checkpoint controls db).0 ≡ ok done
    → Applies stamps checkpoint done controls db
unfolding apply_in ◌>>=◌
apply_in-Applies stamps checkpoint done controls db returned =
    elim (Result-cases
      (save_in stamps.saved_at (steered checkpoint controls) checkpoint.version db).0) [
        | inl (e, r) ↦ absurd (ground (arith, returned, r))
        | inr (s, r) ↦
            let after =
              (save_in stamps.saved_at (steered checkpoint controls) checkpoint.version db).1 in
            elim (Result-cases (apply_each stamps checkpoint s.step_index controls after).0) [
              | inl (e, q) ↦ absurd (ground (arith, returned, r, q))
              | inr (u, q) ↦
                  let same : s ≡ done = ground (arith, returned, r, q) in
                  record {
                    saved_as = ground (arith, r, same);
                    after = after;
                    after_save = refl;
                    looped = ground (arith, q, same);
                    whole = ground (arith, r, q, same);
                  }
            ]
      ]

-- After `_apply_in` with all the controls of its kinds, none awaits, and the saved checkpoint is the
-- old one with the controls appended.
pub apply_in-IsSteered :
    (kinds : Kinds) (stamps : ApplyStamps) (checkpoint done : RunCheckpoint)
    (controls : List RunControl) (db : Db)
    → Unique checkpoint_key db.checkpoints
    → Left checkpoint.run_id kinds controls db
    → (apply_in stamps checkpoint controls db).0 ≡ ok done
    → IsSteered checkpoint controls done (apply_in stamps checkpoint controls db).1
      × (list_pending_in checkpoint.run_id kinds (apply_in stamps checkpoint controls db).1 ≡ [])
unfolding get_in
apply_in-IsSteered kinds stamps checkpoint done controls db unique left returned =
    let a = apply_in-Applies stamps checkpoint done controls db returned in
    let (steady, rows) =
      save_in-IsSteered stamps.saved_at checkpoint controls db done unique a.saved_as in
    let same = a.after_save in
    let loop = apply_each stamps checkpoint done.step_index controls in
    let stored : get_in checkpoint.run_id a.after ≡ some done =
      ap (get_in checkpoint.run_id) (sym same) ∙ steady.stored in
    let left_after : Left checkpoint.run_id kinds controls a.after =
      subst (All (Among checkpoint.run_id kinds controls))
        (sym rows ∙ ap (λ (d : Db). d.controls) same) left in
    rw a.whole (
      record {
        same_run = steady.same_run;
        transcript = steady.transcript;
        no_turn = steady.no_turn;
        no_batch = steady.no_batch;
        stored =
            (apply_each-Commits (λ rows. lookup checkpoint_key checkpoint.run_id rows ≡ some done)
                stamps checkpoint done.step_index controls).at
              a.after tt stored a.looped;
      },
      Left-none checkpoint.run_id kinds _ (
          (apply_each-Left checkpoint.run_id kinds stamps checkpoint done.step_index controls).at
            a.after tt left_after a.looped),
    )
