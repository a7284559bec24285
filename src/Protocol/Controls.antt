-- ===== src/Protocol/Controls.antt =====
-- The calls of the run's controls keep an invariant that the core's statements commit.
use weatherflow.Prelude.{ℕ, String, arith, ◌≡◌, refl, List, [], ◌∷◌, false}
use weatherflow.Database.{Db, Tx}
use weatherflow.Database.Commits.{
  Commits, Commits-bind, Commits-gets, Commits-pure, Commits-or_raise, Commits-raise_if,
}
use weatherflow.Database.Keeps.{Keeps, Keeps-transaction, Keeps-bind, Keeps-raise_if, Keeps-query}
use weatherflow.Database.Beside.{IsBeside, IsBeside-Commits}
use weatherflow.Events.Model.{Stamp, new_event}
use weatherflow.Runs.History.{is_status_event}
use weatherflow.Runtime.Models.{RunCheckpoint, RunControlKind, RunControl}
use weatherflow.Runtime.Checkpoints.{save_in, update_checkpoint}
use weatherflow.Runtime.Controls
use weatherflow.Runtime.Controls.{
  ApplyStamps, control_queued, control_applied, enqueue, update_control, mark_applied_in,
  apply_each, apply_in, apply_before_model, apply_unless_none,
}
use weatherflow.Protocol.{Statements}

control_queued-other :
    (stamp : Stamp) (c : RunControl) → is_status_event (control_queued stamp c) ≡ false
unfolding is_status_event control_queued new_event
control_queued-other stamp c = refl

control_applied-other :
    (stamp : Stamp) (checkpoint : RunCheckpoint) (step_index : ℕ) (c : RunControl)
    → is_status_event (control_applied stamp checkpoint step_index c) ≡ false
unfolding is_status_event control_applied new_event
control_applied-other stamp checkpoint step_index c = refl

create_in-IsBeside : (c : RunControl) → IsBeside (Controls.create_in c)
unfolding Controls.create_in
create_in-IsBeside c = record { keeps = λ start. record { at = λ db h. ground (arith, h) } }

update_control-IsBeside :
    (control_id : String) (f : RunControl → RunControl) → IsBeside (update_control control_id f)
unfolding update_control
update_control-IsBeside control_id f = record {
  keeps = λ start. record { at = λ db h. ground (arith, h) };
}

update_checkpoint-IsBeside :
    (run_id : String) (v : ℕ) (f : RunCheckpoint → RunCheckpoint)
    → IsBeside (update_checkpoint run_id v f)
unfolding update_checkpoint
update_checkpoint-IsBeside run_id v f = record {
  keeps = λ start. record { at = λ db h. ground (arith, h) };
}

module _ {P : Db → Type 0} (s : Statements P) where
  beside-Commits : {A : Type 0} (m : Tx A) → IsBeside m → Commits P m
  beside-Commits m h = IsBeside-Commits m s.beside h

  mark_applied_in-Commits :
      (control_id : String) (applied_at step_index : ℕ)
      → Commits P (mark_applied_in control_id applied_at step_index)
  unfolding mark_applied_in
  mark_applied_in-Commits control_id applied_at step_index =
      Commits-bind _ _ (beside-Commits _ (update_control-IsBeside _ _))
        (λ rows. Commits-raise_if _ _)

  save_in-Commits :
      (now : ℕ) (checkpoint : RunCheckpoint) (v : ℕ) → Commits P (save_in now checkpoint v)
  unfolding save_in
  save_in-Commits now checkpoint v = Commits-bind _ _ (Commits-gets _) λ found.
      Commits-bind _ _ (Commits-or_raise _ found) λ current.
        Commits-bind _ _ (Commits-raise_if _ _) λ _.
          Commits-bind _ _ (beside-Commits _ (update_checkpoint-IsBeside _ _ _)) λ rows.
            Commits-bind _ _ (Commits-raise_if _ _)
              λ _. Commits-bind _ _ (Commits-gets _) λ updated. Commits-or_raise _ updated

  apply_each-Commits :
      (stamps : ApplyStamps) (checkpoint : RunCheckpoint) (step_index : ℕ)
      (controls : List RunControl)
      → Commits P (apply_each stamps checkpoint step_index controls)
  unfolding apply_each
  apply_each-Commits stamps checkpoint step_index [] = Commits-pure tt
  apply_each-Commits stamps checkpoint step_index (c ∷ controls) =
      Commits-bind _ _ (mark_applied_in-Commits _ _ _) λ _.
        Commits-bind _ _ (s.append _ (control_applied-other _ checkpoint step_index c))
          λ _. apply_each-Commits stamps checkpoint step_index controls

  apply_unless_none-Commits :
      (stamps : ApplyStamps) (checkpoint : RunCheckpoint) (controls : List RunControl)
      → Commits P (apply_unless_none stamps checkpoint controls)
  unfolding apply_in
  apply_unless_none-Commits stamps checkpoint [] = Commits-pure checkpoint
  apply_unless_none-Commits stamps checkpoint (c ∷ controls) =
      Commits-bind _ _ (save_in-Commits _ _ _) λ saved.
        Commits-bind _ _ (apply_each-Commits stamps checkpoint saved.step_index (c ∷ controls))
          λ _. Commits-pure saved

  pub apply_before_model-Keeps :
      (stamps : ApplyStamps) (checkpoint : RunCheckpoint)
      → Keeps P (apply_before_model stamps checkpoint)
  unfolding apply_before_model
  apply_before_model-Keeps stamps checkpoint = Keeps-bind _ _ (Keeps-raise_if _ _) λ _.
      Keeps-transaction _ (
        Commits-bind _ _ (Commits-gets _)
          λ controls. apply_unless_none-Commits stamps checkpoint controls)

  pub enqueue-Keeps :
      (strip : String → String) (stamp event_stamp : Stamp) (run_id : String)
      (kind : RunControlKind) (content : String)
      → Keeps P (enqueue strip stamp event_stamp run_id kind content)
  unfolding enqueue
  enqueue-Keeps strip stamp event_stamp run_id kind content =
      Keeps-bind _ _ (Keeps-query _) λ control. Keeps-transaction _ (
        Commits-bind _ _ (Commits-gets _) λ found.
          Commits-bind _ _ (Commits-or_raise _ found) λ run.
            Commits-bind _ _ (Commits-raise_if _ _) λ _.
              Commits-bind _ _ (beside-Commits _ (create_in-IsBeside control)) λ _.
                Commits-bind _ _ (s.append _ (control_queued-other event_stamp control))
                  λ _. Commits-pure control)
