-- ===== src/Examples/Controls.antt =====
-- A run that is steered.
use weatherflow.Prelude.{
  ℕ, ◌+◌, String, ◌≡◌, refl, none, some, List, [], ◌∷◌, ◌++◌, map, if◌then◌else◌, is_some,
}
use weatherflow.Outcome.{ok, err, checkpoint_version_conflict}
use weatherflow.Json.{end, field, num}
use weatherflow.Table.{lookup}
use weatherflow.Database.Effect.{row_after, left_by}
use weatherflow.Database.{Db, empty}
use weatherflow.Runs.Status.{RunStatus}
use weatherflow.Runs.Model.{Run}
use weatherflow.Runs.Repository
use weatherflow.Runtime.Models.{
  AgentMessage, RunCheckpoint, RunControl, RunControlKind, RunControlStatus, QuarantinedCheckpoint,
  new_checkpoint,
}
use weatherflow.Runtime.Checkpoints
use weatherflow.Runtime.Checkpoints.{quarantine_key, save_in, saved, quarantine}
use weatherflow.Runtime.Checkpoints.Swap.{
  save_in-eq, save_in-once, save_result, quarantine-first, set_aside,
}
use weatherflow.Runtime.Controls.{
  only_steer, ApplyStamps, apply_before_model, list_pending_in, steered, user_message,
}
use weatherflow.Runtime.Controls.Applied.{apply_before_model-once}
use weatherflow.Examples.Fixtures.{stamp, run}

abbrev running : Run
running = run RunStatus.running 2 3

abbrev pub checkpoint : RunCheckpoint
checkpoint = record {
  run_id = "r";
  version = 4;
  step_index = 2;
  transcript = [];
  state = field "batch_next_index" (num 1) end;
  pending_action_id = none;
  updated_at = 3;
}

abbrev control : RunControl
control = record {
  id = "c";
  run_id = "r";
  kind = RunControlKind.steer;
  content = "be brief";
  status = RunControlStatus.pending;
  created_at = 5;
  applied_at = none;
  applied_step_index = none;
}

abbrev pub accepting : Db
accepting = record empty { runs = running ∷ []; checkpoints = checkpoint ∷ [] }

abbrev steering : Db
steering = record accepting { controls = control ∷ [] }

abbrev saved_checkpoint : RunCheckpoint
saved_checkpoint = saved (steered checkpoint (control ∷ [])) 6 checkpoint

abbrev apply_stamps : ApplyStamps
apply_stamps = record { saved_at = 6; applied_at = 7; event = λ c. stamp "e6" 7 }

applied_once : (apply_before_model apply_stamps checkpoint steering).0 ≡ ok saved_checkpoint
unfolding apply_before_model weatherflow.Database.◌>>=◌ weatherflow.Json.get
    weatherflow.Database.transaction list_pending_in weatherflow.Table.Order.order_by
    weatherflow.Table.filter weatherflow.Runtime.Controls.awaits
    weatherflow.Runtime.Controls.apply_in save_in lookup steered weatherflow.Table.rowcount
    weatherflow.Table.update_where weatherflow.Events.Ledger.append_in
applied_once = refl

apply_before_model-once_example :
    (saved_checkpoint.transcript ≡ [] ++ map user_message (list_pending_in "r" only_steer steering))
    × (list_pending_in "r" only_steer (apply_before_model apply_stamps checkpoint steering).1 ≡ [])
    × (apply_before_model apply_stamps saved_checkpoint
          (apply_before_model apply_stamps checkpoint steering).1
        ≡ (ok saved_checkpoint, (apply_before_model apply_stamps checkpoint steering).1))
unfolding lookup
apply_before_model-once_example =
    apply_before_model-once apply_stamps apply_stamps checkpoint saved_checkpoint steering
      (refl, tt) applied_once

save_in-eq_example :
    let t = save_in 6 checkpoint 4 accepting in
    let expected =
      save_result 6 checkpoint 4 (lookup Checkpoints.checkpoint_key "r" accepting.checkpoints) in
    (t.0 ≡ expected)
    × (lookup Checkpoints.checkpoint_key "r" t.1.checkpoints
        ≡ row_after expected "r" "r" (lookup Checkpoints.checkpoint_key "r" accepting.checkpoints))
    × (t.1 ≡ left_by expected accepting (record accepting { checkpoints = t.1.checkpoints }))
unfolding lookup
save_in-eq_example = save_in-eq 6 checkpoint 4 accepting "r" (refl, tt)

save_in-once_example :
    (Checkpoints.get_in "r" (save_in 6 checkpoint 4 accepting).1
      ≡ some (saved checkpoint 6 checkpoint))
    × ((saved checkpoint 6 checkpoint).version ≡ 5)
    × (save_in 8 saved_checkpoint 4 (save_in 6 checkpoint 4 accepting).1
        ≡ (err checkpoint_version_conflict, (save_in 6 checkpoint 4 accepting).1))
unfolding lookup saved save_in weatherflow.Database.◌>>=◌ weatherflow.Table.rowcount
    weatherflow.Table.update_where
save_in-once_example =
    save_in-once 6 8 checkpoint saved_checkpoint (saved checkpoint 6 checkpoint) 4 accepting
      (refl, tt) refl refl

abbrev digest : String
digest = "2c26b46b"

quarantine-first_example :
    (digest ≡ digest)
    × (Checkpoints.get_in "r" (quarantine (λ c. "row") (λ s. digest) 9 "r" "corrupt" accepting).1
        ≡ none)
    × (lookup quarantine_key "r"
          (quarantine (λ c. "row") (λ s. digest) 9 "r" "corrupt" accepting).1.quarantine
        ≡ some (set_aside (λ c. "row") (λ s. digest) 9 "r" "corrupt" checkpoint))
unfolding Checkpoints.get_in lookup quarantine weatherflow.Database.transaction
    weatherflow.Database.◌>>=◌
quarantine-first_example =
    quarantine-first (λ c. "row") (λ s. digest) 9 "r" "corrupt" digest accepting checkpoint refl
      refl
