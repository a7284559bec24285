-- ===== src/Runtime/Controls/Applied.antt =====
-- Controls of core/src/weatherflow/runtime/controls.py are applied once.
use weatherflow.Prelude.{
  false, List, [], ◌∷◌, ◌++◌, map, ◌≡◌, refl, sym, ap, ◌∙◌, subst, inl, inr, arith, append-nil,
  Bool-cases,
}
use weatherflow.Json.{pop, get-pop}
use weatherflow.Json as Json
use weatherflow.Outcome.{Result, ok, Result-cases}
use weatherflow.Table.{Unique}
use weatherflow.Database.{Db, ◌>>=◌, transaction}
use weatherflow.Runtime.Models.{RunCheckpoint, RunControl}
use weatherflow.Runtime.Checkpoints.{checkpoint_key}
use weatherflow.Runtime.Controls.{
  only_steer, list_pending_in, apply_in, ApplyStamps, user_message, apply_before_model, is_present,
}
use weatherflow.Runtime.Controls.Marked.{Left, list_pending_in-Left}
use weatherflow.Runtime.Controls.Steered.{apply_in-IsSteered}

-- `apply_before_model` where no control awaits.
apply_before_model-idle :
    (stamps : ApplyStamps) (checkpoint : RunCheckpoint) (db : Db)
    → is_present (Json.get "pending_turn" checkpoint.state) ≡ false
    → list_pending_in checkpoint.run_id only_steer db ≡ []
    → apply_before_model stamps checkpoint db ≡ (ok checkpoint, db)
unfolding apply_before_model transaction ◌>>=◌
apply_before_model-idle stamps checkpoint db clear idle = rw (clear, idle) refl

apply_before_model-clear :
    (stamps : ApplyStamps) (checkpoint done : RunCheckpoint) (db : Db)
    → (apply_before_model stamps checkpoint db).0 ≡ ok done
    → is_present (Json.get "pending_turn" checkpoint.state) ≡ false
unfolding apply_before_model transaction ◌>>=◌
apply_before_model-clear stamps checkpoint done db returned =
    ground (arith, returned, Bool-cases (is_present (Json.get "pending_turn" checkpoint.state)))

-- What `apply_before_model` comes to when it returns and controls await.
apply_before_model-applies :
    (stamps : ApplyStamps) (checkpoint done : RunCheckpoint) (first : RunControl)
    (rest : List RunControl) (db : Db)
    → list_pending_in checkpoint.run_id only_steer db ≡ first ∷ rest
    → (apply_before_model stamps checkpoint db).0 ≡ ok done
    → ((apply_in stamps checkpoint (first ∷ rest) db).0 ≡ ok done)
      × (apply_before_model stamps checkpoint db ≡ apply_in stamps checkpoint (first ∷ rest) db)
unfolding apply_before_model transaction ◌>>=◌
apply_before_model-applies stamps checkpoint done first rest db found returned =
    let clear = apply_before_model-clear stamps checkpoint done db returned in
    elim (Result-cases (apply_in stamps checkpoint (first ∷ rest) db).0) [
      | inl (e, r) ↦ absurd (ground (arith, clear, found, returned, r))
      | inr (d, r) ↦ ground (arith, clear, found, returned, r)
    ]

-- What has been applied, and that applying again changes nothing.
abbrev AppliesOnce :
    ApplyStamps
    → RunCheckpoint
    → RunCheckpoint
    → List RunControl
    → Result RunCheckpoint × Db
    → Type 0
AppliesOnce again checkpoint done controls after =
    (done.transcript ≡ checkpoint.transcript ++ map user_message controls)
    × (list_pending_in checkpoint.run_id only_steer after.1 ≡ [])
    × (apply_before_model again done after.1 ≡ (ok done, after.1))

apply_before_model-AppliesOnce :
    (stamps again : ApplyStamps) (checkpoint done : RunCheckpoint) (controls : List RunControl)
    (db : Db)
    → Unique checkpoint_key db.checkpoints
    → list_pending_in checkpoint.run_id only_steer db ≡ controls
    → (apply_before_model stamps checkpoint db).0 ≡ ok done
    → AppliesOnce again checkpoint done controls (apply_before_model stamps checkpoint db)
apply_before_model-AppliesOnce stamps again checkpoint done [] db unique found returned =
    let clear = apply_before_model-clear stamps checkpoint done db returned in
    let idle = apply_before_model-idle stamps checkpoint db clear found in
    let same : checkpoint ≡ done = ground (arith, idle, returned) in
    rw (idle, sym same)
      (
        sym (append-nil checkpoint.transcript),
        found,
        apply_before_model-idle again checkpoint db clear found,
      )
apply_before_model-AppliesOnce stamps again checkpoint done (c ∷ controls) db unique found
      returned =
    let (applied_as, whole) =
      apply_before_model-applies stamps checkpoint done c controls db found returned in
    let left =
      subst (λ cs. Left checkpoint.run_id only_steer cs db) found
        (list_pending_in-Left checkpoint.run_id only_steer db) in
    let (steady, none_awaits) =
      apply_in-IsSteered only_steer stamps checkpoint done (c ∷ controls) db unique left
        applied_as in
    rw whole (
      steady.transcript,
      none_awaits,
      apply_before_model-idle again done _ (ap is_present steady.no_turn) (
          ap (λ r. list_pending_in r only_steer (apply_in stamps checkpoint (c ∷ controls) db).1)
            steady.same_run
          ∙ none_awaits),
    )

-- Where `apply_before_model` returns, the run's pending steering messages, oldest first, have been
-- appended to the transcript, none of them is pending any more, and applying again to the checkpoint
-- it returned changes nothing.
pub apply_before_model-once :
    (stamps again : ApplyStamps) (checkpoint done : RunCheckpoint) (db : Db)
    → Unique checkpoint_key db.checkpoints
    → (apply_before_model stamps checkpoint db).0 ≡ ok done
    → (done.transcript
        ≡ checkpoint.transcript
          ++ map user_message (list_pending_in checkpoint.run_id only_steer db))
      × (list_pending_in checkpoint.run_id only_steer (apply_before_model stamps checkpoint db).1
          ≡ [])
      × (apply_before_model again done (apply_before_model stamps checkpoint db).1
          ≡ (ok done, (apply_before_model stamps checkpoint db).1))
apply_before_model-once stamps again checkpoint done db unique =
    apply_before_model-AppliesOnce stamps again checkpoint done _ db unique refl
