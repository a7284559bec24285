-- ===== src/Runtime/Observations/Recorded.antt =====
-- What `BoundedObservation.from_output` and `record_observation` leave.
use weatherflow.Prelude.{
  ℕ, ◌+◌, ◌<◌, ◌≤◌, ◌⊎◌, false, leb→le, String, Bool, true, none, some, [], ◌∷◌, ◌++◌, ◌≡◌, refl,
  ap, inl, inr, arith, leb, text_length, text_take, Bool-cases,
}
use weatherflow.Prelude.Text.{text_length-text_take}
use weatherflow.Json.{text, Object, end, field}
use weatherflow.Outcome.{ok, err, checkpoint_version_conflict, Result-cases}
use weatherflow.Table.{insert, Unique}
use weatherflow.Database.{Db, Tx, pure, transaction, ◌>>=◌, ◌>>◌}
use weatherflow.Events.Model.{Stamp, Event}
use weatherflow.Events.Ledger.{append_in}
use weatherflow.Runtime.Models.{RunCheckpoint}
use weatherflow.Runtime.Checkpoints.{checkpoint_key, get_in, saved, save_in}
use weatherflow.Runtime.Checkpoints.Swap.{
  IsSaved, save_in-IsSaved, save_in-swap, save_outcome, with_saved,
}
use weatherflow.Runtime.Observations.{
  BoundedObservation, from_output, max_chars, ObservedTurn, observed, observation_message,
  observation_event, record_observation,
}

-- The preview of an output: a text of at most `n` characters.
pub record IsPreview (n : ℕ) (whole : String) (d : Object) : Type 0 where
  pub preview : String
  pub only : d ≡ field "preview" (text preview) end
  pub cut : preview ≡ text_take n whole
  pub length : text_length preview ≡ n

-- The whole output is kept.
pub record IsWhole (n : ℕ) (dumps : Object → String) (output : Object) (o : BoundedObservation)
    : Type 0 where
  pub short : text_length (dumps output) ≤ n
  pub kept : o.output ≡ output
  pub not_truncated : o.truncated ≡ false

-- The output is cut.
pub record IsCut (n : ℕ) (dumps : Object → String) (output : Object) (o : BoundedObservation)
    : Type 0 where
  pub long : n < text_length (dumps output)
  pub preview : IsPreview n (dumps output) o.output
  pub is_truncated : o.truncated ≡ true

-- An observation counts the characters of the whole output's text. Where the text is at most as long
-- as the bound, it holds the output and says that it is not truncated; where the text is longer, it
-- holds a preview of exactly as many of the text's first characters as the bound, and says that it
-- is truncated.
pub from_output-bounded :
    (dumps : Object → String) (n : ℕ) (output : Object)
    → ((from_output dumps n output).original_chars ≡ text_length (dumps output))
      × (IsWhole n dumps output (from_output dumps n output)
          ⊎ IsCut n dumps output (from_output dumps n output))
unfolding from_output
from_output-bounded dumps n output = elim (Bool-cases (leb (text_length (dumps output)) n)) [
  | inl short ↦
      rw short (refl, inl (record { short = leb→le _ _ short; kept = refl; not_truncated = refl }))
  | inr long ↦ rw long (
    refl,
    inr (record {
      long = ground (arith, long);
      preview = record {
        preview = text_take n (dumps output);
        only = refl;
        cut = refl;
        length = ground (arith, text_length-text_take n (dumps output), long);
      };
      is_truncated = refl;
    }),
  )
]

-- Saving a checkpoint and appending an event, in one transaction.
abbrev recorded : ℕ → RunCheckpoint → ℕ → Event → Tx RunCheckpoint
recorded now checkpoint v e =
    transaction do saved ← save_in now checkpoint v; append_in e; pure saved

recorded-returned :
    (now : ℕ) (checkpoint done : RunCheckpoint) (v : ℕ) (e : Event) (db : Db)
    → Unique checkpoint_key db.checkpoints
    → (recorded now checkpoint v e db).0 ≡ ok done
    → (h : IsSaved now checkpoint v db) × (recorded now checkpoint v e db ≡ (
      ok (saved checkpoint now h.current),
      record (with_saved now checkpoint v db) { events = insert e db.events },
    ))
unfolding transaction ◌>>=◌ append_in
recorded-returned now checkpoint done v e db unique returned =
    elim (Result-cases (save_in now checkpoint v db).0) [
      | inl (x, r) ↦ absurd (ground (arith, r, returned))
      | inr (c, r) ↦
          let h = save_in-IsSaved now checkpoint c v db unique r in
          (h, ground (arith, h.whole, returned))
    ]

recorded-refused :
    (now : ℕ) (checkpoint row : RunCheckpoint) (v : ℕ) (e : Event) (db : Db)
    → Unique checkpoint_key db.checkpoints
    → get_in checkpoint.run_id db ≡ some row
    → row.version ≡ v + 1
    → recorded now checkpoint v e db ≡ (err checkpoint_version_conflict, db)
unfolding transaction ◌>>=◌ save_outcome
recorded-refused now checkpoint row v e db unique found later =
    ground (arith, save_in-swap now checkpoint v db unique, found, later)

module _ (dumps : Object → String) (checkpoint : RunCheckpoint) (db : Db)
    (unique : Unique checkpoint_key db.checkpoints) where
  -- Where `record_observation` returns, the stored checkpoint is the one that was returned, with one
  -- message more, the observation of the turn, and no pending action; the ledger has one event more;
  -- and recording from the same checkpoint again is refused and changes nothing.
  pub record_observation-once :
      (now later : ℕ) (stamp again : Stamp) (done : RunCheckpoint) (turn other : ObservedTurn)
      (output other_output : Object) (clear_pending : Bool) (batch_next_index : ℕ)
      (tool_free : Bool)
      → (record_observation dumps now stamp checkpoint turn output clear_pending batch_next_index
          tool_free db).0
        ≡ ok done
      → let after =
          (record_observation dumps now stamp checkpoint turn output clear_pending batch_next_index
            tool_free db).1 in
        (done.transcript
          ≡ checkpoint.transcript
            ++ observation_message dumps turn (from_output dumps max_chars output) ∷ [])
        × (done.pending_action_id ≡ none)
        × (get_in checkpoint.run_id after ≡ some done)
        × (after.events
            ≡ insert
                (observation_event stamp checkpoint turn
                  (from_output dumps max_chars output).truncated)
                db.events)
        × (record_observation dumps later again checkpoint other other_output clear_pending
              batch_next_index tool_free after
            ≡ (err checkpoint_version_conflict, after))
  unfolding record_observation observed saved get_in
  record_observation-once now later stamp again done turn other output other_output clear_pending
        batch_next_index tool_free returned =
      let next = observed dumps checkpoint turn output clear_pending batch_next_index tool_free in
      let e =
        observation_event stamp checkpoint turn (from_output dumps max_chars output).truncated in
      let (h, whole) = recorded-returned now next done checkpoint.version e db unique returned in
      let made : done ≡ saved next now h.current = ground (arith, whole, returned) in
      let refused =
        recorded-refused later
          (observed dumps checkpoint other other_output clear_pending batch_next_index tool_free)
          (saved next now h.current) checkpoint.version
          (observation_event again checkpoint other
            (from_output dumps max_chars other_output).truncated)
          (record (with_saved now next checkpoint.version db) { events = insert e db.events })
          h.unique h.row (ap (λ n. n + 1) h.version) in
      rw (whole, made) (refl, refl, h.row, refl, refused)
