-- ===== src/Continuations/Resuming.antt =====
-- A run's first saved continuation is what `require_for_run` gives:
-- core/src/weatherflow/continuations/repository.py.
use weatherflow.Prelude.{
  ℕ, ◌+◌, ◌<◌, String, Bool, true, not, some, List, [], ◌∷◌, ◌≡◌, refl, arith, ◌==◌, leb, eq_refl,
  if◌then◌else◌,
}
use weatherflow.Json.{obj, Object}
use weatherflow.Outcome.{ok}
use weatherflow.Table.{filter, insert}
use weatherflow.Table.Order.{order_by}
use weatherflow.Database.{Db, transaction, ◌>>=◌}
use weatherflow.Continuations.Model.{ProviderContinuation, SealedContinuation}
use weatherflow.Continuations.Crypto.{IsLawful}
use weatherflow.Continuations.Repository.{
  Settings, save_in, decode_all, delete_expired, delete_expired_in, any_mismatch, has_step,
  has_steps, rows_of, require_for_run,
}
use weatherflow.Continuations.Sealing.{IsStored, save_in-IsStored}

filter-insert {ℓ} :
    {V : Type ℓ} (p : V → Bool) (v : V) (rows : List V)
    → filter p (insert v rows) ≡ (if p v then insert v (filter p rows) else filter p rows)
unfolding filter
filter-insert p v [] = refl
filter-insert p v (w ∷ rows) = ground (arith, filter-insert p v rows)

-- The rows of a run that has none, after one was inserted and the expired were deleted.
filter-first {ℓ} :
    {V : Type ℓ} (p q : V → Bool) (v : V) (rows : List V)
    → filter p rows ≡ []
    → p v ≡ true
    → q v ≡ true
    → filter p (filter q (insert v rows)) ≡ v ∷ []
unfolding filter
filter-first p q v [] h hp hq = ground (arith, hp, hq)
filter-first p q v (w ∷ rows) h hp hq = ground (arith, filter-first p q v rows, h, hp, hq)

pub delete_expired-ok : (now : ℕ) (db : Db) → (n : ℕ) × ((delete_expired now db).0 ≡ ok n)
unfolding delete_expired delete_expired_in transaction
delete_expired-ok now db = (_, refl)

module _ (s : Settings) (lawful : IsLawful s.lib) where
  rows_of-first :
      (now later : ℕ) (run_id : String) (step_index : ℕ) (provider model : String)
      (payload : Object) (retention : ℕ) (c : ProviderContinuation) (db after : Db)
      → (h : IsStored s lawful now run_id step_index provider model payload retention c db after)
      → filter (λ (r : SealedContinuation). r.run_id == run_id) db.continuations ≡ []
      → later < now + retention
      → rows_of run_id (delete_expired later after).1 ≡ h.row ∷ []
  unfolding rows_of delete_expired delete_expired_in transaction order_by
  rows_of-first now later run_id step_index provider model payload retention c db after h fresh
        alive =
      let mine = λ (r : SealedContinuation). r.run_id == run_id in
      let kept = λ (r : SealedContinuation). not (leb r.expires_at later) in
      let is_mine : mine h.row ≡ true = ground (arith, h.of_run, eq_refl run_id) in
      let is_kept : kept h.row ≡ true = ground (arith, h.expires, alive) in
      rw (h.stored, filter-first mine kept h.row db.continuations fresh is_mine is_kept) refl

  -- A saved continuation is what `require_for_run` gives for its run, provider and model until it
  -- expires, if the run had none before, and JSON's parser reads the text of the payload back.
  pub require_for_run-saved :
      (now later : ℕ) (nonce run_id : String) (step_index : ℕ) (provider model : String)
      (payload : Object) (retention : ℕ) (c : ProviderContinuation) (db : Db)
      → s.lib.loads (s.lib.canonical payload) ≡ some (obj payload)
      → filter (λ (r : SealedContinuation). r.run_id == run_id) db.continuations ≡ []
      → (save_in s now nonce run_id step_index provider model payload retention db).0 ≡ ok c
      → later < now + retention
      → (c.payload ≡ payload)
        × ((require_for_run s later run_id provider model
              (step_index ∷ [])
              (save_in s now nonce run_id step_index provider model payload retention db).1).0
            ≡ ok (c ∷ []))
  unfolding require_for_run ◌>>=◌ any_mismatch decode_all has_steps has_step
  require_for_run-saved now later nonce run_id step_index provider model payload retention c db
        reads fresh returned alive =
      let after = (save_in s now nonce run_id step_index provider model payload retention db).1 in
      let h =
        save_in-IsStored s lawful now nonce run_id step_index provider model payload retention c db
          reads returned in
      let rows =
        rows_of-first now later run_id step_index provider model payload retention c db after h
          fresh alive in
      ground (
        arith,
        rows,
        h.decodes,
        h.made,
        h.of_provider,
        h.of_model,
        eq_refl provider,
        eq_refl model,
        delete_expired-ok later after,
      )
