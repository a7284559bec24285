-- ===== src/Continuations/Fitness.antt =====
-- What `require_for_run` of core/src/weatherflow/continuations/repository.py gives is fit to resume
-- with.
use weatherflow.Prelude.{
  ℕ, ◌<◌, String, true, false, not, List, [], ◌∷◌, ◌≡◌, sym, ap, ◌∙◌, subst, inl, inr, arith, ◌==◌,
  leb, eq_iff, All, Bool-cases,
}
use weatherflow.Outcome.{Result, ok, err, Result-cases}
use weatherflow.Table.{filter}
use weatherflow.Table.Order.Laws.{filter-All, All-filter, All-order_by}
use weatherflow.Database.{Db, transaction, ◌>>=◌}
use weatherflow.Continuations.Model.{ProviderContinuation, SealedContinuation, validate}
use weatherflow.Continuations.Crypto.{decrypt}
use weatherflow.Continuations.Repository.{
  Settings, metadata, decode, decode_all, delete_expired, delete_expired_in, any_mismatch,
  has_steps, rows_of, require_for_run, decode_fields,
}
use weatherflow.Continuations.Resuming.{delete_expired-ok}

-- What `require_for_run` gives is of the provider and model asked for, has not expired, and has every
-- step that is required.
pub record IsFit (now : ℕ) (run_id provider model : String) (c : ProviderContinuation)
    : Type 0 where
  pub of_run : c.run_id ≡ run_id
  pub of_provider : c.provider ≡ provider
  pub of_model : c.model ≡ model
  pub alive : now < c.expires_at

module _ (s : Settings) where
  decoded_fields :
      (r : SealedContinuation) (v : Result ProviderContinuation) (c : ProviderContinuation)
      → decode_fields s r v ≡ ok c
      → (c.run_id ≡ r.run_id)
        × (c.provider ≡ r.provider)
        × (c.model ≡ r.model)
        × (c.expires_at ≡ r.expires_at)
  unfolding validate
  decoded_fields r (err e) c decoded = cc
  decoded_fields r (ok d) c decoded =
      elim (Result-cases
        (decrypt s.lib s.key (metadata s.isoformat d) r.nonce r.ciphertext r.payload_sha256)) [
          | inl (e, q) ↦ absurd (ground (arith, q, decoded))
          | inr (payload, q) ↦ ground (arith, q, decoded)
        ]

  decode-fields :
      (r : SealedContinuation) (c : ProviderContinuation)
      → decode s r ≡ ok c
      → (c.run_id ≡ r.run_id)
        × (c.provider ≡ r.provider)
        × (c.model ≡ r.model)
        × (c.expires_at ≡ r.expires_at)
  unfolding decode
  decode-fields r c decoded = decoded_fields r _ c decoded

  -- A row of the run, of the provider and model, that has not expired.
  abbrev Wanted : ℕ → String → String → String → SealedContinuation → Type 0
  Wanted now run_id provider model r =
      (r.run_id ≡ run_id) × (now < r.expires_at) × (r.provider ≡ provider) × (r.model ≡ model)

  decode_all-IsFit :
      (now : ℕ) (run_id provider model : String) (rows : List SealedContinuation)
      (values : List ProviderContinuation)
      → All (Wanted now run_id provider model) rows
      → decode_all s rows ≡ ok values
      → All (IsFit now run_id provider model) values
  unfolding decode_all
  decode_all-IsFit now run_id provider model [] values h decoded =
      let made : [] ≡ values = ground (arith, decoded) in
      subst (All (IsFit now run_id provider model)) made tt
  decode_all-IsFit now run_id provider model (r ∷ rows) values (h, hs) decoded =
      elim (Result-cases (decode s r)) [
        | inl (e, q) ↦ absurd (ground (arith, q, decoded))
        | inr (c, q) ↦ elim (Result-cases (decode_all s rows)) [
          | inl (e, qs) ↦ absurd (ground (arith, q, qs, decoded))
          | inr (cs, qs) ↦
              let fields = decode-fields r c q in
              let made : (c ∷ cs) ≡ values = ground (arith, q, qs, decoded) in
              subst (All (IsFit now run_id provider model)) made (
                record {
                  of_run = ground (arith, fields, h);
                  of_provider = ground (arith, fields, h);
                  of_model = ground (arith, fields, h);
                  alive = ground (arith, fields, h);
                },
                decode_all-IsFit now run_id provider model rows cs hs qs,
              )
        ]
      ]

  matching-All :
      (now : ℕ) (run_id provider model : String) (rows : List SealedContinuation)
      → any_mismatch provider model rows ≡ false
      → All (λ r. (r.run_id == run_id) ≡ true) rows
      → All (λ r. not (leb r.expires_at now) ≡ true) rows
      → All (Wanted now run_id provider model) rows
  unfolding any_mismatch
  matching-All now run_id provider model [] h k l = tt
  matching-All now run_id provider model (r ∷ rows) h (k, ks) (l, ls) = (
    ground
        (arith, h, k, l, eq_iff r.run_id run_id, eq_iff r.provider provider, eq_iff r.model model),
    matching-All now run_id provider model rows (ground (arith, h)) ks ls,
  )

  rows_of-All :
      (now : ℕ) (run_id : String) (db : Db)
      → All (λ r. (r.run_id == run_id) ≡ true) (rows_of run_id (delete_expired now db).1)
        × All (λ r. not (leb r.expires_at now) ≡ true) (rows_of run_id (delete_expired now db).1)
  unfolding rows_of delete_expired delete_expired_in transaction
  rows_of-All now run_id db =
      let kept = filter (λ (r : SealedContinuation). not (leb r.expires_at now)) db.continuations in
      let mine = λ (r : SealedContinuation). r.run_id == run_id in
      (
        All-order_by _ _ (filter mine kept) (All-filter mine kept),
        All-order_by _ _ (filter mine kept) (
            filter-All (λ r. not (leb r.expires_at now) ≡ true) mine kept
              (All-filter (λ (r : SealedContinuation). not (leb r.expires_at now))
                db.continuations)),
      )

  -- Every continuation that `require_for_run` returns is of the run, the provider and the model that
  -- were asked for and has not expired, and every required step is among them.
  pub require_for_run-IsFit :
      (now : ℕ) (run_id provider model : String) (required_steps : List ℕ)
      (values : List ProviderContinuation) (db : Db)
      → (require_for_run s now run_id provider model required_steps db).0 ≡ ok values
      → All (IsFit now run_id provider model) values × (has_steps required_steps values ≡ true)
  unfolding require_for_run ◌>>=◌
  require_for_run-IsFit now run_id provider model required_steps values db returned =
      let after = (delete_expired now db).1 in
      let rows = rows_of run_id after in
      let (mine, alive) = rows_of-All now run_id db in
      elim (Bool-cases (any_mismatch provider model rows)) [
        | inl mismatch ↦ absurd (ground (arith, mismatch, returned, delete_expired-ok now db))
        | inr matching ↦ elim (Result-cases (decode_all s rows)) [
          | inl (e, q) ↦ absurd (ground (arith, matching, q, returned, delete_expired-ok now db))
          | inr (cs, q) ↦ elim (Bool-cases (has_steps required_steps cs)) [
            | inr missing ↦
                absurd (ground (arith, matching, q, missing, returned, delete_expired-ok now db))
            | inl complete ↦
                let same : cs ≡ values =
                  ground (arith, matching, q, complete, returned, delete_expired-ok now db) in
                (
                  subst (All (IsFit now run_id provider model)) same (
                      decode_all-IsFit now run_id provider model rows cs
                        (matching-All now run_id provider model rows matching mine alive) q),
                  ap (has_steps required_steps) (sym same) ∙ complete,
                )
          ]
        ]
      ]
