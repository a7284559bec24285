-- ===== src/Continuations/Repository.antt =====
-- `ProviderContinuationRepository` of core/src/weatherflow/continuations/repository.py
use weatherflow.Prelude.{
  ℕ, ◌+◌, String, Bool, true, false, not, ◌&&◌, ◌||◌, Option, List, [], ◌∷◌, ◌==◌, ◌=?◌, ltb, leb,
  if◌then◌else◌, is_some, text_length,
}
use weatherflow.Json.{num, text, Object, end, field}
use weatherflow.Outcome.{Result, ok, err, value_error, continuation_unavailable}
use weatherflow.Table.{filter, rowcount, insert, lookup}
use weatherflow.Table.Order.{order_by}
use weatherflow.Database.{Db, Tx, pure, gets, query, raise_if, ◌>>=◌, ◌>>◌, transaction}
use weatherflow.Runs.Repository.{run_key}
use weatherflow.Continuations.Model.{ProviderContinuation, SealedContinuation, validate}
use weatherflow.Continuations.Crypto.{Library, EncryptedContinuation, encrypt, decrypt}

-- `SCHEMA_VERSION`
abbrev pub schema_version : ℕ
schema_version = 1

-- `DEFAULT_CONTINUATION_RETENTION`, seven days in microseconds.
abbrev pub default_retention : ℕ
default_retention = 604_800_000_000

-- `_metadata`
unfoldable pub metadata : (ℕ → String) → ProviderContinuation → Object
metadata isoformat c = field "schema_version" (num schema_version) (
    field "run_id" (text c.run_id) (
      field "step_index" (num c.step_index) (
        field "provider" (text c.provider) (
          field "model" (text c.model) (
            field "created_at" (text (isoformat c.created_at))
              (field "expires_at" (text (isoformat c.expires_at)) end))))))

abbrev pub same_step : String → ℕ → SealedContinuation → Bool
same_step run_id step_index r = (r.run_id == run_id) && (r.step_index =? step_index)

-- The constraints of the table: its key, the run that it references, and its checks.
unfoldable pub accepts : SealedContinuation → Db → Bool
accepts r db =
    (rowcount (same_step r.run_id r.step_index) db.continuations =? 0)
    && (is_some (lookup run_key r.run_id db.runs)
        && (ltb 0 r.step_index
            && ((r.schema_version =? 1)
                && ((text_length r.nonce =? 12) && (text_length r.payload_sha256 =? 64)))))

unfoldable pub insert_sealed : SealedContinuation → Tx (Unit {0})
unfolding accepts
insert_sealed r db =
    if accepts r db
    then (ok tt, record db { continuations = insert r db.continuations })
    else (err continuation_unavailable, db)

abbrev pub sealed : ProviderContinuation → EncryptedContinuation → SealedContinuation
sealed c e = record {
  run_id = c.run_id;
  step_index = c.step_index;
  provider = c.provider;
  model = c.model;
  schema_version = schema_version;
  nonce = e.nonce;
  ciphertext = e.ciphertext;
  payload_sha256 = e.payload_sha256;
  created_at = c.created_at;
  expires_at = c.expires_at;
}

-- What the repository is built with, and the text of an instant.
pub record Settings : Type 0 where
  pub lib : Library
  pub key : Option String
  pub isoformat : ℕ → String

-- `save_in`; `nonce` is what the cipher draws.
unfoldable pub save_in :
    Settings → ℕ → String → String → ℕ → String → String → Object → ℕ → Tx ProviderContinuation
unfolding insert_sealed
save_in s now nonce run_id step_index provider model payload retention = do
  raise_if ((retention =? 0) || ltb default_retention retention) value_error
  continuation ← query λ db. validate s.lib.canonical (record {
    provider = provider;
    model = model;
    payload = payload;
    run_id = run_id;
    step_index = step_index;
    created_at = now;
    expires_at = now + retention;
  })
  encrypted ←
      query λ db. encrypt s.lib s.key nonce (metadata s.isoformat continuation) continuation.payload
  insert_sealed (sealed continuation encrypted)
  pure continuation

unfoldable pub save :
    Settings → ℕ → String → String → ℕ → String → String → Object → ℕ → Tx ProviderContinuation
save s now nonce run_id step_index provider model payload retention =
    transaction (save_in s now nonce run_id step_index provider model payload retention)

-- A row's fields, with a payload.
abbrev pub with_payload : SealedContinuation → Object → ProviderContinuation
with_payload r payload = record {
  provider = r.provider;
  model = r.model;
  payload = payload;
  run_id = r.run_id;
  step_index = r.step_index;
  created_at = r.created_at;
  expires_at = r.expires_at;
}

abbrev placeholder : Object
placeholder = field "role" (text "assistant") end

abbrev pub validated : Settings → SealedContinuation → Result Object → Result ProviderContinuation
validated s r (err e) = err e
validated s r (ok payload) = elim (validate s.lib.canonical (with_payload r payload)) [
  | err e ↦ err continuation_unavailable
  | ok c ↦ ok c
]

abbrev pub decode_fields :
    Settings → SealedContinuation → Result ProviderContinuation → Result ProviderContinuation
decode_fields s r (err e) = err e
decode_fields s r (ok c) =
    if r.schema_version =? schema_version
    then validated s r
        (decrypt s.lib s.key (metadata s.isoformat c) r.nonce r.ciphertext r.payload_sha256)
    else err continuation_unavailable

-- `_decode`
unfoldable pub decode : Settings → SealedContinuation → Result ProviderContinuation
decode s r = decode_fields s r (validate s.lib.canonical (with_payload r placeholder))

abbrev pub cons_result :
    Result ProviderContinuation
    → Result (List ProviderContinuation)
    → Result (List ProviderContinuation)
cons_result (err e) rest = err e
cons_result (ok c) (err e) = err e
cons_result (ok c) (ok cs) = ok (c ∷ cs)

unfoldable pub decode_all : Settings → List SealedContinuation → Result (List ProviderContinuation)
unfolding decode
decode_all s [] = ok []
decode_all s (r ∷ rows) = cons_result (decode s r) (decode_all s rows)

unfoldable pub delete_expired_in : ℕ → Tx ℕ
delete_expired_in now db =
    let expired = λ (r : SealedContinuation). leb r.expires_at now in
    (
      ok (rowcount expired db.continuations),
      record db { continuations = filter (λ r. not (expired r)) db.continuations },
    )

unfoldable pub delete_expired : ℕ → Tx ℕ
delete_expired now = transaction (delete_expired_in now)

unfoldable pub delete_run_in : String → Tx ℕ
delete_run_in run_id db =
    let of_run = λ (r : SealedContinuation). r.run_id == run_id in
    (
      ok (rowcount of_run db.continuations),
      record db { continuations = filter (λ r. not (of_run r)) db.continuations },
    )

unfoldable pub delete_run : String → Tx ℕ
delete_run run_id = transaction (delete_run_in run_id)

-- Some row is of another provider or model.
unfoldable pub any_mismatch : String → String → List SealedContinuation → Bool
any_mismatch provider model [] = false
any_mismatch provider model (r ∷ rows) =
    (not (r.provider == provider) || not (r.model == model)) || any_mismatch provider model rows

unfoldable pub has_step : ℕ → List ProviderContinuation → Bool
has_step n [] = false
has_step n (c ∷ cs) = (c.step_index =? n) || has_step n cs

unfoldable pub has_steps : List ℕ → List ProviderContinuation → Bool
unfolding has_step
has_steps [] cs = true
has_steps (n ∷ ns) cs = has_step n cs && has_steps ns cs

-- SELECT * FROM provider_continuations WHERE run_id = ? ORDER BY step_index
unfoldable pub rows_of : String → Db → List SealedContinuation
rows_of run_id db =
    order_by (λ a b. ltb a.step_index b.step_index)
      (filter (λ r. r.run_id == run_id) db.continuations)

unfoldable pub require_for_run :
    Settings → ℕ → String → String → String → List ℕ → Tx (List ProviderContinuation)
require_for_run s now run_id provider model required_steps = do
  delete_expired now
  rows ← gets (rows_of run_id)
  raise_if (any_mismatch provider model rows) continuation_unavailable
  values ← query λ db. decode_all s rows
  raise_if (not (has_steps required_steps values)) continuation_unavailable
  pure values
