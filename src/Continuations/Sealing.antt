-- ===== src/Continuations/Sealing.antt =====
-- What ProviderContinuationRepository of core/src/weatherflow/continuations/repository.py saves can be
-- read back.
use weatherflow.Prelude.{
  ℕ, ◌+◌, String, true, ◌||◌, some, ◌≡◌, refl, sym, ap, ◌∙◌, inl, inr, arith, ◌=?◌, ltb, eq_refl,
  text_length, Bool-cases,
}
use weatherflow.Json.{Json, obj, text, Object, end, field}
use weatherflow.Json as Json
use weatherflow.Outcome.{ok, Result-cases}
use weatherflow.Table.{insert}
use weatherflow.Database.{Db, ◌>>=◌}
use weatherflow.Continuations.Model.{
  ProviderContinuation, SealedContinuation, validate, is_valid, bounded_payload,
}
use weatherflow.Continuations.Crypto.{IsLawful, EncryptedContinuation, cipher_key, encrypt, decrypt}
use weatherflow.Continuations.Repository.{
  Settings, default_retention, metadata, sealed, insert_sealed, save_in, decode,
}

module _ (s : Settings) (lawful : IsLawful s.lib) where
  -- Decryption undoes encryption, for a payload whose canonical text JSON's parser reads back.
  decrypt-encrypt :
      (nonce : String) (meta payload : Object) (e : EncryptedContinuation)
      → s.lib.loads (s.lib.canonical payload) ≡ some (obj payload)
      → encrypt s.lib s.key nonce meta payload ≡ ok e
      → decrypt s.lib s.key meta e.nonce e.ciphertext e.payload_sha256 ≡ ok payload
  unfolding encrypt decrypt
  decrypt-encrypt nonce meta payload e reads encrypted = elim (Result-cases (cipher_key s.key)) [
    | inl (x, r) ↦ ground (arith, r, encrypted)
    | inr (key, r) ↦ ground (
      arith,
      r,
      encrypted,
      reads,
      lawful.decrypts key nonce (s.lib.canonical payload) (s.lib.canonical meta),
      eq_refl (s.lib.sha256 (s.lib.canonical payload)),
    )
  ]

  role_bounded : bounded_payload s.lib.canonical (field "role" (text "assistant") end) ≡ true
  unfolding bounded_payload text_length Json.get
  role_bounded = rw lawful.role_text refl

  -- A valid continuation that is encrypted and stored decodes to itself.
  decode-sealed :
      (nonce : String) (c : ProviderContinuation) (e : EncryptedContinuation)
      → is_valid s.lib.canonical c ≡ true
      → s.lib.loads (s.lib.canonical c.payload) ≡ some (obj c.payload)
      → encrypt s.lib s.key nonce (metadata s.isoformat c) c.payload ≡ ok e
      → decode s (sealed c e) ≡ ok c
  unfolding decode validate is_valid metadata
  decode-sealed nonce c e valid reads encrypted = ground (
    arith,
    valid,
    role_bounded,
    decrypt-encrypt nonce (metadata s.isoformat c) c.payload e reads encrypted,
  )

  -- What a save that returns stores.
  pub record IsStored (now : ℕ) (run_id : String) (step_index : ℕ) (provider model : String)
      (payload : Object) (retention : ℕ) (c : ProviderContinuation) (db after : Db) : Type 0 where
    pub row : SealedContinuation
    pub made : c ≡ record {
      provider = provider;
      model = model;
      payload = payload;
      run_id = run_id;
      step_index = step_index;
      created_at = now;
      expires_at = now + retention;
    }
    pub stored : after.continuations ≡ insert row db.continuations
    pub decodes : decode s row ≡ ok c
    pub of_run : row.run_id ≡ run_id
    pub of_provider : row.provider ≡ provider
    pub of_model : row.model ≡ model
    pub expires : row.expires_at ≡ now + retention

  pub save_in-IsStored :
      (now : ℕ) (nonce run_id : String) (step_index : ℕ) (provider model : String)
      (payload : Object) (retention : ℕ) (c : ProviderContinuation) (db : Db)
      → s.lib.loads (s.lib.canonical payload) ≡ some (obj payload)
      → (save_in s now nonce run_id step_index provider model payload retention db).0 ≡ ok c
      → IsStored now run_id step_index provider model payload retention c db
          (save_in s now nonce run_id step_index provider model payload retention db).1
  unfolding save_in ◌>>=◌ validate insert_sealed
  save_in-IsStored now nonce run_id step_index provider model payload retention c db reads
        returned =
      let d : ProviderContinuation = record {
        provider = provider;
        model = model;
        payload = payload;
        run_id = run_id;
        step_index = step_index;
        created_at = now;
        expires_at = now + retention;
      } in
      elim (Bool-cases ((retention =? 0) || ltb default_retention retention)) [
        | inl bad ↦ absurd (ground (arith, bad, returned))
        | inr good ↦ elim (Bool-cases (is_valid s.lib.canonical d)) [
          | inr invalid ↦ absurd (ground (arith, good, invalid, returned))
          | inl valid ↦
              elim (Result-cases (encrypt s.lib s.key nonce (metadata s.isoformat d) payload)) [
                | inl (x, r) ↦ absurd (ground (arith, good, valid, r, returned))
                | inr (e, r) ↦
                    let same : d ≡ c = ground (arith, good, valid, r, returned) in
                    record {
                      row = sealed d e;
                      made = sym same;
                      stored = ground (arith, good, valid, r, returned);
                      decodes = decode-sealed nonce d e valid reads r ∙ ap ok same;
                      of_run = refl;
                      of_provider = refl;
                      of_model = refl;
                      expires = refl;
                    }
              ]
        ]
      ]
