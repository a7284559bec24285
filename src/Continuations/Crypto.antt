-- ===== src/Continuations/Crypto.antt =====
-- `ContinuationCipher` of core/src/weatherflow/continuations/crypto.py
use weatherflow.Prelude.{String, ◌≡◌, Option, none, some, ◌==◌, ◌=?◌, if◌then◌else◌, text_length}
use weatherflow.Json.{Json, text, obj, Object, end, field}
use weatherflow.Outcome.{Result, ok, err, continuation_unavailable}

-- AES-GCM with a key, on a nonce, a text and the authenticated data; SHA-256 in hexadecimal; JSON's
-- canonical text of a dict, and its parser.
pub record Library : Type 0 where
  pub aead_encrypt : String → String → String → String → String
  pub aead_decrypt : String → String → String → String → Option String
  pub sha256 : String → String
  pub canonical : Object → String
  pub loads : String → Option Json

-- What the libraries document: a key decrypts what it encrypted, and the text of a dict of one field.
pub record IsLawful (lib : Library) : Type 0 where
  pub decrypts :
      (key nonce plain aad : String)
      → lib.aead_decrypt key nonce (lib.aead_encrypt key nonce plain aad) aad ≡ some plain
  pub role_text : lib.canonical (field "role" (text "assistant") end) ≡ "{\"role\":\"assistant\"}"

pub record EncryptedContinuation : Type 0 where
  pub nonce : String
  pub ciphertext : String
  pub payload_sha256 : String

-- `_cipher`: the key, where it can be loaded and has 256 bits.
unfoldable pub cipher_key : Option String → Result String
cipher_key none = err continuation_unavailable
cipher_key (some key) = if text_length key =? 32 then ok key else err continuation_unavailable

-- `encrypt`; `nonce` is `os.urandom(12)`.
unfoldable pub encrypt :
    Library → Option String → String → Object → Object → Result EncryptedContinuation
unfolding cipher_key
encrypt lib loaded nonce metadata payload = elim (cipher_key loaded) [
  | err e ↦ err e
  | ok key ↦ ok (record {
    nonce = nonce;
    ciphertext = lib.aead_encrypt key nonce (lib.canonical payload) (lib.canonical metadata);
    payload_sha256 = lib.sha256 (lib.canonical payload);
  })
]

abbrev pub as_object : Option Json → Result Object
as_object (some (obj d)) = ok d
as_object _ = err continuation_unavailable

abbrev pub opened : Library → String → Option String → Result Object
opened lib payload_sha256 none = err continuation_unavailable
opened lib payload_sha256 (some plain) =
    if lib.sha256 plain == payload_sha256
    then as_object (lib.loads plain)
    else err continuation_unavailable

-- `decrypt`
unfoldable pub decrypt : Library → Option String → Object → String → String → String → Result Object
unfolding cipher_key
decrypt lib loaded metadata nonce ciphertext payload_sha256 = elim (cipher_key loaded) [
  | err e ↦ err e
  | ok key ↦
      opened lib payload_sha256 (lib.aead_decrypt key nonce ciphertext (lib.canonical metadata))
]
