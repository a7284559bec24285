-- ===== src/Continuations/Model.antt =====
-- core/src/weatherflow/continuations/models.py
use Prim.Native.Char.{code}
use weatherflow.Prelude.{
  ℕ, String, Bool, true, false, ◌&&◌, ◌||◌, Option, some, ◌==◌, ◌=?◌, leb, ltb, if◌then◌else◌,
  text_length,
}
use weatherflow.Json.{Json, text, Object}
use weatherflow.Json as Json
use weatherflow.Outcome.{Result, ok, err, value_error}

pub record ProviderContinuation : Type 0 where
  pub provider : String
  pub model : String
  pub payload : Object
  pub run_id : String
  pub step_index : ℕ
  pub created_at : ℕ
  pub expires_at : ℕ

-- A row of `provider_continuations`.
pub record SealedContinuation : Type 0 where
  pub run_id : String
  pub step_index : ℕ
  pub provider : String
  pub model : String
  pub schema_version : ℕ
  pub nonce : String
  pub ciphertext : String
  pub payload_sha256 : String
  pub created_at : ℕ
  pub expires_at : ℕ

is_lower : ℕ → Bool
is_lower c = leb 97 c && leb c 122

is_name_rest : String → Bool
unfolding is_lower
is_name_rest String.[] = true
is_name_rest (String.◌∷◌ c s) =
    (is_lower (code c)
      || ((leb 48 (code c) && leb (code c) 57) || ((code c =? 95) || (code c =? 45))))
    && is_name_rest s

-- ^[a-z][a-z0-9_-]{1,63}$
unfoldable pub is_provider : String → Bool
unfolding is_lower is_name_rest text_length
is_provider String.[] = false
is_provider (String.◌∷◌ c s) =
    is_lower (code c) && (leb 1 (text_length s) && (leb (text_length s) 63 && is_name_rest s))

unfoldable pub length_between : ℕ → ℕ → String → Bool
length_between low high s = leb low (text_length s) && leb (text_length s) high

abbrev is_assistant : Option Json → Bool
is_assistant (some (text s)) = s == "assistant"
is_assistant _ = false

-- `MAX_CONTINUATION_BYTES`
abbrev max_continuation_bytes : ℕ
max_continuation_bytes = 4_000_000

-- `bounded_assistant_payload`; `canonical` is the JSON text of a dict, encoded.
unfoldable pub bounded_payload : (Object → String) → Object → Bool
bounded_payload canonical payload =
    is_assistant (Json.get "role" payload)
    && leb (text_length (canonical payload)) max_continuation_bytes

-- What the model's fields and validators accept.
unfoldable pub is_valid : (Object → String) → ProviderContinuation → Bool
unfolding is_provider length_between bounded_payload
is_valid canonical c =
    is_provider c.provider
    && (length_between 1 200 c.model
        && (bounded_payload canonical c.payload
            && (length_between 1 200 c.run_id
                && (leb 1 c.step_index && ltb c.created_at c.expires_at))))

-- `ProviderContinuation(...)`
unfoldable pub validate : (Object → String) → ProviderContinuation → Result ProviderContinuation
unfolding is_valid
validate canonical c = if is_valid canonical c then ok c else err value_error
