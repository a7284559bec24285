-- ===== src/Examples/Continuations.antt =====
-- A continuation that is saved and read back, with a cipher that hides nothing.
use weatherflow.Prelude.{◌≡◌, refl, true, some, [], ◌∷◌, All, arith}
use weatherflow.Json.{obj, text, Object, end, field}
use weatherflow.Outcome.{ok}
use weatherflow.Database.{Db, empty}
use weatherflow.Runs.Status.{RunStatus}
use weatherflow.Continuations.Model.{ProviderContinuation}
use weatherflow.Continuations.Crypto.{Library, IsLawful}
use weatherflow.Continuations.Repository.{Settings, has_steps, require_for_run, save_in}
use weatherflow.Continuations.Resuming.{require_for_run-saved}
use weatherflow.Continuations.Fitness.{IsFit, require_for_run-IsFit}
use weatherflow.Examples.Fixtures.{run}

abbrev payload : Object
payload = field "role" (text "assistant") end

abbrev library : Library
library = record {
  aead_encrypt = λ key nonce plain aad. plain;
  aead_decrypt = λ key nonce sealed aad. some sealed;
  sha256 = λ s. "0123456789abcdef0123456789abcdef0123456789abcdef0123456789abcdef";
  canonical = λ d. "{\"role\":\"assistant\"}";
  loads = λ s. some (obj payload);
}

library-IsLawful : IsLawful library
library-IsLawful = record { decrypts = λ key nonce plain aad. refl; role_text = refl }

abbrev settings : Settings
settings = record {
  lib = library;
  key = some "0123456789abcdef0123456789abcdef";
  isoformat = λ t. "now";
}

abbrev before : Db
before = record empty { runs = run RunStatus.running 2 3 ∷ [] }

abbrev continuation : ProviderContinuation
continuation = record {
  provider = "minimax";
  model = "m1";
  payload = payload;
  run_id = "r";
  step_index = 1;
  created_at = 10;
  expires_at = 110;
}

saves :
    (save_in settings 10 "0123456789ab" "r" 1 "minimax" "m1" payload 100 before).0 ≡ ok continuation
unfolding save_in weatherflow.Database.◌>>=◌ weatherflow.Continuations.Model.validate
    weatherflow.Json.get weatherflow.Continuations.Crypto.encrypt weatherflow.Table.rowcount
    weatherflow.Table.lookup
saves = refl

require_for_run-saved_example :
    (payload ≡ payload)
    × ((require_for_run settings 50 "r" "minimax" "m1"
          (1 ∷ [])
          (save_in settings 10 "0123456789ab" "r" 1 "minimax" "m1" payload 100 before).1).0
        ≡ ok (continuation ∷ []))
unfolding weatherflow.Table.filter
require_for_run-saved_example =
    require_for_run-saved settings library-IsLawful 10 50 "0123456789ab" "r" 1 "minimax" "m1"
      payload 100 continuation before refl refl saves (omega arith)

required :
    (require_for_run settings 50 "r" "minimax" "m1"
      (1 ∷ [])
      (save_in settings 10 "0123456789ab" "r" 1 "minimax" "m1" payload 100 before).1).0
    ≡ ok (continuation ∷ [])
required = require_for_run-saved_example.1

require_for_run-IsFit_example :
    All (IsFit 50 "r" "minimax" "m1") (continuation ∷ [])
    × (has_steps (1 ∷ []) (continuation ∷ []) ≡ true)
require_for_run-IsFit_example =
    require_for_run-IsFit settings 50 "r" "minimax" "m1" (1 ∷ []) (continuation ∷ [])
      (save_in settings 10 "0123456789ab" "r" 1 "minimax" "m1" payload 100 before).1 required
