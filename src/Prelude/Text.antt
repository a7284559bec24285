-- ===== src/Prelude/Text.antt =====
-- The order of texts by code points, which is SQLite's order of UTF-8 text.
pub mod Order
use Prim.Native.Char.{code}
use Prim.Native.Nat.{ℕ, zero, suc, ◌/◌, ◌%◌}
use Prim.Native.String.{String, ◌++◌}
use mathlib.Core.Bool.{Bool, true, false}
use mathlib.Core.Path.{◌≡◌, refl}
use native.Mathlib.Omega.{arith}
use weatherflow.Prelude.Tests.{ltb, ◌=?◌, if◌then◌else◌}

unfoldable pub text_lt : String → String → Bool
text_lt s String.[] = false
text_lt String.[] (String.◌∷◌ d t) = true
text_lt (String.◌∷◌ c s) (String.◌∷◌ d t) =
    if ltb (code c) (code d) then true else if ltb (code d) (code c) then false else text_lt s t

text_lt_ulids : text_lt "01J" "01K" ≡ true
unfolding text_lt
text_lt_ulids = refl

-- `len(s)`, in code points.
unfoldable pub text_length : String → ℕ
text_length String.[] = 0
text_length (String.◌∷◌ c s) = suc (text_length s)

-- `s[:n]`, in code points.
unfoldable pub text_take : ℕ → String → String
text_take zero s = ""
text_take (suc n) String.[] = ""
text_take (suc n) (String.◌∷◌ c s) = String.◌∷◌ c (text_take n s)

pub text_length-text_take :
    (n : ℕ) (s : String)
    → text_length (text_take n s) ≡ (if ltb n (text_length s) then n else text_length s)
unfolding text_length text_take
text_length-text_take zero s = ground arith
text_length-text_take (suc n) String.[] = ground arith
text_length-text_take (suc n) (String.◌∷◌ c s) = ground (arith, text_length-text_take n s)

digit : ℕ → String
digit d =
    if d =? 0
    then "0"
    else if d =? 1
    then "1"
    else if d =? 2
    then "2"
    else if d =? 3
    then "3"
    else if d =? 4
    then "4"
    else if d =? 5
    then "5"
    else if d =? 6
    then "6"
    else if d =? 7
    then "7"
    else if d =? 8
    then "8"
    else "9"

decimal_from : ℕ → ℕ → String
unfolding digit
decimal_from zero n = ""
decimal_from (suc fuel) n =
    let higher = decimal_from fuel (n / 10) in
    if ltb n 10 then digit n else higher ++ digit (n % 10)

-- `str(n)`; a number has at most as many digits as its value.
unfoldable pub decimal : ℕ → String
unfolding decimal_from
decimal n = decimal_from (suc n) n

decimal_thousand : decimal 1800 ≡ "1800"
unfolding decimal
decimal_thousand = refl
