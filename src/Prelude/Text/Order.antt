-- ===== src/Prelude/Text/Order.antt =====
-- The order of texts is a strict total order.
use Prim.Native.String.{String}
use mathlib.Core.Bool.{true, false}
use mathlib.Core.Path.{◌≡◌, refl}
use native.Mathlib.Omega.{arith}
use text.Mathlib.TextEquality.{Char-path}
use weatherflow.Prelude.Text.{text_lt}

pub text_lt_asym : (s t : String) → text_lt s t ≡ true → text_lt t s ≡ false
unfolding text_lt
text_lt_asym String.[] String.[] h = refl
text_lt_asym String.[] (String.◌∷◌ d t) h = refl
text_lt_asym (String.◌∷◌ c s) String.[] h = ground arith
text_lt_asym (String.◌∷◌ c s) (String.◌∷◌ d t) h = ground (arith, text_lt_asym s t)

pub text_lt_chain :
    (s t u : String) → text_lt t s ≡ false → text_lt u t ≡ false → text_lt u s ≡ false
unfolding text_lt
text_lt_chain s String.[] String.[] h k = h
text_lt_chain s (String.◌∷◌ d t) String.[] h k = ground arith
text_lt_chain String.[] t (String.◌∷◌ e u) h k = refl
text_lt_chain (String.◌∷◌ c s) String.[] (String.◌∷◌ e u) h k = ground arith
text_lt_chain (String.◌∷◌ c s) (String.◌∷◌ d t) (String.◌∷◌ e u) h k =
    ground (arith, text_lt_chain s t u)

pub text_lt_total : (s t : String) → text_lt s t ≡ false → text_lt t s ≡ false → s ≡ t
unfolding text_lt
text_lt_total String.[] String.[] h k = refl
text_lt_total String.[] (String.◌∷◌ d t) h k = ground arith
text_lt_total (String.◌∷◌ c s) String.[] h k = ground arith
text_lt_total (String.◌∷◌ c s) (String.◌∷◌ d t) h k =
    ground (arith, Char-path c d, text_lt_total s t)
