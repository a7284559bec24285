-- ===== src/Database/Keeps.antt =====
-- An action keeps an invariant if it restores it whether it returns or raises.
use weatherflow.Prelude.{◌≡◌, refl, Bool, true, false, Option, none, some, if◌then◌else◌}
use weatherflow.Outcome.{Error, Result, ok, err}
use weatherflow.Database.{
  Db, Tx, pure, raise, gets, query, or_raise, raise_if, ◌>>=◌, continue, settle, transaction,
}
use weatherflow.Database.Commits.{Commits}

pub record Keeps (P : Db → Type 0) {A : Type 0} (m : Tx A) : Type 0 where
  pub at : (db : Db) → P db → P (m db).1

settle-P :
    {A : Type 0} (P : Db → Type 0) (db : Db) (r : Result A) (after : Db)
    → P db
    → ((a : A) → r ≡ ok a → P after)
    → P (settle db (r, after)).1
settle-P P db (ok a) after h k = k a refl
settle-P P db (err e) after h k = h

module _ {P : Db → Type 0} {A : Type 0} where
  pub Keeps-pure : (a : A) → Keeps P (pure a)
  unfolding pure
  Keeps-pure a = record { at = λ db h. h }

  pub Keeps-raise : (e : Error) → Keeps P (raise {A = A} e)
  unfolding raise
  Keeps-raise e = record { at = λ db h. h }

  pub Keeps-gets : (f : Db → A) → Keeps P (gets f)
  unfolding gets
  Keeps-gets f = record { at = λ db h. h }

  pub Keeps-query : (f : Db → Result A) → Keeps P (query f)
  unfolding query
  Keeps-query f = record { at = λ db h. h }

  pub Keeps-or_raise : (e : Error) (o : Option A) → Keeps P (or_raise e o)
  unfolding or_raise
  Keeps-or_raise e none = Keeps-raise e
  Keeps-or_raise e (some a) = Keeps-pure a

  pub Keeps-if : (b : Bool) (m n : Tx A) → Keeps P m → Keeps P n → Keeps P (if b then m else n)
  Keeps-if true m n km kn = km
  Keeps-if false m n km kn = kn

  -- What an action commits its transaction keeps.
  pub Keeps-transaction : (m : Tx A) → Commits P m → Keeps P (transaction m)
  unfolding transaction
  Keeps-transaction m k = record {
    at = λ db h. settle-P P db (m db).0 (m db).1 h (λ a e. k.at db a h e);
  }

  pub Commits-Keeps : (m : Tx A) → Keeps P m → Commits P m
  Commits-Keeps m k = record { at = λ db a h e. k.at db h }

module _ {P : Db → Type 0} where
  pub Keeps-raise_if : (b : Bool) (e : Error) → Keeps P (raise_if b e)
  unfolding raise_if
  Keeps-raise_if true e = Keeps-raise e
  Keeps-raise_if false e = Keeps-pure tt

module _ {P : Db → Type 0} {A B : Type 0} where
  continue-Keeps :
      (f : A → Tx B) (r : Result A) (after : Db)
      → ((a : A) → Keeps P (f a))
      → P after
      → P (continue r f after).1
  continue-Keeps f (ok a) after kf h = (kf a).at after h
  continue-Keeps f (err e) after kf h = h

  pub Keeps-bind :
      (m : Tx A) (f : A → Tx B) → Keeps P m → ((a : A) → Keeps P (f a)) → Keeps P (m >>= f)
  unfolding ◌>>=◌
  Keeps-bind m f km kf = record { at = λ db h. continue-Keeps f (m db).0 (m db).1 kf (km.at db h) }

-- What follows a guard may use that the guard let it pass.
pub Keeps-guard :
    {P : Db → Type 0} {A : Type 0} (b : Bool) (e : Error) (f : Unit {0} → Tx A)
    → (b ≡ false → Keeps P (f tt))
    → Keeps P (raise_if b e >>= f)
unfolding ◌>>=◌
Keeps-guard true e f k = record { at = λ db h. h }
Keeps-guard false e f k = k refl

pub ruleset keep_rules = (
  Keeps-pure, Keeps-raise, Keeps-gets, Keeps-query, Keeps-or_raise, Keeps-raise_if, Keeps-bind,
  Keeps-transaction,
)
