-- ===== src/Database/Commits.antt =====
-- Invariants of actions on the database. An action commits an invariant if it restores it whenever
-- it returns; what it leaves behind when it raises is rolled back.
use weatherflow.Prelude.{◌≡◌, refl, Bool, true, false, Option, none, some, arith, if◌then◌else◌}
use weatherflow.Outcome.{Error, Result, ok, err}
use weatherflow.Database.{Db, Tx, pure, raise, gets, query, or_raise, raise_if, ◌>>=◌, continue}

pub record Commits (P : Db → Type 0) {A : Type 0} (m : Tx A) : Type 0 where
  pub at : (db : Db) (a : A) → P db → (m db).0 ≡ ok a → P (m db).1

module _ {P : Db → Type 0} {A : Type 0} where
  pub Commits-pure : (a : A) → Commits P (pure a)
  unfolding pure
  Commits-pure a = record { at = λ db b h e. h }

  pub Commits-raise : (e : Error) → Commits P (raise {A = A} e)
  unfolding raise
  Commits-raise e = record { at = λ db b h r. h }

  pub Commits-gets : (f : Db → A) → Commits P (gets f)
  unfolding gets
  Commits-gets f = record { at = λ db b h e. h }

  pub Commits-query : (f : Db → Result A) → Commits P (query f)
  unfolding query
  Commits-query f = record { at = λ db b h e. h }

  pub Commits-or_raise : (e : Error) (o : Option A) → Commits P (or_raise e o)
  unfolding or_raise
  Commits-or_raise e none = Commits-raise e
  Commits-or_raise e (some a) = Commits-pure a

  pub Commits-if :
      (b : Bool) (m n : Tx A) → Commits P m → Commits P n → Commits P (if b then m else n)
  Commits-if true m n km kn = km
  Commits-if false m n km kn = kn

module _ {P : Db → Type 0} where
  pub Commits-raise_if : (b : Bool) (e : Error) → Commits P (raise_if b e)
  unfolding raise_if
  Commits-raise_if true e = Commits-raise e
  Commits-raise_if false e = Commits-pure tt

-- From every state with `P`, an action that returns leaves the value and the state related by `Q`.
pub record Triple (P : Db → Type 0) {A : Type 0} (m : Tx A) (Q : A → Db → Type 0) : Type 0 where
  pub at : (db : Db) (a : A) → P db → (m db).0 ≡ ok a → Q a (m db).1

module _ {A B : Type 0} where
  continue-Triple :
      {Q : A → Db → Type 0} {R : B → Db → Type 0} (f : A → Tx B) (r : Result A) (after : Db) (b : B)
      → ((a : A) → Triple (Q a) (f a) R)
      → ((a : A) → r ≡ ok a → Q a after)
      → (continue r f after).0 ≡ ok b
      → R b (continue r f after).1
  continue-Triple f (ok a) after b kf q e = (kf a).at after b (q a refl) e
  continue-Triple f (err x) after b kf q e = cc

  pub Triple-bind :
      {P : Db → Type 0} {Q : A → Db → Type 0} {R : B → Db → Type 0} (m : Tx A) (f : A → Tx B)
      → Triple P m Q
      → ((a : A) → Triple (Q a) (f a) R)
      → Triple P (m >>= f) R
  unfolding ◌>>=◌
  Triple-bind {Q} {R} m f km kf = record {
    at = λ db b h e.
        continue-Triple {Q = Q} {R = R} f (m db).0 (m db).1 b kf (λ a r. km.at db a h r) e;
  }

  pub Commits-bind :
      {P : Db → Type 0} (m : Tx A) (f : A → Tx B)
      → Commits P m
      → ((a : A) → Commits P (f a))
      → Commits P (m >>= f)
  Commits-bind {P} m f km kf = record {
    at =
        (Triple-bind {P = P} {Q = λ _. P} {R = λ _. P} m f (record { at = km.at })
          (λ a. record { at = (kf a).at })).at;
  }

module _ {P : Db → Type 0} {A : Type 0} where
  -- An action that commits `P` from a state with more than `P`.
  pub Commits-Triple :
      {R : Db → Type 0} (m : Tx A) → Commits P m → ((db : Db) → R db → P db) → Triple R m (λ _. P)
  Commits-Triple m k weaker = record { at = λ db a h e. k.at db a (weaker db h) e }

  pub Triple-gets : (f : Db → A) → Triple P (gets f) (λ a db. P db × (f db ≡ a))
  unfolding gets
  Triple-gets f = record { at = λ db a h e. (h, ground (arith, e)) }

  pub Triple-read : (f : Db → A) → Triple P (gets f) (λ _. P)
  unfolding gets
  Triple-read f = record { at = λ db a h e. h }

  pub Triple-known : (x : Error) (o : Option A) → Triple P (or_raise x o) (λ _. P)
  unfolding or_raise raise pure
  Triple-known x none = record { at = λ db a h e. cc }
  Triple-known x (some b) = record { at = λ db a h e. h }

  pub Triple-or_raise :
      (x : Error) (o : Option A) → Triple P (or_raise x o) (λ a db. P db × (o ≡ some a))
  unfolding or_raise raise pure
  Triple-or_raise x none = record { at = λ db a h e. cc }
  Triple-or_raise x (some b) = record { at = λ db a h e. (h, ground (arith, e)) }

  pub Triple-raise : {Q : A → Db → Type 0} (x : Error) → Triple P (raise {A = A} x) Q
  unfolding raise
  Triple-raise x = record { at = λ db a h e. cc }

  pub Triple-if :
      {Q : A → Db → Type 0} (b : Bool) (m n : Tx A)
      → Triple P m Q
      → Triple P n Q
      → Triple P (if b then m else n) Q
  Triple-if true m n km kn = km
  Triple-if false m n km kn = kn

pub ruleset commit_rules = (
  Commits-pure, Commits-raise, Commits-gets, Commits-query, Commits-or_raise, Commits-if,
  Commits-raise_if, Commits-bind,
)
