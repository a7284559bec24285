-- ===== src/Database/Beside.antt =====
-- Changes beside the core: the tables of events, sessions, runs, actions and approvals stay as they
-- are.
use weatherflow.Prelude.{◌≡◌, refl}
use weatherflow.Database.{Db, Tx}
use weatherflow.Database.Commits.{Commits}
use weatherflow.Database.Keeps.{Keeps}

pub record Agrees (a b : Db) : Type 0 where
  pub events : b.events ≡ a.events
  pub sessions : b.sessions ≡ a.sessions
  pub runs : b.runs ≡ a.runs
  pub actions : b.actions ≡ a.actions
  pub approvals : b.approvals ≡ a.approvals

pub Agrees-refl : (a : Db) → Agrees a a
Agrees-refl a = record {
  events = refl;
  sessions = refl;
  runs = refl;
  actions = refl;
  approvals = refl;
}

-- An action that keeps the core as it was anywhere.
pub record IsBeside {A : Type 0} (m : Tx A) : Type 0 where
  pub keeps : (start : Db) → Keeps (Agrees start) m

pub IsBeside-Agrees : {A : Type 0} (m : Tx A) (db : Db) → IsBeside m → Agrees db (m db).1
IsBeside-Agrees m db h = (h.keeps db).at db (Agrees-refl db)

-- What depends on the core alone.
pub IsBeside-Commits :
    {P : Db → Type 0} {A : Type 0} (m : Tx A)
    → ((a b : Db) → Agrees a b → P a → P b)
    → IsBeside m
    → Commits P m
IsBeside-Commits m transport h = record {
  at = λ db a p e. transport db (m db).1 (IsBeside-Agrees m db h) p;
}
