-- ===== src/Runs/History.antt =====
-- The event ledger as the history of the runs: replaying it gives every run's status.
pub mod Calls
pub mod Statements
use weatherflow.Prelude.{
  false, true, ◌||◌, not, ℕ, String, ◌≡◌, refl, Bool, Option, none, some, List, [], ◌∷◌, arith,
  ◌==◌, eq_iff, if◌then◌else◌, inl, inr, Option-cases,
}
use weatherflow.Json.{Json, text, get}
use weatherflow.Outcome.{Result, ok, err}
use weatherflow.Table.{lookup, insert}
use weatherflow.Database.{Db, Tx}
use weatherflow.Database.Commits.{Commits}
use weatherflow.Integrity.{HasKeys, append_in-HasKeys}
use weatherflow.Events.Model.{Event}
use weatherflow.Events.Ledger.{append_in, event_key, in_stream}
use weatherflow.Runs.Status.{RunStatus, value}
use weatherflow.Runs.Model.{Run}
use weatherflow.Runs.Repository.{run_key}

-- The status that one event of a run's stream gives the run, as its payload spells it.
unfoldable pub replay_event : String → Option Json → Event → Option Json
replay_event run_id status e =
    if in_stream "run" run_id e
    then (if e.type == "run.created"
        then get "status" e.payload
        else if e.type == "run.status_changed"
        then get "to" e.payload
        else status)
    else status

-- The status after all the events, in the order of their insertion.
unfoldable pub replay_from : String → Option Json → List Event → Option Json
replay_from run_id status [] = status
replay_from run_id status (e ∷ events) = replay_from run_id (replay_event run_id status e) events

abbrev pub replay : String → List Event → Option Json
replay run_id events = replay_from run_id none events

pub replay_from-insert :
    (run_id : String) (status : Option Json) (e : Event) (events : List Event)
    → replay_from run_id status (insert e events)
      ≡ replay_event run_id (replay_from run_id status events) e
unfolding replay_from
replay_from-insert run_id status e [] = refl
replay_from-insert run_id status e (x ∷ events) =
    replay_from-insert run_id (replay_event run_id status x) e events

abbrev pub status_text : Option Run → Option Json
status_text none = none
status_text (some r) = some (text (value r.status))

-- The ledger tells the status of every run, and of no run that does not exist.
pub record IsLogged (db : Db) : Type 0 where
  pub at : (run_id : String) → replay run_id db.events ≡ status_text (lookup run_key run_id db.runs)

unfoldable pub is_status_event : Event → Bool
is_status_event e = (e.type == "run.created") || (e.type == "run.status_changed")

pub record IsHistory (db : Db) : Type 0 where
  pub keys : HasKeys db
  pub logged : IsLogged db

-- Other events leave the replay as it is.
pub replay-insert_other :
    (run_id : String) (e : Event) (events : List Event)
    → is_status_event e ≡ false
    → replay run_id (insert e events) ≡ replay run_id events
unfolding is_status_event replay_event
replay-insert_other run_id e events h = ground (arith, replay_from-insert run_id none e events)

pub append_in-IsHistory : (e : Event) → is_status_event e ≡ false → Commits IsHistory (append_in e)
unfolding append_in
append_in-IsHistory e h = record {
  at = λ db a p r. record {
    keys = (append_in-HasKeys e).at db a p.keys r;
    logged = record {
      at = λ run_id. ground (arith, p.logged.at run_id, replay-insert_other run_id e db.events);
    };
  };
}

-- Actions that write neither events nor runs.
pub untouched-IsHistory :
    {A : Type 0} (m : Tx A)
    → Commits HasKeys m
    → ((db : Db) (a : A)
        → HasKeys db
        → (m db).0 ≡ ok a
        → ((m db).1.events ≡ db.events) × ((m db).1.runs ≡ db.runs))
    → Commits IsHistory m
untouched-IsHistory m k frame = record {
  at = λ db a p r.
      let f = frame db a p.keys r in
      record {
        keys = k.at db a p.keys r;
        logged = record { at = λ run_id. cc (f.0, f.1, p.logged.at run_id) };
      };
}
