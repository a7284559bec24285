-- ===== src/Events/Ledger.antt =====
-- `EventLedger` of core/src/weatherflow/events/repository.py
pub mod Order
use weatherflow.Prelude.{
  ℕ, ◌≡◌, refl, String, Bool, ◌&&◌, ◌||◌, Option, none, some, List, [], ◌∷◌, ◌==◌, ◌=?◌, ltb,
  if◌then◌else◌, is_some, take, text_lt, limit_out_of_range,
}
use weatherflow.Outcome.{Result, ok, err, value_error, duplicate_event, unknown_event_cursor}
use weatherflow.Table.{filter, insert, lookup}
use weatherflow.Table.Order.{order_by}
use weatherflow.Database.{Tx}
use weatherflow.Events.Model.{Event}

abbrev pub event_key : Event → String
event_key e = e.id

-- INSERT INTO events; the id is the primary key.
unfoldable pub append_in : Event → Tx (Unit {0})
append_in event db =
    if is_some (lookup event_key event.id db.events)
    then (err duplicate_event, db)
    else (ok tt, record db { events = insert event db.events })

-- ORDER BY recorded_at, id
unfoldable pub event_before : Event → Event → Bool
unfolding text_lt
event_before a b =
    ltb a.recorded_at b.recorded_at || ((a.recorded_at =? b.recorded_at) && text_lt a.id b.id)

abbrev pub ordered : List Event → List Event
ordered events = order_by event_before events

-- `_list_in`, for a WHERE clause given as a test
unfoldable pub list_in : (Event → Bool) → ℕ → List Event → Result (List Event)
list_in test limit events =
    if limit_out_of_range limit
    then err value_error
    else ok (take limit (ordered (filter test events)))

abbrev pub in_stream : String → String → Event → Bool
in_stream stream_kind stream_id e = (e.stream_kind == stream_kind) && (e.stream_id == stream_id)

-- `list_stream_in`, whose limit is 100 unless it is given
unfoldable pub list_stream_in : String → String → List Event → Result (List Event)
unfolding list_in
list_stream_in stream_kind stream_id events = list_in (in_stream stream_kind stream_id) 100 events

pub list_stream_in-eq :
    (stream_kind stream_id : String) (events : List Event)
    → list_stream_in stream_kind stream_id events
      ≡ ok (take 100 (ordered (filter (in_stream stream_kind stream_id) events)))
unfolding list_stream_in
list_stream_in-eq stream_kind stream_id events = refl

-- `get`
unfoldable pub get_event : String → List Event → Option Event
get_event event_id events = lookup event_key event_id events

-- `list_stream`, which gives `list_stream_in`'s query a limit
unfoldable pub list_stream : String → String → ℕ → List Event → Result (List Event)
unfolding list_in
list_stream stream_kind stream_id limit events =
    list_in (in_stream stream_kind stream_id) limit events

-- ORDER BY recorded_at DESC, id DESC
abbrev pub recent_first : List Event → List Event
recent_first events = order_by (λ a b. event_before b a) events

unfoldable pub list_stream_recent : String → String → ℕ → List Event → Result (List Event)
list_stream_recent stream_kind stream_id limit events =
    if limit_out_of_range limit
    then err value_error
    else ok (take limit (recent_first (filter (in_stream stream_kind stream_id) events)))

unfoldable pub list_correlation : String → ℕ → List Event → Result (List Event)
unfolding list_in
list_correlation correlation_id limit events =
    list_in (λ e. e.correlation_id == correlation_id) limit events

-- `list_after_in`
unfoldable pub list_after_in : Option String → ℕ → List Event → Result (List Event)
list_after_in none limit events =
    if limit_out_of_range limit then err value_error else ok (take limit (ordered events))
list_after_in (some cursor) limit events =
    if limit_out_of_range limit then err value_error else elim (lookup event_key cursor events) [
      | none ↦ err unknown_event_cursor
      | some row ↦ ok (take limit (ordered (filter (event_before row) events)))
    ]
