-- ===== src/Automations/Schedule.antt =====
-- `ScheduleSpec` of core/src/weatherflow/automations/models.py. An instant is the number of
-- microseconds from the start of year 1 in UTC, and a local time the same on a zone's clock; both
-- start on a Monday. `ZoneInfo` is a parameter: the zone of a name, where there is one.
pub mod First
use weatherflow.Prelude.{
  ℕ, zero, suc, ◌+◌, ◌*◌, ◌/◌, ◌%◌, String, Bool, true, false, not, ◌&&◌, Option, none, some, ◌=?◌,
  ltb, leb, if◌then◌else◌, is_some,
}
use weatherflow.Outcome.{Result, ok, err, zone_not_found, assertion_error, runtime_error}

pub data ScheduleKind : Type 0 where
  once hourly daily weekdays weekly : ScheduleKind

-- `astimezone(zone)`, and `replace(tzinfo=zone, fold=0).astimezone(UTC)`.
pub record Zone : Type 0 where
  pub local : ℕ → ℕ
  pub utc : ℕ → ℕ

abbrev pub Zones : Type 0
Zones = String → Option Zone

pub record ScheduleSpec : Type 0 where
  pub kind : ScheduleKind
  pub timezone : String
  pub once_at : Option ℕ
  pub minute : Option ℕ
  pub at_time : Option ℕ
  pub weekday : Option ℕ

abbrev pub minute_length : ℕ
minute_length = 60_000_000

abbrev pub hour_length : ℕ
hour_length = 3_600_000_000

abbrev pub day_length : ℕ
day_length = 86_400_000_000

-- An optional field is absent, or is below its bound.
abbrev absent : Option ℕ → Bool
absent o = not (is_some o)

abbrev pub below : ℕ → Option ℕ → Bool
below n none = true
below n (some k) = ltb k n

-- `fields_match_kind`
unfoldable pub fields_match_kind : ScheduleSpec → Bool
fields_match_kind s = elim s.kind [
  | once ↦ is_some s.once_at && (absent s.minute && (absent s.at_time && absent s.weekday))
  | hourly ↦ is_some s.minute && (absent s.once_at && (absent s.at_time && absent s.weekday))
  | daily ↦ is_some s.at_time && (absent s.once_at && (absent s.minute && absent s.weekday))
  | weekdays ↦ is_some s.at_time && (absent s.once_at && (absent s.minute && absent s.weekday))
  | weekly ↦ is_some s.at_time && (is_some s.weekday && (absent s.once_at && absent s.minute))
]

-- What the model's fields and validators accept.
unfoldable pub is_valid : Zones → ScheduleSpec → Bool
unfolding fields_match_kind
is_valid zones s =
    is_some (zones s.timezone)
    && (below 60 s.minute
        && (below day_length s.at_time && (below 7 s.weekday && fields_match_kind s)))

abbrev is_weekday : Option ℕ → ℕ → Bool
is_weekday none date = false
is_weekday (some w) date = (date % 7) =? w

-- `_date_matches`; a date is a number of days.
unfoldable pub date_matches : ScheduleSpec → ℕ → Bool
date_matches s date = elim s.kind [
  | weekdays ↦ ltb (date % 7) 5
  | weekly ↦ is_weekday s.weekday date
  | _ ↦ true
]

-- `_local_occurrence`
unfoldable pub local_occurrence : Zone → ℕ → ℕ → ℕ
local_occurrence zone at_time date = zone.utc (date * day_length + at_time)

-- The loop over the offsets from `offset` on, with `fuel` of them left.
unfoldable pub search_days : ScheduleSpec → Zone → ℕ → ℕ → ℕ → ℕ → ℕ → Result (Option ℕ)
search_days s zone at_time boundary today zero offset = err runtime_error
search_days s zone at_time boundary today (suc fuel) offset =
    let rest = search_days s zone at_time boundary today fuel (offset + 1) in
    let candidate = local_occurrence zone at_time (today + offset) in
    if date_matches s (today + offset)
    then (if ltb boundary candidate then ok (some candidate) else rest)
    else rest

unfoldable pub next_once : ℕ → Option ℕ → Result (Option ℕ)
next_once boundary none = err assertion_error
next_once boundary (some at) = ok (if ltb boundary at then some at else none)

unfoldable pub next_hourly : Zone → ℕ → Option ℕ → Result (Option ℕ)
next_hourly zone boundary none = err assertion_error
next_hourly zone boundary (some minute) =
    let local_candidate =
      zone.local boundary / hour_length * hour_length + minute * minute_length in
    let candidate = zone.utc local_candidate in
    ok (
      some (if leb candidate boundary then zone.utc (local_candidate + hour_length) else candidate))

unfoldable pub next_day : ScheduleSpec → Zone → ℕ → Option ℕ → Result (Option ℕ)
next_day s zone boundary none = err assertion_error
next_day s zone boundary (some at_time) =
    search_days s zone at_time boundary (zone.local boundary / day_length) 8 0

unfoldable pub next_in : ScheduleSpec → ℕ → Option Zone → Result (Option ℕ)
unfolding next_hourly next_day
next_in s boundary none = err zone_not_found
next_in s boundary (some zone) = elim s.kind [
  | hourly ↦ next_hourly zone boundary s.minute
  | _ ↦ next_day s zone boundary s.at_time
]

-- `next_after`
unfoldable pub next_after : Zones → ScheduleSpec → ℕ → Result (Option ℕ)
unfolding next_once next_in
next_after zones s boundary = elim s.kind [
  | once ↦ next_once boundary s.once_at
  | _ ↦ next_in s boundary (zones s.timezone)
]
