-- ===== src/Automations/Schedule/First.antt =====
-- `next_after` finds the first occurrence of a daily, weekday or weekly schedule.
use weatherflow.Prelude.{
  ℕ, zero, suc, ◌+◌, ◌-◌, ◌*◌, ◌/◌, ◌%◌, ◌≤◌, ◌<◌, true, Option, none, some, ltb, if◌then◌else◌,
  ◌≡◌, ◌≢◌, refl, sym, arith, inl, inr, Bool-cases, subst, dec_lt, ltb→lt,
}
use weatherflow.Outcome.{Result, ok}
use weatherflow.Automations.Schedule.{
  ScheduleKind, once, hourly, daily, weekdays, weekly, Zone, Zones, ScheduleSpec, day_length,
  is_valid, date_matches, local_occurrence, search_days, next_after,
}

-- A clock that is never set back across midnight: a local time on an earlier or a later date than
-- an instant's is before or after it, and on later dates the same time of day is later.
pub record KeepsDates (zone : Zone) : Type 0 where
  pub before :
      (t date at_time : ℕ)
      → at_time < day_length
      → date < zone.local t / day_length
      → zone.utc (date * day_length + at_time) ≤ t
  pub after :
      (t date at_time : ℕ)
      → at_time < day_length
      → zone.local t / day_length < date
      → t < zone.utc (date * day_length + at_time)
  pub in_order :
      (date later at_time : ℕ)
      → date ≤ later
      → zone.utc (date * day_length + at_time) ≤ zone.utc (later * day_length + at_time)

module _ (s : ScheduleSpec) (zone : Zone) (at_time boundary today : ℕ) where
  -- The occurrence of a date counts if the date matches and it is later than the boundary.
  abbrev pub Counts : ℕ → Type 0
  Counts date = (date_matches s date ≡ true) × (boundary < local_occurrence zone at_time date)

  -- The loop returns the occurrence of the first offset that counts.
  record IsFirst (from : ℕ) (r : Result (Option ℕ)) : Type 0 where
    offset : ℕ
    returns : r ≡ ok (some (local_occurrence zone at_time (today + offset)))
    at_least : from ≤ offset
    counts : Counts (today + offset)
    none_before : (k : ℕ) → from ≤ k → Counts (today + k) → offset ≤ k

  IsFirst-here :
      (from : ℕ) (r : Result (Option ℕ))
      → r ≡ ok (some (local_occurrence zone at_time (today + from)))
      → Counts (today + from)
      → IsFirst from r
  IsFirst-here from r e c = record {
    offset = from;
    returns = e;
    at_least = omega arith;
    counts = c;
    none_before = λ k h _. h;
  }

  IsFirst-later :
      (from : ℕ) (r r' : Result (Option ℕ))
      → r ≡ r'
      → (Counts (today + from) → ⊥)
      → IsFirst (from + 1) r'
      → IsFirst from r
  IsFirst-later from r r' e no_count f = record {
    offset = f.offset;
    returns = cc (e, f.returns);
    at_least = omega (arith, f.at_least);
    counts = f.counts;
    none_before = λ k h c. elim (dec_lt from k) [
      | yes above ↦ f.none_before k (omega arith) c
      | no same ↦
          let is_from : k ≡ from = omega arith in
          absurd (no_count (subst (λ (x : ℕ). Counts (today + x)) is_from c))
    ];
  }

  search_days-IsFirst :
      (fuel from k : ℕ)
      → from ≤ k
      → k < from + fuel
      → Counts (today + k)
      → IsFirst from (search_days s zone at_time boundary today fuel from)
  unfolding search_days
  search_days-IsFirst zero from k lo hi c = absurd (omega arith)
  search_days-IsFirst (suc fuel) from k lo hi c =
      let later : (Counts (today + from) → ⊥) → from + 1 ≤ k = λ skip. elim (dec_lt from k) [
        | yes above ↦ omega arith
        | no same ↦
            let is_from : k ≡ from = omega arith in
            absurd (skip (subst (λ (x : ℕ). Counts (today + x)) is_from c))
      ] in
      elim (Bool-cases (date_matches s (today + from))) [
        | inr other ↦
            let skip : Counts (today + from) → ⊥ = λ d. cc (d.0, other) in
            IsFirst-later from _ _ (rw other refl) skip
              (search_days-IsFirst fuel (from + 1) k (later skip) (omega arith) c)
        | inl match ↦
            elim (Bool-cases (ltb boundary (local_occurrence zone at_time (today + from)))) [
              | inl found ↦ IsFirst-here from _ (rw (match, found) refl) (match, ltb→lt _ _ found)
              | inr early ↦
                  let skip : Counts (today + from) → ⊥ = λ d. ground (arith, early, d.1) in
                  IsFirst-later from _ _ (rw (match, early) refl) skip
                    (search_days-IsFirst fuel (from + 1) k (later skip) (omega arith) c)
            ]
      ]

-- The first occurrence after the boundary, of all dates that match.
pub record IsNext (s : ScheduleSpec) (zone : Zone) (at_time boundary : ℕ) (r : Result (Option ℕ))
    : Type 0 where
  pub date : ℕ
  pub returns : r ≡ ok (some (local_occurrence zone at_time date))
  pub matching : date_matches s date ≡ true
  pub later : boundary < local_occurrence zone at_time date
  pub first :
      (d : ℕ)
      → date_matches s d ≡ true
      → boundary < local_occurrence zone at_time d
      → local_occurrence zone at_time date ≤ local_occurrence zone at_time d

-- A schedule that recurs by dates, at a time of day.
pub record IsDated (s : ScheduleSpec) (at_time : ℕ) : Type 0 where
  pub not_once : s.kind ≢ once
  pub not_hourly : s.kind ≢ hourly
  pub at : s.at_time ≡ some at_time

module _ (s : ScheduleSpec) (zones : Zones) (zone : Zone) (at_time boundary : ℕ)
    (valid : is_valid zones s ≡ true) (found : zones s.timezone ≡ some zone)
    (dated : IsDated s at_time) (keeps : KeepsDates zone) where
  abbrev today : ℕ
  today = zone.local boundary / day_length

  abbrev ahead : ScheduleKind → Option ℕ → ℕ
  ahead weekdays w = if ltb ((today + 1) % 7) 5 then 1 else if ltb ((today + 2) % 7) 5 then 2 else 3
  ahead weekly (some w) = (w + 7 - (today + 1) % 7) % 7 + 1
  ahead _ w = 1

  abbrev Ahead : ℕ → Type 0
  Ahead k = (1 ≤ k) × (k < 8) × (date_matches s (today + k) ≡ true)

  -- One of the next seven dates matches.
  ahead-matches :
      (kind : ScheduleKind) (w : Option ℕ) → s.kind ≡ kind → s.weekday ≡ w → Ahead (ahead kind w)
  unfolding is_valid date_matches
  ahead-matches once w e f = absurd (dated.not_once e)
  ahead-matches hourly w e f = absurd (dated.not_hourly e)
  ahead-matches daily w e f = ground (arith, e)
  ahead-matches weekdays w e f = ground (arith, e)
  ahead-matches weekly none e f = ground (arith, e, f, valid)
  ahead-matches weekly (some w) e f = ground (arith, e, f, valid)

  next_after-search :
      (kind : ScheduleKind)
      → s.kind ≡ kind
      → next_after zones s boundary ≡ search_days s zone at_time boundary today 8 0
  unfolding next_after
  next_after-search once e = absurd (dated.not_once e)
  next_after-search hourly e = absurd (dated.not_hourly e)
  next_after-search daily e = rw (e, found, dated.at) refl
  next_after-search weekdays e = rw (e, found, dated.at) refl
  next_after-search weekly e = rw (e, found, dated.at) refl

  at_time_below : at_time < day_length
  unfolding is_valid
  at_time_below = ground (arith, valid, dated.at)

  later_date : (k : ℕ) → 1 ≤ k → boundary < local_occurrence zone at_time (today + k)
  unfolding local_occurrence
  later_date k lo = keeps.after boundary (today + k) at_time at_time_below (omega (arith, lo))

  IsFirst-IsNext :
      (r : Result (Option ℕ))
      → IsFirst s zone at_time boundary today 0 r
      → IsNext s zone at_time boundary r
  unfolding local_occurrence
  IsFirst-IsNext r f = record {
    date = today + f.offset;
    returns = f.returns;
    matching = f.counts.0;
    later = f.counts.1;
    first = λ d m l. elim (dec_lt d today) [
      | yes earlier ↦ absurd (omega (arith, keeps.before boundary d at_time at_time_below earlier))
      | no from_today ↦
          let same : today + (d - today) ≡ d = omega arith in
          keeps.in_order (today + f.offset) d at_time (
            omega (
              arith,
              f.none_before (d - today) (omega arith)
                  (subst (Counts s zone at_time boundary today) (sym same) (m, l)),
            ))
    ];
  }

  -- For a valid schedule that recurs by dates, in a zone whose clock is never set back across
  -- midnight, `next_after` returns an occurrence later than the boundary and no later than any
  -- other such occurrence.
  pub next_after-IsNext : IsNext s zone at_time boundary (next_after zones s boundary)
  next_after-IsNext =
      let (lo, hi, match) = ahead-matches s.kind s.weekday refl refl in
      let k = ahead s.kind s.weekday in
      rw (next_after-search s.kind refl) (
        IsFirst-IsNext _ (
          search_days-IsFirst s zone at_time boundary today 8 0 k (omega arith) (omega (arith, hi))
            (match, later_date k lo)))
