-- ===== src/Events/Ledger/Order.antt =====
-- The ledger's order, and what its queries select.
use mathlib.Core.List.{Memᴰ}
use weatherflow.Prelude.{
  ℕ, ◌<◌, ◌≤◌, ◌⊎◌, inl, inr, All, length, ltb, text_lt, eq_iff, eq_refl, Bool-cases, true, String,
  Bool, false, List, some, ◌≡◌, ap, subst, arith, take, limit_out_of_range,
}
use weatherflow.Prelude.Text.Order.{text_lt_asym, text_lt_chain, text_lt_total}
use weatherflow.Outcome.{ok}
use weatherflow.Table.{lookup, Unique}
use weatherflow.Table.Order.{IsOrder}
use weatherflow.Table.Order.Laws.{IsSelection, select-IsSelection, All-map}
use weatherflow.Table.Order.Suffix.{after, order_by-after}
use weatherflow.Events.Model.{Event}
use weatherflow.Events.Ledger.{
  event_key, event_before, ordered, in_stream, list_in, list_stream, list_after_in,
}

pub event_before-IsOrder : IsOrder event_before
unfolding event_before
event_before-IsOrder = record {
  asym = λ a b h. ground (arith, text_lt_asym a.id b.id);
  chain = λ a b c h k. ground (arith, text_lt_chain a.id b.id c.id);
}

event_before_total :
    (a b : Event) → event_before a b ≡ false → event_before b a ≡ false → event_key a ≡ event_key b
unfolding event_before
event_before_total a b h k = ground (arith, text_lt_total a.id b.id)

-- The events after a known cursor, with a limit that the ledger accepts, are those that follow the
-- cursor's event in the whole ordered ledger, up to the limit.
pub list_after_in-after :
    (cursor : String) (row : Event) (limit : ℕ) (events : List Event)
    → Unique event_key events
    → lookup event_key cursor events ≡ some row
    → limit_out_of_range limit ≡ false
    → list_after_in (some cursor) limit events
      ≡ ok (take limit (after event_key cursor (ordered events)))
unfolding list_after_in
list_after_in-after cursor row limit events unique found accepted =
    rw (accepted, found)
      (ap ok (
        ap (take limit) (
          order_by-after event_key event_before event_before-IsOrder event_before_total cursor row
            events unique found)))

-- A query with a limit that the ledger accepts.
list_in-IsSelection :
    (test : Event → Bool) (limit : ℕ) (events chosen : List Event)
    → list_in test limit events ≡ ok chosen
    → IsSelection event_before test limit events chosen
unfolding list_in
list_in-IsSelection test limit events chosen returned =
    let selected = select-IsSelection event_before event_before-IsOrder test limit events in
    subst (IsSelection event_before test limit events) (ground (arith, returned)) selected

-- The event is of the stream.
pub record IsOf (stream_kind stream_id : String) (e : Event) : Type 0 where
  pub kind : e.stream_kind ≡ stream_kind
  pub id : e.stream_id ≡ stream_id

-- The event has been recorded earlier, or at the same time and its id is not the greater one.
abbrev pub IsNotLater : Event → Event → Type 0
IsNotLater w e =
    (w.recorded_at < e.recorded_at)
    ⊎ ((w.recorded_at ≡ e.recorded_at) × (text_lt e.id w.id ≡ false))

in_stream-IsOf :
    (stream_kind stream_id : String) (e : Event)
    → in_stream stream_kind stream_id e ≡ true
    → IsOf stream_kind stream_id e
in_stream-IsOf stream_kind stream_id e h = record {
  kind = ground (arith, h, eq_iff e.stream_kind stream_kind);
  id = ground (arith, h, eq_iff e.stream_id stream_id);
}

IsOf-in_stream :
    (stream_kind stream_id : String) (e : Event)
    → IsOf stream_kind stream_id e
    → in_stream stream_kind stream_id e ≡ true
IsOf-in_stream stream_kind stream_id e h =
    rw (h.kind, h.id) (ground (arith, eq_refl stream_kind, eq_refl stream_id))

event_before-IsNotLater : (e w : Event) → event_before e w ≡ false → IsNotLater w e
unfolding event_before
event_before-IsNotLater e w h = elim (Bool-cases (ltb w.recorded_at e.recorded_at)) [
  | inl earlier ↦ inl (ground (arith, earlier))
  | inr same ↦ inr (ground (arith, same, h), ground (arith, same, h))
]

-- Where `list_stream` returns, its limit is from 1 to 1000. It returns at most as many events as the
-- limit, each of the stream; an event of the stream in the ledger is among them, or there are as
-- many as the limit and each of them was recorded earlier, or at the same time with an id that is
-- not greater.
pub list_stream-earliest :
    (stream_kind stream_id : String) (limit : ℕ) (events chosen : List Event) (e : Event)
    → list_stream stream_kind stream_id limit events ≡ ok chosen
    → Memᴰ e events
    → IsOf stream_kind stream_id e
    → (1 ≤ limit)
      × (limit ≤ 1000)
      × (length chosen ≤ limit)
      × All (IsOf stream_kind stream_id) chosen
      × (Memᴰ e chosen ⊎ ((length chosen ≡ limit) × All (λ w. IsNotLater w e) chosen))
unfolding list_stream list_in
list_stream-earliest stream_kind stream_id limit events chosen e returned stored own =
    let s = list_in-IsSelection (in_stream stream_kind stream_id) limit events chosen returned in
    (
      ground (arith, returned),
      ground (arith, returned),
      s.bounded,
      All-map _ _ chosen (in_stream-IsOf stream_kind stream_id) s.matching,
      elim (s.earliest e stored (IsOf-in_stream stream_kind stream_id e own)) [
        | inl taken ↦ inl taken
        | inr (full, later) ↦
            inr (full, All-map _ _ chosen (λ w. event_before-IsNotLater e w) later)
      ],
    )
