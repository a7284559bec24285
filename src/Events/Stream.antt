-- ===== src/Events/Stream.antt =====
-- The events that the websocket `/v1/events` of core/src/weatherflow/api/app.py sends: rounds of
-- `EventLedger.list_after` from the cursor of the last event sent.
use weatherflow.Prelude.{
  ◌*◌, String, true, List, [], ◌∷◌, ◌++◌, Option, none, some, ◌≡◌, refl, sym, ap, ◌∙◌, arith, take,
  drop, take-append_drop, drop-none_last, length, All, get_last?, is_some, inl, inr, Option-cases,
}
use weatherflow.Outcome.{Error, Result, ok, err}
use weatherflow.Table.{lookup, Unique}
use weatherflow.Table.Order.Suffix.{
  after, lookup-after, after-after, after-last, Unique-after, Unique-order_by, lookup-order_by,
}
use weatherflow.Events.Model.{Event}
use weatherflow.Events.Ledger.{event_key, event_before, ordered, list_after_in}
use weatherflow.Events.Ledger.Order.{list_after_in-after}

-- The cursor after the events of a round are sent.
abbrev pub moved_cursor : Option String → Option Event → Option String
moved_cursor cursor none = cursor
moved_cursor cursor (some e) = some (event_key e)

-- The events of a page, then those sent later, and the error that ends the rounds, if one does.
abbrev pub then_sent : List Event → List Event × Option Error → List Event × Option Error
then_sent page (later, error) = (page ++ later, error)

abbrev pub on_page :
    Result (List Event) → (List Event → List Event × Option Error) → List Event × Option Error
on_page (err e) later = ([], some e)
on_page (ok page) later = then_sent page (later page)

-- What is sent in as many rounds as there are ledgers, each the ledger that its round reads. A cursor
-- that the ledger does not know ends the rounds.
unfoldable pub send_events : Option String → List (List Event) → List Event × Option Error
send_events cursor [] = ([], none)
send_events cursor (events ∷ ledgers) =
    on_page (list_after_in cursor 100 events)
      λ page. send_events (moved_cursor cursor (get_last? page)) ledgers

-- The events that the cursor has still to see.
abbrev pub unseen : Option String → List Event → List Event
unseen none events = ordered events
unseen (some cursor) events = after event_key cursor (ordered events)

abbrev Known : Option String → List Event → Type 0
Known none events = Unit
Known (some cursor) events = is_some (lookup event_key cursor events) ≡ true

module _ (events : List Event) (unique : Unique event_key events) where
  page-unseen :
      (cursor : Option String)
      → Known cursor events
      → list_after_in cursor 100 events ≡ ok (take 100 (unseen cursor events))
  unfolding list_after_in
  page-unseen none known = refl
  page-unseen (some cursor) known = elim (Option-cases (lookup event_key cursor events)) [
    | inl absent ↦ ground (arith, known, absent)
    | inr (row, found) ↦ list_after_in-after cursor row 100 events unique found refl
  ]

  in_order : Unique event_key (ordered events)
  in_order = Unique-order_by event_key event_before events unique

  Unique-unseen : (cursor : Option String) → Unique event_key (unseen cursor events)
  Unique-unseen none = in_order
  Unique-unseen (some cursor) = Unique-after event_key cursor (ordered events) in_order

  unseen_later :
      (cursor : Option String) (last : Event)
      → get_last? (take 100 (unseen cursor events)) ≡ some last
      → (is_some (lookup event_key (event_key last) (ordered events)) ≡ true)
        × (unseen (some (event_key last)) events ≡ drop 100 (unseen cursor events))
  unseen_later none last at = after-last event_key 100 (ordered events) last in_order at
  unseen_later (some cursor) last at =
      let (known, rest) =
        after-last event_key 100 (unseen (some cursor) events) last (Unique-unseen (some cursor))
          at in
      (
        lookup-after event_key (event_key last) cursor (ordered events) known,
        after-after event_key (event_key last) cursor (ordered events) in_order known ∙ rest,
      )

  -- Each round's cursor is known, and has still to see what the round did not send.
  moved_cursor-unseen :
      (cursor : Option String) (last : Option Event)
      → get_last? (take 100 (unseen cursor events)) ≡ last
      → Known cursor events
      → Known (moved_cursor cursor last) events
        × (unseen (moved_cursor cursor last) events ≡ drop 100 (unseen cursor events))
  moved_cursor-unseen cursor none at known =
      (known, sym (drop-none_last 99 (unseen cursor events) at))
  moved_cursor-unseen cursor (some last) at known =
      let (there, rest) = unseen_later cursor last at in
      (
        ap is_some (sym (lookup-order_by event_key event_before (event_key last) events unique))
            ∙ there,
        rest,
      )

  -- While the ledger stays as it is, rounds that start at a known cursor, or at none, send the events
  -- that follow the cursor in the ledger's order, a hundred to a round, none twice and none left out,
  -- and none ends with an error.
  pub send_events-eq :
      (cursor : Option String) (ledgers : List (List Event))
      → Known cursor events
      → All (λ l. l ≡ events) ledgers
      → send_events cursor ledgers ≡ (take (length ledgers * 100) (unseen cursor events), none)
  unfolding send_events
  send_events-eq cursor [] known same = refl
  send_events-eq cursor (l ∷ ledgers) known (same, rest) =
      let page = take 100 (unseen cursor events) in
      let (there, remaining) = moved_cursor-unseen cursor (get_last? page) refl known in
      let later = send_events-eq (moved_cursor cursor (get_last? page)) ledgers there rest in
      rw (same, page-unseen cursor known, later, remaining)
        (ap (λ (sent : List Event). (sent, none))
          (take-append_drop 100 (length ledgers * 100) (unseen cursor events)
            ∙ ap (λ n. take n (unseen cursor events)) (omega arith)))
