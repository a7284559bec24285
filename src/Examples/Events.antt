-- ===== src/Examples/Events.antt =====
-- A ledger of three events.
use mathlib.Core.List.{Memᴰ}
use weatherflow.Prelude.{
  ℕ, String, ◌≡◌, refl, none, some, List, [], ◌∷◌, ◌*◌, take, length, All, ◌≤◌, ◌⊎◌,
}
use weatherflow.Json.{end}
use weatherflow.Outcome.{ok}
use weatherflow.Events.Model.{Event, new_event, system}
use weatherflow.Events.Ledger.{event_key, event_before, ordered, list_stream, list_after_in}
use weatherflow.Events.Ledger.Order.{IsOf, IsNotLater, list_stream-earliest, list_after_in-after}
use weatherflow.Events.Stream.{send_events, unseen, send_events-eq}
use weatherflow.Table.Order.Suffix.{after}
use weatherflow.Examples.Fixtures.{stamp}

abbrev noted : String → ℕ → Event
noted id now = new_event (stamp id now) "runtime.note" system "run" "r" "r" none end

abbrev ledger : List Event
ledger = noted "n2" 5 ∷ noted "n1" 5 ∷ noted "n3" 4 ∷ []

list_after_in-after_example :
    list_after_in (some "n1") 100 ledger ≡ ok (take 100 (after event_key "n1" (ordered ledger)))
unfolding weatherflow.Table.lookup new_event
list_after_in-after_example =
    list_after_in-after "n1" (noted "n1" 5) 100 ledger ((refl, (refl, (refl, tt)))) refl refl

send_events-eq_example :
    send_events none (ledger ∷ ledger ∷ [])
    ≡ (take (length (ledger ∷ ledger ∷ []) * 100) (unseen none ledger), none)
unfolding weatherflow.Table.lookup new_event
send_events-eq_example =
    send_events-eq ledger ((refl, (refl, (refl, tt)))) none (ledger ∷ ledger ∷ []) tt
      (refl, (refl, tt))

list_stream-earliest_example :
    (1 ≤ 2)
    × (2 ≤ 1000)
    × (length (noted "n3" 4 ∷ noted "n1" 5 ∷ []) ≤ 2)
    × All (IsOf "run" "r") (noted "n3" 4 ∷ noted "n1" 5 ∷ [])
    × (Memᴰ (noted "n2" 5) (noted "n3" 4 ∷ noted "n1" 5 ∷ [])
        ⊎ ((length (noted "n3" 4 ∷ noted "n1" 5 ∷ []) ≡ 2)
            × All (λ w. IsNotLater w (noted "n2" 5)) (noted "n3" 4 ∷ noted "n1" 5 ∷ [])))
unfolding list_stream weatherflow.Events.Ledger.list_in weatherflow.Table.Order.order_by
    weatherflow.Table.filter new_event event_before
list_stream-earliest_example =
    list_stream-earliest "run" "r" 2 ledger (noted "n3" 4 ∷ noted "n1" 5 ∷ []) (noted "n2" 5) refl
      (Memᴰ.head refl) (record { kind = refl; id = refl })
