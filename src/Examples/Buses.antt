-- ===== src/Examples/Buses.antt =====
-- The event bus.
use mari_paint.Prelude.{
  ℕ, ◌+◌, ◌%◌, ◌^◌, ◌≡◌, ◌≤◌, ◌⊎◌, refl, Bool, true, false, List, [], ◌∷◌, ◌++◌, length,
}
use mari_paint.App.Events.Event.{undo, progress, one_bits, ListenerCall, typed, on_event}
use mari_paint.App.Events.Subscriber.{
  OverflowPolicy, make_subscriber, stats, Step, offered, woken, finished, steps, step, offer,
  overflow, drop_oldest, wake_waiting, take_front, is_nil, finish_callback,
}
use mari_paint.App.Events.Within.{Within}
use mari_paint.App.Events.Accounts.{in_flight}
use mari_paint.App.Events.Losses.{subscriber-ordered, subscriber-counted}
use mari_paint.App.Events.Hub.{
  empty_hub, is_listener, add_listener, HubStep, fired, listener_added, subscribed, worked,
  hub_step, hub_run, fire, dispatch, advance, advanced,
}
use mari_paint.App.Events.RecordPath.{
  calls_of, every_event, count_calls, waiting, record_path_complete,
}

-- A slow subscriber of capacity 2: the second event is left out.
abbrev slow : List (Step ℕ)
slow = offered 1 ∷ woken ∷ offered 2 ∷ offered 3 ∷ offered 4 ∷ finished ∷ []

subscriber-ordered_example :
    (n : ℕ) × Within
      ((steps slow (make_subscriber 1 2 OverflowPolicy.summarize)).calls
        ++ (steps slow (make_subscriber 1 2 OverflowPolicy.summarize)).q)
      (1 ∷ 2 ∷ 3 ∷ 4 ∷ [])
      n
    × (((steps slow (make_subscriber 1 2 OverflowPolicy.summarize)).delivered
            + in_flight (steps slow (make_subscriber 1 2 OverflowPolicy.summarize)).worker)
          % 2 ^ 64
        ≡ length (steps slow (make_subscriber 1 2 OverflowPolicy.summarize)).calls % 2 ^ 64)
    × (length (steps slow (make_subscriber 1 2 OverflowPolicy.summarize)).q ≤ 2)
    × (((steps slow (make_subscriber 1 2 OverflowPolicy.summarize)).detached ≡ false)
        ⊎ ((steps slow (make_subscriber 1 2 OverflowPolicy.summarize)).q ≡ []))
subscriber-ordered_example = subscriber-ordered 1 2 OverflowPolicy.summarize slow

running : (steps slow (make_subscriber 1 2 OverflowPolicy.summarize)).stopping ≡ false
unfolding steps step make_subscriber offer overflow drop_oldest wake_waiting take_front is_nil
    finish_callback
running = refl

attached : (steps slow (make_subscriber 1 2 OverflowPolicy.summarize)).detached ≡ false
unfolding steps step make_subscriber offer overflow drop_oldest wake_waiting take_front is_nil
    finish_callback
attached = refl

subscriber-counted_example :
    (n : ℕ) × Within
      ((steps slow (make_subscriber 1 2 OverflowPolicy.summarize)).calls
        ++ (steps slow (make_subscriber 1 2 OverflowPolicy.summarize)).q)
      (1 ∷ 2 ∷ 3 ∷ 4 ∷ [])
      n
    × (n % 2 ^ 64 ≡ (stats (steps slow (make_subscriber 1 2 OverflowPolicy.summarize))).summarized)
    × (n
          + length (steps slow (make_subscriber 1 2 OverflowPolicy.summarize)).calls
          + length (steps slow (make_subscriber 1 2 OverflowPolicy.summarize)).q
        ≡ 4)
subscriber-counted_example = subscriber-counted 1 2 OverflowPolicy.summarize slow running attached

abbrev before : List HubStep
before = listener_added 5 ∷ listener_added 5 ∷ fired (undo 1) ∷ advanced 0 ∷ []

abbrev behind : List HubStep
behind =
    fired (undo 2)
    ∷ advanced 1
    ∷ advanced 0
    ∷ subscribed true 4 OverflowPolicy.detach
    ∷ fired (progress [] one_bits true)
    ∷ worked 1 woken
    ∷ []

-- The second dispatch overtakes the first one.
abbrev is_on_event : ListenerCall → Bool
is_on_event (on_event _) = true
is_on_event (typed _) = false

listening : is_listener 5 (hub_run before empty_hub).1.listeners ≡ true
unfolding hub_run hub_step add_listener is_listener fire dispatch advance
listening = refl

record_path_complete_example :
    count_calls is_on_event (calls_of 5 (hub_run behind (hub_run before empty_hub).1).0)
      + waiting is_on_event 5 (hub_run behind (hub_run before empty_hub).1).1.flights
    ≡ count_calls is_on_event (every_event (hub_run before empty_hub).1.seq behind)
      + waiting is_on_event 5 (hub_run before empty_hub).1.flights
record_path_complete_example = record_path_complete before behind 5 is_on_event listening tt
