-- ===== src/App/Events/Hub.antt =====
-- `EventHub` (app/src/events.cpp). A listener is known by its address, the null pointer is 0. A
-- dispatch is its section under the lock and then, one at a time, its calls of listeners and its
-- offers; the steps of any threads may stand between any two of these.
use mari_paint.Prelude.{
  ℕ, ◌+◌, ◌%◌, ◌^◌, Bool, true, false, List, [], ◌∷◌, ◌++◌, zero, suc, take, drop, ◌==◌,
  if◌then◌else◌,
}
use mari_paint.App.Events.Event.{
  AppEvent, Fire, event_of, ListenerCall, typed, on_event, typed_call,
}
use mari_paint.App.Events.Subscriber.{
  OverflowPolicy, Subscriber, SubscriberStats, make_subscriber, stats, Step, offered, step,
}

-- A dispatch that has left the lock: the calls of listeners and the ids of the subscribers that are
-- still to come.
pub record Flight : Type 0 where
  pub event : AppEvent
  pub calls : List (ℕ × ListenerCall)
  pub targets : List ℕ

pub record Hub : Type 0 where
  pub listeners : List ℕ
  pub subs : List (Subscriber AppEvent)
  pub next_id : ℕ
  pub seq : ℕ
  pub flights : List Flight

abbrev pub empty_hub : Hub
empty_hub = record { listeners = []; subs = []; next_id = 1; seq = 0; flights = [] }

unfoldable pub is_listener : ℕ → List ℕ → Bool
is_listener l [] = false
is_listener l (m ∷ ms) = if m == l then true else is_listener l ms

unfoldable pub erase_first : ℕ → List ℕ → List ℕ
erase_first l [] = []
erase_first l (m ∷ ms) = if m == l then ms else m ∷ erase_first l ms

unfoldable pub add_listener : ℕ → Hub → Hub
unfolding is_listener
add_listener l h =
    if l == 0
    then h
    else if is_listener l h.listeners
    then h
    else record h { listeners = h.listeners ++ l ∷ [] }

unfoldable pub remove_listener : ℕ → Hub → Bool × Hub
unfolding is_listener erase_first
remove_listener l h =
    if is_listener l h.listeners
    then (true, record h { listeners = erase_first l h.listeners })
    else (false, h)

unfoldable pub clear : Hub → Hub
clear h = record h { listeners = []; subs = [] }

-- `subscribe`, given whether there is a callback.
unfoldable pub subscribe : Bool → ℕ → OverflowPolicy → Hub → ℕ × Hub
unfolding make_subscriber
subscribe has_callback capacity policy h =
    if has_callback
    then (
      h.next_id,
      record h {
        next_id = (h.next_id + 1) % 2 ^ 64;
        subs = h.subs ++ make_subscriber h.next_id capacity policy ∷ [];
      },
    )
    else (0, h)

unfoldable pub has_id : ℕ → List (Subscriber AppEvent) → Bool
has_id id [] = false
has_id id (s ∷ ss) = if s.id == id then true else has_id id ss

unfoldable pub erase_id : ℕ → List (Subscriber AppEvent) → List (Subscriber AppEvent)
erase_id id [] = []
erase_id id (s ∷ ss) = if s.id == id then ss else s ∷ erase_id id ss

unfoldable pub unsubscribe : ℕ → Hub → Bool × Hub
unfolding has_id erase_id
unsubscribe id h =
    if has_id id h.subs then (true, record h { subs = erase_id id h.subs }) else (false, h)

abbrev pub no_stats : SubscriberStats
no_stats = record { delivered = 0; summarized = 0; detached = false; alive = false }

unfoldable pub stats_of : ℕ → List (Subscriber AppEvent) → SubscriberStats
unfolding stats
stats_of id [] = no_stats
stats_of id (s ∷ ss) = if s.id == id then stats s else stats_of id ss

unfoldable pub subscriber_stats : ℕ → Hub → SubscriberStats
unfolding stats_of
subscriber_stats id h = stats_of id h.subs

-- The recording path: each listener gets its typed callback and `onEvent`.
unfoldable pub call_listeners : AppEvent → List ℕ → List (ℕ × ListenerCall)
unfolding typed_call
call_listeners e [] = []
call_listeners e (l ∷ ls) = (l, typed (typed_call e.kind e)) ∷ (l, on_event e) ∷ call_listeners e ls

abbrev pub ids : List (Subscriber AppEvent) → List ℕ
ids [] = []
ids (s ∷ ss) = s.id ∷ ids ss

-- The section of `dispatch` under the lock: the number, and what is copied.
unfoldable pub dispatch : AppEvent → Hub → Hub
unfolding call_listeners
dispatch e h =
    let seq = (h.seq + 1) % 2 ^ 64 in
    let numbered = record e { seq = seq } in
    record h {
      seq = seq;
      flights =
          h.flights
          ++ record {
            event = numbered;
            calls = call_listeners numbered h.listeners;
            targets = ids h.subs;
          }
            ∷ [];
    }

-- The `fire…` functions.
unfoldable pub fire : Fire → Hub → Hub
unfolding dispatch event_of
fire f h = dispatch (event_of f) h

-- A section of the thread of the subscriber with this id.
unfoldable pub at_subscriber :
    ℕ → Step AppEvent → List (Subscriber AppEvent) → List (Subscriber AppEvent)
unfolding step
at_subscriber id t [] = []
at_subscriber id t (s ∷ ss) = (if s.id == id then step t s else s) ∷ at_subscriber id t ss

-- Behind the lock, the thread of a dispatch calls the listeners in order, and then it offers the
-- event to the subscribers.
unfoldable pub next_offer :
    List (ℕ × ListenerCall)
    → List ℕ
    → AppEvent
    → List (Subscriber AppEvent)
    → List (Subscriber AppEvent)
unfolding at_subscriber
next_offer [] (id ∷ _) e ss = at_subscriber id (offered e) ss
next_offer _ _ e ss = ss

unfoldable pub next_flight : List (ℕ × ListenerCall) → Flight → Flight
next_flight [] f = record f { targets = drop 1 f.targets }
next_flight (_ ∷ cs) f = record f { calls = cs }

-- The next of these steps of the dispatch with this index.
unfoldable pub calls_at : ℕ → List Flight → List (ℕ × ListenerCall)
calls_at i [] = []
calls_at zero (f ∷ fs) = take 1 f.calls
calls_at (suc i) (f ∷ fs) = calls_at i fs

unfoldable pub offers_at : ℕ → List Flight → List (Subscriber AppEvent) → List (Subscriber AppEvent)
unfolding next_offer
offers_at i [] ss = ss
offers_at zero (f ∷ fs) ss = next_offer f.calls f.targets f.event ss
offers_at (suc i) (f ∷ fs) ss = offers_at i fs ss

unfoldable pub flights_at : ℕ → List Flight → List Flight
unfolding next_flight
flights_at i [] = []
flights_at zero (f ∷ fs) = next_flight f.calls f ∷ fs
flights_at (suc i) (f ∷ fs) = f ∷ flights_at i fs

unfoldable pub advance : ℕ → Hub → List (ℕ × ListenerCall) × Hub
unfolding calls_at offers_at flights_at
advance i h = (
  calls_at i h.flights,
  record h { subs = offers_at i h.flights h.subs; flights = flights_at i h.flights },
)

-- A call of the hub (up to its end under the lock), a step of the thread of a dispatch behind the
-- lock, or a section of a subscriber's thread.
pub data HubStep : Type 0 where
  fired : Fire → HubStep
  listener_added listener_removed : ℕ → HubStep
  cleared : HubStep
  subscribed : Bool → ℕ → OverflowPolicy → HubStep
  unsubscribed : ℕ → HubStep
  worked : ℕ → Step AppEvent → HubStep
  advanced : ℕ → HubStep

unfoldable pub hub_step : HubStep → Hub → List (ℕ × ListenerCall) × Hub
unfolding fire add_listener remove_listener clear subscribe unsubscribe at_subscriber advance
hub_step (fired f) h = ([], fire f h)
hub_step (advanced i) h = advance i h
hub_step (listener_added l) h = ([], add_listener l h)
hub_step (listener_removed l) h = ([], (remove_listener l h).1)
hub_step cleared h = ([], clear h)
hub_step (subscribed b capacity policy) h = ([], (subscribe b capacity policy h).1)
hub_step (unsubscribed id) h = ([], (unsubscribe id h).1)
hub_step (worked id t) h = ([], record h { subs = at_subscriber id t h.subs })

-- The calls that listeners get in a run, and the hub behind it.
unfoldable pub hub_run : List HubStep → Hub → List (ℕ × ListenerCall) × Hub
unfolding hub_step
hub_run [] h = ([], h)
hub_run (t ∷ ts) h =
    let (calls, h') = hub_step t h in let (rest, last) = hub_run ts h' in (calls ++ rest, last)
