-- ===== src/App/Events/RecordPath.antt =====
-- The recording path of the hub: the calls that a listener gets.
use mari_paint.Prelude.{
  ℕ, suc, ◌+◌, ◌%◌, ◌^◌, ◌≡◌, refl, ap, ◌∙◌, Bool, true, List, [], ◌∷◌, ◌++◌, arith, ◌==◌, ◌≢◌,
  if◌then◌else◌, zero, take,
}
use mari_paint.App.Events.Event.{
  AppEvent, Fire, event_of, ListenerCall, typed, on_event, typed_call, as_fired,
  typed_call-event_of,
}
use mari_paint.App.Events.Listeners.{
  times, is_listener-times, hub_run-once, Quiet, remove_listener-Quiet, subscribe-Quiet,
  unsubscribe-Quiet, add_listener-Quiet,
}
use mari_paint.App.Events.Hub.{
  Hub, empty_hub, Flight, ids, is_listener, call_listeners, dispatch, fire, next_flight, calls_at,
  flights_at, advance, HubStep, fired, listener_added, listener_removed, cleared, subscribed,
  unsubscribed, worked, advanced, hub_step, hub_run,
}

-- The calls that one listener gets.
abbrev pub calls_of : ℕ → List (ℕ × ListenerCall) → List ListenerCall
calls_of l [] = []
calls_of l ((m, c) ∷ cs) = if m == l then c ∷ calls_of l cs else calls_of l cs

-- The calls for every event of a run, numbered from the one behind `n`.
abbrev pub every_event : ℕ → List HubStep → List ListenerCall
every_event n [] = []
every_event n (fired f ∷ ts) =
    let seq = (n + 1) % 2 ^ 64 in
    typed (as_fired f) ∷ on_event (record (event_of f) { seq = seq }) ∷ every_event seq ts
every_event n (_ ∷ ts) = every_event n ts

-- How many of some calls pass a test, and of the calls for a listener that are still to come.
abbrev pub count_calls : (ListenerCall → Bool) → List ListenerCall → ℕ
count_calls t [] = 0
count_calls t (c ∷ cs) = if t c then suc (count_calls t cs) else count_calls t cs

abbrev pub waiting : (ListenerCall → Bool) → ℕ → List Flight → ℕ
waiting t l [] = 0
waiting t l (f ∷ fs) = count_calls t (calls_of l f.calls) + waiting t l fs

-- The listener is not taken off.
abbrev pub Stays : ℕ → List HubStep → Type 0
Stays l [] = Unit
Stays l (listener_removed m ∷ ts) = (m ≢ l) × Stays l ts
Stays l (cleared ∷ ts) = ⊥
Stays l (_ ∷ ts) = Stays l ts

calls_of-append :
    (l : ℕ) (cs ds : List (ℕ × ListenerCall))
    → calls_of l (cs ++ ds) ≡ calls_of l cs ++ calls_of l ds
calls_of-append l [] ds = refl
calls_of-append l ((m, c) ∷ cs) ds = ground (arith, calls_of-append l cs ds)

calls_of_none :
    (e : AppEvent) (l : ℕ) (ls : List ℕ) → times l ls ≡ 0 → calls_of l (call_listeners e ls) ≡ []
unfolding call_listeners
calls_of_none e l [] h = refl
calls_of_none e l (m ∷ ls) h = ground (arith, calls_of_none e l ls)

calls_of_once :
    (e : AppEvent) (l : ℕ) (ls : List ℕ)
    → times l ls ≡ 1
    → calls_of l (call_listeners e ls) ≡ typed (typed_call e.kind e) ∷ on_event e ∷ []
unfolding call_listeners
calls_of_once e l [] h = absurd (omega arith)
calls_of_once e l (m ∷ ls) h = ground (arith, calls_of_once e l ls, calls_of_none e l ls)

count_calls-append :
    (t : ListenerCall → Bool) (cs ds : List ListenerCall)
    → count_calls t (cs ++ ds) ≡ count_calls t cs + count_calls t ds
count_calls-append t [] ds = omega arith
count_calls-append t (c ∷ cs) ds = ground (arith, count_calls-append t cs ds)

waiting-append :
    (t : ListenerCall → Bool) (l : ℕ) (fs : List Flight) (f : Flight)
    → waiting t l (fs ++ f ∷ []) ≡ waiting t l fs + count_calls t (calls_of l f.calls)
waiting-append t l [] f = omega arith
waiting-append t l (g ∷ fs) f = omega (arith, waiting-append t l fs f)

-- A step of a dispatch makes a call that was to come, or none.
next_flight_calls :
    (t : ListenerCall → Bool) (l : ℕ) (cs : List (ℕ × ListenerCall)) (f : Flight)
    → f.calls ≡ cs
    → count_calls t (calls_of l (take 1 cs)) + count_calls t (calls_of l (next_flight cs f).calls)
      ≡ count_calls t (calls_of l cs)
unfolding next_flight
next_flight_calls t l [] f e = rw e refl
next_flight_calls t l ((m, c) ∷ cs) f e = ground arith

waiting_at :
    (t : ListenerCall → Bool) (l i : ℕ) (fs : List Flight)
    → count_calls t (calls_of l (calls_at i fs)) + waiting t l (flights_at i fs) ≡ waiting t l fs
unfolding calls_at flights_at
waiting_at t l i [] = refl
waiting_at t l zero (f ∷ fs) = omega (arith, next_flight_calls t l f.calls f refl)
waiting_at t l (suc i) (f ∷ fs) = omega (arith, waiting_at t l i fs)

-- The calls that a listener has got in a run, and those still to come.
abbrev reached_calls : (ListenerCall → Bool) → ℕ → List HubStep → Hub → ℕ
reached_calls t l ts h =
    count_calls t (calls_of l (hub_run ts h).0) + waiting t l (hub_run ts h).1.flights

fired_calls :
    (t : ListenerCall → Bool) (l : ℕ) (f : Fire) (ts : List HubStep) (h : Hub)
    → times l h.listeners ≡ 1
    → count_calls t (every_event (fire f h).seq ts) + waiting t l (fire f h).flights
      ≡ count_calls t (every_event h.seq (fired f ∷ ts)) + waiting t l h.flights
unfolding fire dispatch
fired_calls t l f ts h e =
    let seq = (h.seq + 1) % 2 ^ 64 in
    let numbered = record (event_of f) { seq = seq } in
    let both = typed (as_fired f) ∷ on_event numbered ∷ [] in
    let new = waiting-append t l h.flights (record {
      event = numbered;
      calls = call_listeners numbered h.listeners;
      targets = ids h.subs;
    }) in
    let made = ap (count_calls t) (
      calls_of_once numbered l h.listeners e
      ∙ ap (λ g. typed g ∷ on_event numbered ∷ []) (typed_call-event_of f seq)) in
    omega (arith, new, made, count_calls-append t both (every_event seq ts))

fire_listeners : (l : ℕ) (f : Fire) (h : Hub) → times l (fire f h).listeners ≡ times l h.listeners
unfolding fire dispatch
fire_listeners l f h = refl

advance_listeners : (l i : ℕ) (h : Hub) → times l (advance i h).1.listeners ≡ times l h.listeners
unfolding advance
advance_listeners l i h = refl

advanced_calls :
    (t : ListenerCall → Bool) (l i : ℕ) (ts : List HubStep) (h : Hub)
    → reached_calls t l ts (advance i h).1
      ≡ count_calls t (every_event (advance i h).1.seq ts) + waiting t l (advance i h).1.flights
    → reached_calls t l (advanced i ∷ ts) h
      ≡ count_calls t (every_event h.seq ts) + waiting t l h.flights
unfolding hub_run hub_step advance
advanced_calls t l i ts h ih =
    let made =
      ap (count_calls t) (calls_of-append l (calls_at i h.flights) (hub_run ts (advance i h).1).0)
      ∙ count_calls-append t (calls_of l (calls_at i h.flights))
          (calls_of l (hub_run ts (advance i h).1).0) in
    omega (arith, ih, made, waiting_at t l i h.flights)

unchanged_calls :
    (t : ListenerCall → Bool) (l : ℕ) (ts : List HubStep) (h h' : Hub)
    → Quiet l h h'
    → times l h.listeners ≡ 1
    → (times l h'.listeners ≡ 1
        → reached_calls t l ts h' ≡ count_calls t (every_event h'.seq ts) + waiting t l h'.flights)
    → reached_calls t l ts h' ≡ count_calls t (every_event h.seq ts) + waiting t l h.flights
unchanged_calls t l ts h h' (same, seq, still) e ih =
    ih (same ∙ e)
    ∙ ap (λ n. count_calls t (every_event n ts) + waiting t l h'.flights) seq
    ∙ ap (λ fs. count_calls t (every_event h.seq ts) + waiting t l fs) still

hub_run_calls :
    (t : ListenerCall → Bool) (l : ℕ) (ts : List HubStep) (h : Hub)
    → times l h.listeners ≡ 1
    → Stays l ts
    → reached_calls t l ts h ≡ count_calls t (every_event h.seq ts) + waiting t l h.flights
unfolding hub_run hub_step
hub_run_calls t l [] h e st = refl
hub_run_calls t l (fired f ∷ ts) h e st =
    hub_run_calls t l ts (fire f h) (fire_listeners l f h ∙ e) st ∙ fired_calls t l f ts h e
hub_run_calls t l (advanced i ∷ ts) h e st =
    advanced_calls t l i ts h
      (hub_run_calls t l ts (advance i h).1 (advance_listeners l i h ∙ e) st)
hub_run_calls t l (listener_added m ∷ ts) h e st =
    unchanged_calls t l ts h _ (add_listener-Quiet l m h e) e (λ k. hub_run_calls t l ts _ k st)
hub_run_calls t l (listener_removed m ∷ ts) h e (ne, st) =
    unchanged_calls t l ts h _ (remove_listener-Quiet l m h ne) e (λ k. hub_run_calls t l ts _ k st)
hub_run_calls t l (cleared ∷ ts) h e st = absurd st
hub_run_calls t l (subscribed b c p ∷ ts) h e st =
    unchanged_calls t l ts h _ (subscribe-Quiet l b c p h) e (λ k. hub_run_calls t l ts _ k st)
hub_run_calls t l (unsubscribed id ∷ ts) h e st =
    unchanged_calls t l ts h _ (unsubscribe-Quiet l id h) e (λ k. hub_run_calls t l ts _ k st)
hub_run_calls t l (worked id w ∷ ts) h e st = hub_run_calls t l ts _ e st

-- Take a listener that is on the list at some time of the bus and is not taken off from then on,
-- and any steps of any threads from then on. Then the calls that it gets in them and those that
-- are still to come behind them are, each as often, those still to come at that time and, for
-- every event fired from then on, numbered one after the other, its typed callback with what was
-- fired and onEvent: whatever test there is, as many pass it.
pub record_path_complete :
    (before ts : List HubStep) (l : ℕ) (t : ListenerCall → Bool)
    → is_listener l (hub_run before empty_hub).1.listeners ≡ true
    → Stays l ts
    → count_calls t (calls_of l (hub_run ts (hub_run before empty_hub).1).0)
        + waiting t l (hub_run ts (hub_run before empty_hub).1).1.flights
      ≡ count_calls t (every_event (hub_run before empty_hub).1.seq ts)
        + waiting t l (hub_run before empty_hub).1.flights
record_path_complete before ts l t on st =
    let once = hub_run-once l before empty_hub (omega arith) in
    let some' = is_listener-times l (hub_run before empty_hub).1.listeners on in
    hub_run_calls t l ts (hub_run before empty_hub).1 (omega arith) st
