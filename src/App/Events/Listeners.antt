-- ===== src/App/Events/Listeners.antt =====
-- The list of listeners of the hub: how often a listener is on it, behind any steps.
use mari_paint.Prelude.{
  ℕ, suc, ◌+◌, ◌≤◌, ◌≡◌, refl, sym, ◌∙◌, Bool, true, false, List, [], ◌∷◌, ◌++◌, arith, ◌==◌, ◌≢◌,
  if◌then◌else◌,
}
use mari_paint.App.Events.Subscriber.{OverflowPolicy}
use mari_paint.App.Events.Hub.{
  Hub, is_listener, erase_first, add_listener, remove_listener, clear, subscribe, unsubscribe,
  dispatch, fire, advance, HubStep, fired, listener_added, listener_removed, cleared, subscribed,
  unsubscribed, worked, advanced, hub_step, hub_run,
}

-- How often a listener is on the list.
abbrev pub times : ℕ → List ℕ → ℕ
times l [] = 0
times l (m ∷ ms) = if m == l then suc (times l ms) else times l ms

times-append : (l m : ℕ) (ls : List ℕ) → times l (ls ++ m ∷ []) ≡ times l ls + times l (m ∷ [])
times-append l m [] = ground arith
times-append l m (k ∷ ls) = ground (arith, times-append l m ls)

times-is_listener : (l : ℕ) (ls : List ℕ) → is_listener l ls ≡ false → times l ls ≡ 0
unfolding is_listener
times-is_listener l [] h = refl
times-is_listener l (m ∷ ls) h = ground (arith, times-is_listener l ls)

pub is_listener-times : (l : ℕ) (ls : List ℕ) → is_listener l ls ≡ true → 1 ≤ times l ls
unfolding is_listener
is_listener-times l [] h = cc
is_listener-times l (m ∷ ls) h = ground (arith, is_listener-times l ls)

times-erase_first : (l m : ℕ) (ls : List ℕ) → times l (erase_first m ls) ≤ times l ls
unfolding erase_first
times-erase_first l m [] = omega arith
times-erase_first l m (k ∷ ls) = ground (arith, times-erase_first l m ls)

times-erase_first_other : (l m : ℕ) (ls : List ℕ) → m ≢ l → times l (erase_first m ls) ≡ times l ls
unfolding erase_first
times-erase_first_other l m [] h = refl
times-erase_first_other l m (k ∷ ls) h = ground (arith, times-erase_first_other l m ls h)

-- A listener is on the list at most once.
add_listener-once :
    (l m : ℕ) (h : Hub) → times l h.listeners ≤ 1 → times l (add_listener m h).listeners ≤ 1
unfolding add_listener
add_listener-once l m h le =
    ground (arith, le, times-append l m h.listeners, times-is_listener m h.listeners)

add_listener-stays :
    (l m : ℕ) (h : Hub) → times l h.listeners ≡ 1 → times l (add_listener m h).listeners ≡ 1
unfolding add_listener
add_listener-stays l m h e =
    ground (arith, e, times-append l m h.listeners, times-is_listener m h.listeners)

hub_step-once :
    (l : ℕ) (t : HubStep) (h : Hub)
    → times l h.listeners ≤ 1
    → times l (hub_step t h).1.listeners ≤ 1
unfolding hub_step remove_listener clear subscribe unsubscribe fire dispatch advance
hub_step-once l (fired f) h le = le
hub_step-once l (listener_added m) h le = add_listener-once l m h le
hub_step-once l (listener_removed m) h le = ground (arith, le, times-erase_first l m h.listeners)
hub_step-once l cleared h le = omega arith
hub_step-once l (subscribed b c p) h le = ground (arith, le)
hub_step-once l (unsubscribed id) h le = ground (arith, le)
hub_step-once l (worked id t) h le = le
hub_step-once l (advanced i) h le = le

pub hub_run-once :
    (l : ℕ) (ts : List HubStep) (h : Hub)
    → times l h.listeners ≤ 1
    → times l (hub_run ts h).1.listeners ≤ 1
unfolding hub_run
hub_run-once l [] h le = le
hub_run-once l (t ∷ ts) h le = hub_run-once l ts (hub_step t h).1 (hub_step-once l t h le)

-- What a step other than a fire leaves alone.
abbrev pub Quiet : ℕ → Hub → Hub → Type 0
Quiet l h h' =
    (times l h'.listeners ≡ times l h.listeners) × (h'.seq ≡ h.seq) × (h'.flights ≡ h.flights)

pub remove_listener-Quiet : (l m : ℕ) (h : Hub) → m ≢ l → Quiet l h (remove_listener m h).1
unfolding remove_listener
remove_listener-Quiet l m h ne = ground (arith, times-erase_first_other l m h.listeners ne)

pub subscribe-Quiet :
    (l : ℕ) (b : Bool) (c : ℕ) (p : OverflowPolicy) (h : Hub) → Quiet l h (subscribe b c p h).1
unfolding subscribe
subscribe-Quiet l true c p h = (refl, refl, refl)
subscribe-Quiet l false c p h = (refl, refl, refl)

pub unsubscribe-Quiet : (l id : ℕ) (h : Hub) → Quiet l h (unsubscribe id h).1
unfolding unsubscribe
unsubscribe-Quiet l id h = ground arith

pub add_listener-Quiet :
    (l m : ℕ) (h : Hub) → times l h.listeners ≡ 1 → Quiet l h (add_listener m h)
unfolding add_listener
add_listener-Quiet l m h e = (add_listener-stays l m h e ∙ sym e, ground arith, ground arith)
