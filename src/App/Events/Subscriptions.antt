-- ===== src/App/Events/Subscriptions.antt =====
-- The ids of subscriptions.
use mari_paint.Prelude.{
  ℕ, suc, ◌+◌, ◌^◌, ◌≤◌, ◌<◌, ◌≡◌, refl, true, false, List, [], ◌∷◌, ◌++◌, arith, ◌==◌, ◌≢◌,
  if◌then◌else◌, length, zero, Bool-cases, inl, inr,
}
use mari_paint.App.Events.Event.{AppEvent, ListenerCall}
use mari_paint.App.Events.Subscriber.{
  OverflowPolicy, Worker, Subscriber, make_subscriber, overflow, offer, take_front, wake_waiting,
  finish_callback, stop, stats, Step, offered, woken, finished, stopped, step,
}
use mari_paint.App.Events.Hub.{
  Hub, empty_hub, add_listener, remove_listener, clear, subscribe, has_id, erase_id, unsubscribe,
  no_stats, stats_of, subscriber_stats, dispatch, fire, at_subscriber, HubStep, fired,
  listener_added, listener_removed, cleared, subscribed, unsubscribed, worked, advanced, Flight,
  next_offer, offers_at, advance, hub_step, hub_run,
}

abbrev pub id_times : ℕ → List (Subscriber AppEvent) → ℕ
id_times id [] = 0
id_times id (s ∷ ss) = if s.id == id then suc (id_times id ss) else id_times id ss

-- No operation of a subscriber changes its id.
id-take_front : (q : List AppEvent) (s : Subscriber AppEvent) → (take_front q s).id ≡ s.id
unfolding take_front
id-take_front [] s = refl
id-take_front (e ∷ q) s = ground arith

id-overflow :
    (p : OverflowPolicy) (e : AppEvent) (s : Subscriber AppEvent) → (overflow p e s).id ≡ s.id
unfolding overflow
id-overflow OverflowPolicy.detach e s = refl
id-overflow OverflowPolicy.summarize e s = refl

id-offer : (e : AppEvent) (s : Subscriber AppEvent) → (offer e s).id ≡ s.id
unfolding offer
id-offer e s = ground (arith, id-overflow s.policy e s)

id-wake : (w : Worker) (s : Subscriber AppEvent) → (wake_waiting w s).id ≡ s.id
unfolding wake_waiting
id-wake Worker.waiting s = ground (arith, id-take_front s.q s)
id-wake Worker.in_callback s = refl
id-wake Worker.returned s = refl

id-finish : (w : Worker) (s : Subscriber AppEvent) → (finish_callback w s).id ≡ s.id
unfolding finish_callback
id-finish Worker.waiting s = refl
id-finish Worker.in_callback s = refl
id-finish Worker.returned s = refl

id-step : (t : Step AppEvent) (s : Subscriber AppEvent) → (step t s).id ≡ s.id
unfolding step stop
id-step (offered e) s = id-offer e s
id-step woken s = id-wake s.worker s
id-step finished s = id-finish s.worker s
id-step stopped s = refl

id_times-at :
    (id i : ℕ) (t : Step AppEvent) (ss : List (Subscriber AppEvent))
    → id_times id (at_subscriber i t ss) ≡ id_times id ss
unfolding at_subscriber
id_times-at id i t [] = refl
id_times-at id i t (s ∷ ss) = ground (arith, id-step t s, id_times-at id i t ss)

id_times-next :
    (id : ℕ) (cs : List (ℕ × ListenerCall)) (targets : List ℕ) (e : AppEvent)
    (ss : List (Subscriber AppEvent))
    → id_times id (next_offer cs targets e ss) ≡ id_times id ss
unfolding next_offer
id_times-next id [] [] e ss = refl
id_times-next id [] (i ∷ is) e ss = id_times-at id i (offered e) ss
id_times-next id (c ∷ cs) targets e ss = refl

id_times-offers :
    (id i : ℕ) (fs : List Flight) (ss : List (Subscriber AppEvent))
    → id_times id (offers_at i fs ss) ≡ id_times id ss
unfolding offers_at
id_times-offers id i [] ss = refl
id_times-offers id zero (f ∷ fs) ss = id_times-next id f.calls f.targets f.event ss
id_times-offers id (suc i) (f ∷ fs) ss = id_times-offers id i fs ss

id_times-append :
    (id : ℕ) (ss : List (Subscriber AppEvent)) (s : Subscriber AppEvent)
    → id_times id (ss ++ s ∷ []) ≡ id_times id ss + id_times id (s ∷ [])
id_times-append id [] s = ground arith
id_times-append id (u ∷ ss) s = ground (arith, id_times-append id ss s)

id_times-erase :
    (id i : ℕ) (ss : List (Subscriber AppEvent)) → id_times id (erase_id i ss) ≤ id_times id ss
unfolding erase_id
id_times-erase id i [] = omega arith
id_times-erase id i (s ∷ ss) = ground (arith, id_times-erase id i ss)

-- A hub that may still give out `k` ids: those in use are below the next one, and each is used once.
record Numbered (k : ℕ) (h : Hub) : Type 0 where
  first : 1 ≤ h.next_id
  room : h.next_id + k < 2 ^ 64
  fresh : (id : ℕ) → h.next_id ≤ id → id_times id h.subs ≡ 0
  zero : id_times 0 h.subs ≡ 0
  once : (id : ℕ) → id_times id h.subs ≤ 1

-- Nothing but `subscribe` and `unsubscribe` changes the ids.
same_ids :
    (k : ℕ) (h : Hub) (h' : Hub)
    → h'.next_id ≡ h.next_id
    → ((id : ℕ) → id_times id h'.subs ≤ id_times id h.subs)
    → Numbered (suc k) h
    → Numbered k h'
same_ids k h h' e le n = record {
  first = omega (arith, n.first);
  room = omega (arith, n.room);
  fresh = λ id ge. let f = n.fresh id (omega arith) in omega (arith, le id, f);
  zero = omega (arith, le 0, n.zero);
  once = λ id. omega (arith, le id, n.once id);
}

hub_step-Numbered :
    (k : ℕ) (t : HubStep) (h : Hub) → Numbered (suc k) h → Numbered k (hub_step t h).1
unfolding hub_step fire dispatch advance clear subscribe make_subscriber unsubscribe add_listener
    remove_listener
hub_step-Numbered k (fired f) h n = same_ids k h _ refl (λ id. omega arith) n
hub_step-Numbered k (advanced i) h n =
    same_ids k h _ refl (λ id. omega (arith, id_times-offers id i h.flights h.subs)) n
hub_step-Numbered k (listener_added l) h n = same_ids k h _ (ground arith) (λ id. ground arith) n
hub_step-Numbered k (listener_removed l) h n = same_ids k h _ (ground arith) (λ id. ground arith) n
hub_step-Numbered k cleared h n = same_ids k h _ refl (λ id. omega arith) n
hub_step-Numbered k (subscribed false c p) h n = same_ids k h _ refl (λ id. omega arith) n
hub_step-Numbered k (subscribed true c p) h n = record {
  first = ground (arith, n.first, n.room);
  room = omega (arith, n.room);
  fresh = λ id ge.
      ground
        (arith, n.fresh id, n.room, ge, id_times-append id h.subs (make_subscriber h.next_id c p));
  zero = ground (arith, n.zero, n.first, id_times-append 0 h.subs (make_subscriber h.next_id c p));
  once = λ id.
      ground
        (arith, n.once id, n.fresh id, id_times-append id h.subs (make_subscriber h.next_id c p));
}
hub_step-Numbered k (unsubscribed id) h n =
    same_ids k h _ (ground arith) (λ i. ground (arith, id_times-erase i id h.subs)) n
hub_step-Numbered k (worked id t) h n =
    same_ids k h _ refl (λ i. omega (arith, id_times-at i id t h.subs)) n

hub_run-Numbered :
    (ts : List HubStep) (h : Hub) → Numbered (suc (length ts)) h → Numbered 1 (hub_run ts h).1
unfolding hub_run
hub_run-Numbered [] h n = n
hub_run-Numbered (t ∷ ts) h n = hub_run-Numbered ts _ (hub_step-Numbered (suc (length ts)) t h n)

bus-Numbered : (ts : List HubStep) → length ts + 2 < 2 ^ 64 → Numbered 1 (hub_run ts empty_hub).1
bus-Numbered ts lt = hub_run-Numbered ts empty_hub (record {
  first = omega arith;
  room = omega arith;
  fresh = λ id _. refl;
  zero = refl;
  once = λ id. omega arith;
})

stats-none :
    (id : ℕ) (ss : List (Subscriber AppEvent)) → id_times id ss ≡ 0 → stats_of id ss ≡ no_stats
unfolding stats_of
stats-none id [] h = refl
stats-none id (s ∷ ss) h = ground (arith, stats-none id ss)

stats-append :
    (id : ℕ) (ss : List (Subscriber AppEvent)) (s : Subscriber AppEvent)
    → id_times id ss ≡ 0
    → s.id ≡ id
    → stats_of id (ss ++ s ∷ []) ≡ stats s
unfolding stats_of
stats-append id [] s h e = ground (arith, e)
stats-append id (u ∷ ss) s h e = ground (arith, stats-append id ss s)

stats-erase_other :
    (id i : ℕ) (ss : List (Subscriber AppEvent))
    → i ≢ id
    → stats_of i (erase_id id ss) ≡ stats_of i ss
unfolding stats_of erase_id
stats-erase_other id i [] ne = refl
stats-erase_other id i (s ∷ ss) ne = ground (arith, stats-erase_other id i ss)

erase_id-once :
    (id : ℕ) (ss : List (Subscriber AppEvent))
    → id_times id ss ≤ 1
    → id_times id (erase_id id ss) ≡ 0
unfolding erase_id
erase_id-once id [] le = refl
erase_id-once id (s ∷ ss) le = ground (arith, erase_id-once id ss)

has_id-times :
    (id : ℕ) (ss : List (Subscriber AppEvent)) → has_id id ss ≡ false → id_times id ss ≡ 0
unfolding has_id
has_id-times id [] h = refl
has_id-times id (s ∷ ss) h = ground (arith, has_id-times id ss)

-- After any run of the bus of fewer than 2^64 - 2 steps, subscribing with a callback gives an id
-- that is not 0 and that no subscriber has, and the new subscriber starts with nothing delivered.
pub subscribe-fresh :
    (ts : List HubStep) (capacity : ℕ) (policy : OverflowPolicy)
    → length ts + 2 < 2 ^ 64
    → let h = (hub_run ts empty_hub).1 in
      let (id, h') = subscribe true capacity policy h in
      (id ≢ 0)
      × (subscriber_stats id h ≡ no_stats)
      × (subscriber_stats id h' ≡ record no_stats { alive = true })
unfolding subscribe subscriber_stats make_subscriber stats
subscribe-fresh ts capacity policy lt =
    let h = (hub_run ts empty_hub).1 in
    let n = bus-Numbered ts lt in
    let none = n.fresh h.next_id (omega arith) in
    (
      λ e. omega (arith, n.first, e),
      stats-none h.next_id h.subs none,
      stats-append h.next_id h.subs (make_subscriber h.next_id capacity policy) none refl,
    )

-- After any run of the bus of fewer than 2^64 - 2 steps, once an id has been unsubscribed nobody
-- has it, whether or not it was in use, and the numbers of any other id do not change.
pub unsubscribe-exact :
    (ts : List HubStep) (id i : ℕ)
    → length ts + 2 < 2 ^ 64
    → i ≢ id
    → let h = (hub_run ts empty_hub).1 in
      let h' = (unsubscribe id h).1 in
      (subscriber_stats id h' ≡ no_stats) × (subscriber_stats i h' ≡ subscriber_stats i h)
unfolding unsubscribe subscriber_stats
unsubscribe-exact ts id i lt ne =
    let h = (hub_run ts empty_hub).1 in
    let n = bus-Numbered ts lt in
    elim (Bool-cases (has_id id h.subs)) [
      | inl on ↦
          rw on (
            stats-none id _ (erase_id-once id h.subs (n.once id)),
            stats-erase_other id i h.subs ne,
          )
      | inr off ↦ rw off (stats-none id _ (has_id-times id h.subs off), refl)
    ]
