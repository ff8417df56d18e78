-- ===== src/App/Events/Losses.antt =====
-- What a subscriber sees of the events that it is offered, and what it says of the others.
use mari_paint.Prelude.{
  ℕ, ◌+◌, ◌%◌, ◌^◌, ◌≤◌, ◌≡◌, ◌⊎◌, refl, ◌∙◌, false, List, [], ◌∷◌, ◌++◌, arith, length, Bool-cases,
  inl, inr, length-append, subst, if◌then◌else◌, ◌==◌,
}
use mari_paint.App.Events.Subscriber.{
  OverflowPolicy, Worker, Subscriber, make_subscriber, overflow, offer, take_front, wake_waiting,
  finish_callback, stop, stats, Step, offered, woken, finished, stopped, step, steps, offers,
}
use mari_paint.App.Events.Within.{Within, Within-length}
use mari_paint.App.Events.Accounts.{in_flight, subscriber-Account}

module _ {E : Type 0} where
  cap-overflow : (p : OverflowPolicy) (e : E) (s : Subscriber E) → (overflow p e s).cap ≡ s.cap
  unfolding overflow
  cap-overflow OverflowPolicy.detach e s = refl
  cap-overflow OverflowPolicy.summarize e s = refl

  cap-take_front : (q : List E) (s : Subscriber E) → (take_front q s).cap ≡ s.cap
  unfolding take_front
  cap-take_front [] s = refl
  cap-take_front (e ∷ q) s = ground arith

  cap-wake : (w : Worker) (s : Subscriber E) → (wake_waiting w s).cap ≡ s.cap
  unfolding wake_waiting
  cap-wake Worker.waiting s = ground (arith, cap-take_front s.q s)
  cap-wake Worker.in_callback s = refl
  cap-wake Worker.returned s = refl

  cap-finish : (w : Worker) (s : Subscriber E) → (finish_callback w s).cap ≡ s.cap
  unfolding finish_callback
  cap-finish Worker.waiting s = refl
  cap-finish Worker.in_callback s = refl
  cap-finish Worker.returned s = refl

  cap-steps : (ts : List (Step E)) (s : Subscriber E) → (steps ts s).cap ≡ s.cap
  unfolding steps step offer stop
  cap-steps [] s = refl
  cap-steps (offered e ∷ ts) s =
      cap-steps ts (offer e s) ∙ ground (arith, cap-overflow s.policy e s)
  cap-steps (woken ∷ ts) s = cap-steps ts _ ∙ cap-wake s.worker s
  cap-steps (finished ∷ ts) s = cap-steps ts _ ∙ cap-finish s.worker s
  cap-steps (stopped ∷ ts) s = cap-steps ts (stop s)

  -- Whatever the threads do, in any interleaving of their sections, the callback's calls and the
  -- queue of a new subscriber are the events that it was offered, in their order, with some left
  -- out; its count of calls is, as a number of 64 bits, the number of calls but for one that is
  -- running; its queue is never longer than its capacity (at least 1), and empty once it is
  -- detached.
  pub subscriber-ordered :
      (id capacity : ℕ) (policy : OverflowPolicy) (ts : List (Step E))
      → let s = steps ts (make_subscriber id capacity policy) in
        (n : ℕ) × Within (s.calls ++ s.q) (offers ts) n
        × ((s.delivered + in_flight s.worker) % 2 ^ 64 ≡ length s.calls % 2 ^ 64)
        × (length s.q ≤ (if capacity == 0 then 1 else capacity))
        × ((s.detached ≡ false) ⊎ (s.q ≡ []))
  unfolding make_subscriber
  subscriber-ordered id capacity policy ts =
      let s = steps ts (make_subscriber id capacity policy) in
      let a = subscriber-Account id capacity policy ts in
      let cap = cap-steps ts (make_subscriber id capacity policy) in
      (
        a.missing,
        a.within,
        a.called,
        subst (λ c. length s.q ≤ c) cap a.bounded,
        elim (Bool-cases s.detached) [ inl off ↦ inr (a.cut off) | inr on ↦ inl on ],
      )

  -- In any interleaving of the sections of its threads, as long as a new subscriber is neither
  -- stopped nor detached, the number of the events that it was offered and that neither reached
  -- its callback nor wait in its queue is, as a number of 64 bits, the number that it reports as
  -- summarized.
  pub subscriber-counted :
      (id capacity : ℕ) (policy : OverflowPolicy) (ts : List (Step E))
      → (steps ts (make_subscriber id capacity policy)).stopping ≡ false
      → (steps ts (make_subscriber id capacity policy)).detached ≡ false
      → let s = steps ts (make_subscriber id capacity policy) in
        (n : ℕ) × Within (s.calls ++ s.q) (offers ts) n
        × (n % 2 ^ 64 ≡ (stats s).summarized)
        × (n + length s.calls + length s.q ≡ length (offers ts))
  unfolding stats
  subscriber-counted id capacity policy ts go stay =
      let s = steps ts (make_subscriber id capacity policy) in
      let a = subscriber-Account id capacity policy ts in
      (
        a.missing,
        a.within,
        a.counted go stay,
        omega (arith, Within-length a.within, length-append s.calls s.q),
      )
