-- ===== src/App/Events/Accounts.antt =====
-- The invariant of a subscriber, and the sections of its threads.
use mari_paint.Prelude.{
  ℕ, suc, ◌+◌, ◌%◌, ◌^◌, ◌≤◌, ◌≡◌, refl, sym, ap, ◌∙◌, true, false, List, [], ◌∷◌, ◌++◌, arith,
  length, leb, ◌||◌, not, Bool-cases, inl, inr, length-append, append_assoc, append-nil, if_both,
  if_yes, if_no, subst,
}
use mari_paint.App.Events.Subscriber.{
  OverflowPolicy, Worker, Subscriber, is_nil, make_subscriber, overflow, offer, take_front,
  wake_waiting, finish_callback, stop, Step, offered, woken, finished, stopped, steps, offers,
}
use mari_paint.App.Events.Within.{
  Within, nothing, Within-lose, Within-clear, Within-push, Within-rotate, length-drop_oldest,
}

abbrev pub in_flight : Worker → ℕ
in_flight Worker.in_callback = 1
in_flight _ = 0

module _ {E : Type 0} where
  -- What a subscriber that was offered `os` has done with them.
  pub record Account (os : List E) (s : Subscriber E) : Type 0 where
    -- The callback's calls and the queue are the offers, in order, with some left out.
    pub missing : ℕ
    pub within : Within (s.calls ++ s.q) os missing
    -- As long as it is not stopped or detached, it has counted those that it left out.
    pub counted : s.stopping ≡ false → s.detached ≡ false → missing % 2 ^ 64 ≡ s.summarized
    pub called : (s.delivered + in_flight s.worker) % 2 ^ 64 ≡ length s.calls % 2 ^ 64
    pub positive : 1 ≤ s.cap
    pub bounded : length s.q ≤ s.cap
    pub cut : s.detached ≡ true → s.q ≡ []

  overflow-Account :
      (policy : OverflowPolicy) (e : E) (os : List E) (s : Subscriber E)
      → s.cap ≤ length s.q
      → s.detached ≡ false
      → Account os s
      → Account (os ++ e ∷ []) (overflow policy e s)
  unfolding overflow
  overflow-Account OverflowPolicy.detach e os s full on a =
      let (m, w) = Within-clear s.calls s.q os a.within in
      record {
        missing = suc m;
        within = Within-lose e w;
        counted = λ _ off. cc;
        called = a.called;
        positive = a.positive;
        bounded = omega arith;
        cut = λ _. refl;
      }
  overflow-Account OverflowPolicy.summarize e os s full on a =
      let some' : 1 ≤ length s.q = omega (arith, a.positive) in
      record {
        missing = suc a.missing;
        within = Within-rotate e s.calls s.q os some' a.within;
        counted = λ go stay. omega (arith, a.counted go stay);
        called = a.called;
        positive = a.positive;
        bounded = omega (arith, a.bounded, length-drop_oldest e s.q some');
        cut = λ off. cc;
      }

  offer-Account :
      (e : E) (os : List E) (s : Subscriber E) → Account os s → Account (os ++ e ∷ []) (offer e s)
  unfolding offer
  offer-Account e os s a = elim (Bool-cases (s.stopping || s.detached)) [
    | inl out ↦ subst (Account (os ++ e ∷ [])) (sym (if_yes _ _ out)) (record {
      missing = suc a.missing;
      within = Within-lose e a.within;
      counted = λ go stay. ground (arith, out, go, stay);
      called = a.called;
      positive = a.positive;
      bounded = a.bounded;
      cut = a.cut;
    })
    | inr on ↦
        subst (Account (os ++ e ∷ [])) (sym (if_no _ _ on))
          (elim (Bool-cases (leb s.cap (length s.q))) [
            | inl full ↦
                subst (Account (os ++ e ∷ [])) (sym (if_yes _ _ full))
                  (overflow-Account s.policy e os s (ground (arith, full)) (ground (arith, on)) a)
            | inr free ↦ subst (Account (os ++ e ∷ [])) (sym (if_no _ _ free)) (record {
              missing = a.missing;
              within = Within-push e s.calls s.q os a.within;
              counted = a.counted;
              called = a.called;
              positive = a.positive;
              bounded = ground (arith, free, length-append s.q (e ∷ []));
              cut = λ off. ground (arith, on, off);
            })
          ])
  ]

  take_front-Account :
      (q os : List E) (s : Subscriber E)
      → s.q ≡ q
      → s.worker ≡ Worker.waiting
      → Account os s
      → Account os (take_front q s)
  unfolding take_front
  take_front-Account [] os s e w a = record {
    missing = a.missing;
    within = a.within;
    counted = a.counted;
    called = ap (λ v. (s.delivered + in_flight v) % 2 ^ 64) (sym w) ∙ a.called;
    positive = a.positive;
    bounded = a.bounded;
    cut = a.cut;
  }
  take_front-Account (x ∷ q) os s e w a = elim (Bool-cases s.detached) [
    | inl off ↦ subst (Account os) (sym (if_yes _ _ off)) (record {
      missing = a.missing;
      within = a.within;
      counted = a.counted;
      called = ap (λ v. (s.delivered + in_flight v) % 2 ^ 64) (sym w) ∙ a.called;
      positive = a.positive;
      bounded = a.bounded;
      cut = a.cut;
    })
    | inr on ↦ subst (Account os) (sym (if_no _ _ on)) (record {
      missing = a.missing;
      within =
          rw (append_assoc s.calls (x ∷ []) q)
            (subst (λ r. Within (s.calls ++ r) os a.missing) e a.within);
      counted = a.counted;
      called =
          let idle' = ap (λ v. (s.delivered + in_flight v) % 2 ^ 64) (sym w) ∙ a.called in
          omega (arith, idle', length-append s.calls (x ∷ []));
      positive = a.positive;
      bounded = omega (arith, a.bounded, ap length e);
      cut = λ off. ground (arith, on, off);
    })
  ]

  wake-Account :
      (v : Worker) (os : List E) (s : Subscriber E)
      → s.worker ≡ v
      → Account os s
      → Account os (wake_waiting v s)
  unfolding wake_waiting
  wake-Account Worker.waiting os s w a =
      if_both (Account os) (s.stopping || s.detached || not (is_nil s.q))
        (take_front-Account s.q os s refl w a) a
  wake-Account Worker.in_callback os s w a = a
  wake-Account Worker.returned os s w a = a

  finish-Account :
      (v : Worker) (os : List E) (s : Subscriber E)
      → s.worker ≡ v
      → Account os s
      → Account os (finish_callback v s)
  unfolding finish_callback
  finish-Account Worker.waiting os s w a = a
  finish-Account Worker.returned os s w a = a
  finish-Account Worker.in_callback os s w a = record {
    missing = a.missing;
    within = a.within;
    counted = a.counted;
    called =
        let busy = ap (λ v. (s.delivered + in_flight v) % 2 ^ 64) (sym w) ∙ a.called in
        omega (arith, busy);
    positive = a.positive;
    bounded = a.bounded;
    cut = a.cut;
  }

  stop-Account : (os : List E) (s : Subscriber E) → Account os s → Account os (stop s)
  unfolding stop
  stop-Account os s a = record {
    missing = a.missing;
    within = a.within;
    counted = λ go stay. cc;
    called = a.called;
    positive = a.positive;
    bounded = a.bounded;
    cut = a.cut;
  }

  steps-Account :
      (ts : List (Step E)) (os : List E) (s : Subscriber E)
      → Account os s
      → Account (os ++ offers ts) (steps ts s)
  unfolding steps
  steps-Account [] os s a = rw (append-nil os) a
  steps-Account (offered e ∷ ts) os s a =
      rw⁻¹ (append_assoc os (e ∷ []) (offers ts)) (steps-Account ts _ _ (offer-Account e os s a))
  steps-Account (woken ∷ ts) os s a = steps-Account ts os _ (wake-Account s.worker os s refl a)
  steps-Account (finished ∷ ts) os s a = steps-Account ts os _ (finish-Account s.worker os s refl a)
  steps-Account (stopped ∷ ts) os s a = steps-Account ts os _ (stop-Account os s a)

  pub subscriber-Account :
      (id capacity : ℕ) (policy : OverflowPolicy) (ts : List (Step E))
      → Account (offers ts) (steps ts (make_subscriber id capacity policy))
  unfolding make_subscriber
  subscriber-Account id capacity policy ts = steps-Account ts [] _ (record {
    missing = 0;
    within = nothing;
    counted = λ _ _. refl;
    called = refl;
    positive = ground arith;
    bounded = omega arith;
    cut = λ _. refl;
  })
