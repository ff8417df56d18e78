-- ===== src/App/Events/Subscriber.antt =====
-- One subscriber (`EventHub::Subscriber` of app/src/events.cpp): its queue, its policy, and the steps
-- of its worker. Each function is one critical section of the source, under the subscriber's own
-- lock, so an interleaving of the threads is a sequence of these. `calls` are the events that the
-- callback has been called with so far: they are no field of the source.
use mari_paint.Prelude.{
  ℕ, ◌+◌, ◌%◌, ◌^◌, Bool, true, false, List, [], ◌∷◌, ◌++◌, length, leb, ◌==◌, ◌&&◌, ◌||◌, not,
  if◌then◌else◌,
}

pub data OverflowPolicy : Type 0 where
  summarize detach : OverflowPolicy

-- Where the worker stands in `run`: at the top of the loop, in the callback, or returned.
pub data Worker : Type 0 where
  waiting in_callback returned : Worker

unfoldable is_in_callback : Worker → Bool
is_in_callback Worker.in_callback = true
is_in_callback _ = false

pub record SubscriberStats : Type 0 where
  pub delivered : ℕ
  pub summarized : ℕ
  pub detached : Bool
  pub alive : Bool

pub record Subscriber (E : Type 0) : Type 0 where
  pub id : ℕ
  pub cap : ℕ
  pub policy : OverflowPolicy
  pub q : List E
  pub delivered : ℕ
  pub summarized : ℕ
  pub stopping : Bool
  pub detached : Bool
  pub worker : Worker
  pub calls : List E

-- The constructor and `start`.
unfoldable pub make_subscriber : {E : Type 0} → ℕ → ℕ → OverflowPolicy → Subscriber E
make_subscriber id capacity policy = record {
  id = id;
  cap = if capacity == 0 then 1 else capacity;
  policy = policy;
  q = [];
  delivered = 0;
  summarized = 0;
  stopping = false;
  detached = false;
  worker = Worker.waiting;
  calls = [];
}

module _ {E : Type 0} where
  unfoldable pub drop_oldest : List E → List E
  drop_oldest [] = []
  drop_oldest (x ∷ q) = q

  -- A full queue under each policy.
  unfoldable pub overflow : OverflowPolicy → E → Subscriber E → Subscriber E
  unfolding drop_oldest
  overflow OverflowPolicy.detach e s = record s { detached = true; q = [] }
  overflow OverflowPolicy.summarize e s = record s {
    q = drop_oldest s.q ++ e ∷ [];
    summarized = (s.summarized + 1) % 2 ^ 64;
  }

  unfoldable pub offer : E → Subscriber E → Subscriber E
  unfolding overflow
  offer e s =
      if s.stopping || s.detached
      then s
      else if leb s.cap (length s.q)
      then overflow s.policy e s
      else record s { q = s.q ++ e ∷ [] }

  -- The first critical section of the loop of `run`, once its wait is over.
  unfoldable pub take_front : List E → Subscriber E → Subscriber E
  take_front [] s = record s { worker = Worker.returned }
  take_front (e ∷ q) s =
      if s.detached
      then record s { worker = Worker.returned }
      else record s { q = q; worker = Worker.in_callback; calls = s.calls ++ e ∷ [] }

  unfoldable pub is_nil : List E → Bool
  is_nil [] = true
  is_nil (_ ∷ _) = false

  -- Waking up: the condition of the wait, and the section behind it.
  unfoldable pub wake_waiting : Worker → Subscriber E → Subscriber E
  unfolding take_front is_nil
  wake_waiting Worker.waiting s =
      if s.stopping || s.detached || not (is_nil s.q) then take_front s.q s else s
  wake_waiting _ s = s

  -- The second section, behind the callback.
  unfoldable pub finish_callback : Worker → Subscriber E → Subscriber E
  finish_callback Worker.in_callback s = record s {
    worker = Worker.waiting;
    delivered = (s.delivered + 1) % 2 ^ 64;
  }
  finish_callback _ s = s

  -- `stop`, up to the join.
  unfoldable pub stop : Subscriber E → Subscriber E
  stop s = record s { stopping = true }

  unfoldable pub stats : Subscriber E → SubscriberStats
  stats s = record {
    delivered = s.delivered;
    summarized = s.summarized;
    detached = s.detached;
    alive = true;
  }

  unfoldable pub idle : Subscriber E → Bool
  unfolding is_nil is_in_callback
  idle s = (is_nil s.q && not (is_in_callback s.worker)) || s.detached

-- One section of any of the threads that touch a subscriber.
pub data Step (E : Type 0) : Type 0 where
  offered : E → Step E
  woken finished stopped : Step E

module _ {E : Type 0} where
  unfoldable pub step : Step E → Subscriber E → Subscriber E
  unfolding offer wake_waiting finish_callback stop
  step (offered e) s = offer e s
  step woken s = wake_waiting s.worker s
  step finished s = finish_callback s.worker s
  step stopped s = stop s

  unfoldable pub steps : List (Step E) → Subscriber E → Subscriber E
  unfolding step
  steps [] s = s
  steps (t ∷ ts) s = steps ts (step t s)

  -- The events that were offered, in order.
  abbrev pub offers : List (Step E) → List E
  offers [] = []
  offers (offered e ∷ ts) = e ∷ offers ts
  offers (_ ∷ ts) = offers ts
