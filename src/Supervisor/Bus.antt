-- ===== src/Supervisor/Bus.antt =====
-- firemex/events.py: `EventBus`, the queues of the dashboards that listen. A subscription is known by a
-- number, an event is one, and `subscribe` is its steps: the queue is added, got, and discarded.
use mathlib.Core.Path.{subst}
use fireme_x.Base.{
  min, ◌-◌, ==_iff, ℕ, zero, suc, ◌+◌, ◌≤◌, ◌<◌, ◌≡◌, refl, sym, ◌∙◌, ap, Bool, true, false, ◌&&◌,
  Option, none, some, List, [], ◌∷◌, ◌++◌, arith, ltb, leb, length, length-append, if◌then◌else◌,
  Bool-cases, inl, inr, ◌==◌,
}
use mathlib.Core.List.{append_assoc}
use fireme_x.Base.Dict.{Dict, lookup, insert, erase, lookup-insert, lookup-erase}
pub mod Feed

pub record EventBus : Type 0 where
  pub subscribers : Dict (List ℕ)
  pub queue_size : ℕ

-- `EventBus(queue_size)`
abbrev pub new_event_bus : ℕ → EventBus
new_event_bus size = record { subscribers = []; queue_size = size }

-- `queue.full()`: a queue of size 0 is not bounded
abbrev is_full : ℕ → List ℕ → Bool
is_full size q = ltb 0 size && leb size (length q)

-- `get_nowait` under `suppress(QueueEmpty)`
abbrev without_first : List ℕ → List ℕ
without_first [] = []
without_first (e ∷ q) = q

-- `put_nowait` under `suppress(QueueFull)`
abbrev put_nowait : ℕ → ℕ → List ℕ → List ℕ
put_nowait size event q = if is_full size q then q else q ++ event ∷ []

-- what `publish` does to one queue
unfoldable pub offer : ℕ → ℕ → List ℕ → List ℕ
offer size event q = put_nowait size event (if is_full size q then without_first q else q)

offer_all : ℕ → ℕ → Dict (List ℕ) → Dict (List ℕ)
unfolding offer
offer_all size event [] = []
offer_all size event ((k, q) ∷ d) = (k, offer size event q) ∷ offer_all size event d

-- `publish`
unfoldable pub publish : ℕ → EventBus → EventBus
unfolding offer_all
publish event b = record b { subscribers = offer_all b.queue_size event b.subscribers }

pub data Step : Type 0 where
  -- `self._subscribers.add(queue)`, with a new queue
  listen : ℕ → Step
  -- `await queue.get()` that returns
  got : ℕ → Step
  -- the `finally` of `subscribe`
  leave : ℕ → Step
  published : ℕ → Step

read_from : ℕ → Option (List ℕ) → EventBus → EventBus
read_from k none b = b
read_from k (some q) b = record b { subscribers = insert k (without_first q) b.subscribers }

unfoldable pub step : Step → EventBus → EventBus
unfolding publish read_from
step (listen k) b = record b { subscribers = insert k [] b.subscribers }
step (got k) b = read_from k (lookup k b.subscribers) b
step (leave k) b = record b { subscribers = erase k b.subscribers }
step (published e) b = publish e b

unfoldable pub steps : List Step → EventBus → EventBus
unfolding step
steps [] b = b
steps (s ∷ ss) b = steps ss (step s b)
