-- ===== src/Notify/Acks.antt =====
-- firemex/notify/base.py: `AckBus`. The events on which escalations wait are objects: `_events` maps an
-- incident to one, and a waiter keeps the object that it found. So the bus has a heap of event objects
-- (whether each is set), and `_events` holds their addresses.
use fireme_x.Base.{
  ℕ, suc, ◌+◌, ◌≤◌, ◌<◌, ◌≡◌, refl, ◌≢◌, Bool, true, false, Option, none, some, List, [], ◌∷◌,
  arith, ◌==◌, if◌then◌else◌, is_some, Option-cases, Bool-cases, inl, inr,
}
use fireme_x.Base.Dict.{Dict, lookup, insert, erase, contains, lookup-insert, lookup-erase}
pub mod Laws

pub record AckBus : Type 0 where
  pub events : Dict ℕ
  pub acked_by : Dict ℕ
  pub set_events : Dict Bool
  pub next_event : ℕ

unfoldable pub new_bus : AckBus
new_bus = record { events = []; acked_by = []; set_events = []; next_event = 0 }

abbrev make_event : ℕ → AckBus → AckBus
make_event i b = record b {
  events = insert i b.next_event b.events;
  set_events = insert b.next_event false b.set_events;
  next_event = suc b.next_event;
}

-- `_event`: the event of an incident, made at the first use
unfoldable pub event_of : ℕ → AckBus → ℕ × AckBus
event_of i b = elim (lookup i b.events) [ some a ↦ (a, b) | none ↦ (b.next_event, make_event i b) ]

abbrev as_set : Option Bool → Bool
as_set none = false
as_set (some s) = s

-- `Event.is_set`, of the object at an address
abbrev pub is_set : ℕ → AckBus → Bool
is_set a b = as_set (lookup a b.set_events)

-- `is_acknowledged`
abbrev pub is_acknowledged : ℕ → AckBus → Bool
is_acknowledged i b = contains i b.acked_by

-- `acknowledged_by`
abbrev pub acknowledged_by : ℕ → AckBus → Option ℕ
acknowledged_by i b = lookup i b.acked_by

-- `acknowledge`
unfoldable pub acknowledge : ℕ → ℕ → AckBus → Bool × AckBus
unfolding event_of
acknowledge i contact b =
    if is_acknowledged i b
    then (false, b)
    else (let (a, b') = event_of i (record b { acked_by = insert i contact b.acked_by }) in
        (true, record b' { set_events = insert a true b'.set_events }))

-- `forget`
unfoldable pub forget : ℕ → AckBus → AckBus
forget i b = record b { events = erase i b.events; acked_by = erase i b.acked_by }
