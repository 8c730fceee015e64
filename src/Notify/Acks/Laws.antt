-- ===== src/Notify/Acks/Laws.antt =====
-- firemex/notify/base.py: the laws of the acknowledgement bus.
use fireme_x.Base.{
  ℕ, ◌<◌, ◌≡◌, ◌≢◌, true, false, none, some, arith, Option-cases, Bool-cases, inl, inr,
}
use fireme_x.Base.Dict.{lookup, lookup-insert, lookup-erase}
use fireme_x.Notify.Acks.{
  AckBus, event_of, is_set, is_acknowledged, acknowledged_by, acknowledge, forget, make_event,
}

-- Every event in use was made by the bus, and two incidents have different events.
pub record IsBus (b : AckBus) : Type 0 where
  pub known : (i a : ℕ) → lookup i b.events ≡ some a → a < b.next_event
  pub apart : (i j a : ℕ) → lookup i b.events ≡ some a → lookup j b.events ≡ some a → i ≡ j

make_event-IsBus :
    (i : ℕ) (b : AckBus) → IsBus b → lookup i b.events ≡ none → IsBus (make_event i b)
make_event-IsBus i b h fresh = record {
  known = λ j a e. ground (arith, h.known j a, lookup-insert j i b.next_event b.events);
  apart = λ j k a e e'. ground (
    arith,
    h.apart j k a,
    h.known j a,
    h.known k a,
    lookup-insert j i b.next_event b.events,
    lookup-insert k i b.next_event b.events,
  );
}

pub acknowledge-IsBus : (i contact : ℕ) (b : AckBus) → IsBus b → IsBus (acknowledge i contact b).1
unfolding acknowledge
acknowledge-IsBus i contact b h = elim (Bool-cases (is_acknowledged i b)) [
  | inl old ↦ rw old h
  | inr new ↦ elim (Option-cases (lookup i b.events)) [
    | inl fresh ↦
        let made = make_event-IsBus i b h fresh in
        rw (new) (rw (fresh, event_of) (record { known = made.known; apart = made.apart }))
    | inr (a, found) ↦ rw new (rw (found, event_of) (record { known = h.known; apart = h.apart }))
  ]
]

pub forget-IsBus : (i : ℕ) (b : AckBus) → IsBus b → IsBus (forget i b)
unfolding forget
forget-IsBus i b h = record {
  known = λ j a e. ground (arith, h.known j a, lookup-erase j i b.events);
  apart = λ j k a e e'.
      ground (arith, h.apart j k a, lookup-erase j i b.events, lookup-erase k i b.events);
}

-- The first acknowledgement of an incident is accepted, is recorded under its contact, sets the event on
-- which the incident's waiters wait, and touches no other incident's record; a later one is refused and
-- changes nothing.
pub acknowledge_first :
    (i contact : ℕ) (b : AckBus)
    → let (accepted, b') = acknowledge i contact b in
      (is_acknowledged i b ≡ true → (accepted ≡ false) × (b' ≡ b))
      × (is_acknowledged i b ≡ false
          → (accepted ≡ true)
            × (acknowledged_by i b' ≡ some contact)
            × (is_set (event_of i b).0 b' ≡ true)
            × ((j : ℕ) → j ≢ i → acknowledged_by j b' ≡ acknowledged_by j b))
unfolding acknowledge
acknowledge_first i contact b = (
  λ old. ground arith,
  λ new. elim (Option-cases (lookup i b.events)) [
    | inl fresh ↦ (
      ground arith,
      ground (arith, lookup-insert i i contact b.acked_by),
      ground (arith, lookup-insert b.next_event b.next_event true (make_event i b).set_events),
      λ j ne. ground (arith, lookup-insert j i contact b.acked_by),
    )
    | inr (a, found) ↦ (
      ground arith,
      ground (arith, lookup-insert i i contact b.acked_by),
      ground (arith, lookup-insert a a true b.set_events),
      λ j ne. ground (arith, lookup-insert j i contact b.acked_by),
    )
  ],
)

-- Forgetting an incident whose escalation is still waiting strands the waiter: an acknowledgement that
-- comes later is accepted, but it does not set the event on which the waiter waits.
pub forget_strands_waiter :
    (i contact a : ℕ) (b : AckBus)
    → IsBus b
    → lookup i b.events ≡ some a
    → is_set a b ≡ false
    → let (accepted, b') = acknowledge i contact (forget i b) in
      (accepted ≡ true) × (is_set a b' ≡ false)
unfolding acknowledge forget
forget_strands_waiter i contact a b h waiting unset = ground (
  arith,
  h.known i a,
  lookup-erase i i b.events,
  lookup-erase i i b.acked_by,
  lookup-insert a b.next_event false b.set_events,
  lookup-insert a b.next_event true (make_event i (forget i b)).set_events,
)
