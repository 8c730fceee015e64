-- ===== src/Incident/Engine/Invariant.antt =====
-- firemex/incident/engine.py: what holds of a camera's engine between two calls, and what one call
-- reports.
use fireme_x.Base.{
  ℕ, ◌≤◌, ◌≡◌, true, Option, none, some, List, [], ◌∷◌, arith, length, is_some, Option-cases, inl,
  inr,
}
use fireme_x.Base.Deque.{length-append_le}
use fireme_x.Config.Types.{CameraConfig}
use fireme_x.Detect.Frames.{FrameResult}
use fireme_x.Incident.Types.{
  is_confirmed, Severity, Observation, Incident, EventKind, IncidentEvent,
}
use fireme_x.Incident.Rules.{filter}
use fireme_x.Incident.Engine.{
  listed, observe_taken, Engine, new_engine, take_in, observe, observe_confirmed,
  observe_unconfirmed, open_incident, close_incident, observe_hit, observe_quiet, cancel, merge_hit,
}

pub record IsEngine (e : Engine) : Type 0 where
  pub confirmed_open : is_confirmed e.state ≡ is_some e.incident
  pub suppressed_shut : e.suppress_until_clear ≡ true → e.incident ≡ none
  pub window_fits : length e.window ≤ e.window_limit

pub new_engine-IsEngine : (c : CameraConfig) → IsEngine (new_engine c)
unfolding new_engine
new_engine-IsEngine c = ground arith

pub take_in-IsEngine : (e : Engine) (o : Observation) → IsEngine e → IsEngine (take_in e o)
unfolding take_in
take_in-IsEngine e o h = record {
  confirmed_open = h.confirmed_open;
  suppressed_shut = h.suppressed_shut;
  window_fits = length-append_le e.window_limit e.window o h.window_fits;
}

unconfirmed-IsEngine :
    (id : ℕ) (e : Engine) (o : Observation)
    → IsEngine e
    → e.incident ≡ none
    → IsEngine (observe_unconfirmed id e o).0
unfolding observe_unconfirmed open_incident
unconfirmed-IsEngine id e o h n = ground arith

close_incident-IsEngine :
    (e : Engine) (o : Option Observation) → IsEngine e → IsEngine (close_incident e o).0
unfolding close_incident
close_incident-IsEngine e o h = ground arith

-- the events that fit a change of the open incident
abbrev pub Emits : Option Incident → Option Incident → List IncidentEvent → Type 0
Emits none none [] = Unit
Emits none (some j) (ev ∷ []) = (ev.kind ≡ EventKind.opened) × (ev.incident ≡ j)
Emits (some i) (some j) [] = (j.id ≡ i.id) × (j.severity ≡ i.severity)
Emits (some i) (some j) (ev ∷ []) =
    (ev.kind ≡ EventKind.escalated)
    × (ev.incident ≡ j)
    × (j.id ≡ i.id)
    × (i.severity ≡ Severity.warning)
    × (j.severity ≡ Severity.critical)
Emits (some i) none (ev ∷ []) =
    (ev.kind ≡ EventKind.closed) × (ev.incident.id ≡ i.id) × (ev.severity ≡ i.severity)
Emits _ _ _ = ⊥

-- a call that returns, keeps the invariant and reports what it did
abbrev pub Reports : Option Incident → Option (Engine × List IncidentEvent) → Type 0
Reports before none = ⊥
Reports before (some (e', events)) = IsEngine e' × Emits before e'.incident events

unconfirmed-Emits :
    (id : ℕ) (e : Engine) (o : Observation)
    → e.incident ≡ none
    → let (e', events) = observe_unconfirmed id e o in Emits none e'.incident events
unfolding observe_unconfirmed open_incident
unconfirmed-Emits id e o n = ground arith

hit-Reports :
    (e : Engine) (i : Incident) (o : Observation)
    → IsEngine e
    → e.incident ≡ some i
    → Reports (some i) (some (observe_hit e i o))
unfolding observe_hit merge_hit
hit-Reports e i o h s = ground arith

quiet-Reports :
    (e : Engine) (i : Incident) (o : Observation)
    → IsEngine e
    → e.incident ≡ some i
    → Reports (some i) (some (observe_quiet e i o))
unfolding observe_quiet close_incident
quiet-Reports e i o h s = ground arith

confirmed-Reports :
    (e : Engine) (o : Observation)
    → IsEngine e
    → is_confirmed e.state ≡ true
    → Reports e.incident (observe_confirmed e o)
unfolding observe_confirmed
confirmed-Reports e o h c = elim (Option-cases e.incident) [
  | inl n ↦ ground (arith, h.confirmed_open)
  | inr (i, s) ↦ ground (arith, hit-Reports e i o h s, quiet-Reports e i o h s)
]

observe_taken-Reports :
    (id : ℕ) (e : Engine) (o : Observation) → IsEngine e → Reports e.incident (observe_taken id e o)
unfolding observe_taken
observe_taken-Reports id e o h = elim (Option-cases e.incident) [
  | inl n ↦
      ground (arith, h.confirmed_open, unconfirmed-IsEngine id e o h n, unconfirmed-Emits id e o n)
  | inr (i, s) ↦ ground (arith, h.confirmed_open, confirmed-Reports e o h)
]

-- Fed one detector result, an engine that satisfies the invariant returns (its assertion holds), still
-- satisfies the invariant, and reports nothing or one event: `opened` exactly when an incident was
-- opened where none was, `escalated` exactly when the same incident went from warning to critical,
-- `closed` exactly when the open incident was closed; an incident's severity never goes down.
pub observe-Reports :
    (id : ℕ) (e : Engine) (r : FrameResult) → IsEngine e → Reports e.incident (observe id e r)
unfolding observe take_in
observe-Reports id e r h =
    let o = filter e.camera e.zones r in
    observe_taken-Reports id (take_in e o) o (take_in-IsEngine e o h)

-- Cancelling on an engine that satisfies the invariant keeps it, leaves no incident open, and reports
-- one `closed` event for the incident that was open, or nothing if none was.
pub cancel-Reports :
    (e : Engine)
    → IsEngine e
    → let (e', event) = cancel e in
      IsEngine e' × (e'.incident ≡ none) × Emits e.incident none (listed event)
unfolding cancel
cancel-Reports e h = elim (Option-cases e.incident) [
  | inl n ↦ ground arith
  | inr (i, s) ↦ ground arith
]

-- what a cancellation leaves of an engine with an incident open
pub cancel_open :
    (e : Engine)
    → is_some e.incident ≡ true
    → ((cancel e).0.suppress_until_clear ≡ true)
      × ((cancel e).0.camera ≡ e.camera)
      × (is_some (cancel e).1 ≡ true)
unfolding cancel
cancel_open e h = elim (Option-cases e.incident) [
  | inl shut ↦ absurd (ground arith)
  | inr (incident, here) ↦ (ground arith, ground arith, ground arith)
]
