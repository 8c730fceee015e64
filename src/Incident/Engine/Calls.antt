-- ===== src/Incident/Engine/Calls.antt =====
-- firemex/incident/engine.py: what one frame or one cancellation does to the window of an engine and to
-- the balance of its events.
use fireme_x.Base.{sym, ap, ◌∙◌, ℕ, ◌+◌, ◌≤◌, ◌≡◌, Option, none, some, List, [], ◌∷◌, ◌++◌, arith}
use mathlib.Core.List.{append-nil}
use fireme_x.Base.Deque.{append}
use fireme_x.Base.LastItems.{last_items, append-last_items}
use fireme_x.Detect.Frames.{FrameResult}
use fireme_x.Incident.Types.{Incident, Observation, IncidentEvent, EventKind, Severity}
use fireme_x.Incident.Rules.{filter}
use fireme_x.Incident.Engine.{
  Engine, take_in, observe, cancel, listed, observe_taken, observe_confirmed, observe_hit,
  observe_quiet, observe_unconfirmed, open_incident, close_incident,
}
use fireme_x.Incident.Engine.Invariant.{IsEngine, Emits, Reports, observe-Reports, cancel-Reports}

-- a call that the pipeline makes on an engine: a frame, with the id for an incident that it may open,
-- or an operator's cancellation
pub data Call : Type 0 where
  frame : ℕ → FrameResult → Call
  dismiss : Call

abbrev pub call : Engine → Call → Option (Engine × List IncidentEvent)
call e (frame id r) = observe id e r
call e dismiss = let (e', event) = cancel e in some (e', listed event)

abbrev pub then_feed :
    Option (Engine × List IncidentEvent)
    → (Engine → Option (Engine × List IncidentEvent))
    → Option (Engine × List IncidentEvent)
then_feed none rest = none
then_feed (some (e, events)) rest = elim (rest e) [
  | none ↦ none
  | some (last, more) ↦ some (last, events ++ more)
]

-- the engine after a list of calls, with the events of all; `none` if a call failed
abbrev pub feed : Engine → List Call → Option (Engine × List IncidentEvent)
feed e [] = some (e, [])
feed e (c ∷ cs) = then_feed (call e c) (λ e'. feed e' cs)

-- what one call leaves of camera, zones and limit, and what it makes of the window
abbrev pub Observed : Engine → Observation → Option (Engine × List IncidentEvent) → Type 0
Observed e o none = Unit
Observed e o (some (e', _)) =
    (e'.camera ≡ e.camera)
    × (e'.zones ≡ e.zones)
    × (e'.window_limit ≡ e.window_limit)
    × (e'.window ≡ append e.window_limit e.window o)

observe-Observed :
    (id : ℕ) (e : Engine) (r : FrameResult)
    → Observed e (filter e.camera e.zones r) (observe id e r)
unfolding observe observe_taken take_in observe_confirmed observe_hit observe_quiet
    observe_unconfirmed open_incident close_incident
observe-Observed id e r = ground arith

cancel-Observed :
    (e : Engine)
    → ((cancel e).0.camera ≡ e.camera)
      × ((cancel e).0.zones ≡ e.zones)
      × ((cancel e).0.window_limit ≡ e.window_limit)
      × ((cancel e).0.window ≡ e.window)
unfolding cancel
cancel-Observed e = ground arith

-- the observations of a list of calls, by the rules of one camera
abbrev pub observations : Engine → List Call → List Observation
observations e [] = []
observations e (frame id r ∷ cs) = filter e.camera e.zones r ∷ observations e cs
observations e (dismiss ∷ cs) = observations e cs

abbrev pub is_opened : EventKind → ℕ
is_opened EventKind.opened = 1
is_opened _ = 0

abbrev pub is_escalated : EventKind → ℕ
is_escalated EventKind.escalated = 1
is_escalated _ = 0

abbrev pub is_closed : EventKind → ℕ
is_closed EventKind.closed = 1
is_closed _ = 0

-- how many events of a list are of one kind
abbrev pub tally : (EventKind → ℕ) → List IncidentEvent → ℕ
tally f [] = 0
tally f (ev ∷ evs) = f ev.kind + tally f evs

pub tally-append :
    (f : EventKind → ℕ) (xs ys : List IncidentEvent) → tally f (xs ++ ys) ≡ tally f xs + tally f ys
tally-append f [] ys = omega arith
tally-append f (x ∷ xs) ys = omega (arith, tally-append f xs ys)

-- one for an open incident
abbrev pub open_count : Option Incident → ℕ
open_count none = 0
open_count (some _) = 1

-- one for an open incident that may still escalate
abbrev pub may_escalate : Option Incident → ℕ
may_escalate none = 0
may_escalate (some i) = elim i.severity [ Severity.warning ↦ 1 | Severity.critical ↦ 0 ]

-- openings are matched by closings and the open incident, and pay for escalations
abbrev pub Balanced : Option Incident → Option Incident → List IncidentEvent → Type 0
Balanced before after evs =
    (open_count before + tally is_opened evs ≡ tally is_closed evs + open_count after)
    × (tally is_escalated evs + may_escalate after ≤ tally is_opened evs + may_escalate before)

pub Emits-Balanced :
    (before after : Option Incident) (evs : List IncidentEvent)
    → Emits before after evs
    → Balanced before after evs
Emits-Balanced none none [] h = ground arith
Emits-Balanced none (some j) (ev ∷ []) h = ground arith
Emits-Balanced (some i) (some j) [] h = ground arith
Emits-Balanced (some i) (some j) (ev ∷ []) h = ground arith
Emits-Balanced (some i) none (ev ∷ []) h = ground arith
Emits-Balanced _ _ _ h = elim h [ ]

-- what one call does to an engine that has seen `seen`
abbrev pub Steps : Engine → List Observation → Call → Option (Engine × List IncidentEvent) → Type 0
Steps e seen c none = ⊥
Steps e seen c (some (e', evs)) =
    IsEngine e'
    × Balanced e.incident e'.incident evs
    × (e'.camera ≡ e.camera)
    × (e'.zones ≡ e.zones)
    × (e'.window_limit ≡ e.window_limit)
    × (e'.window ≡ last_items e.window_limit (seen ++ observations e (c ∷ [])))

frame-Steps :
    (e : Engine) (seen : List Observation) (id : ℕ) (r : FrameResult)
    (out : Option (Engine × List IncidentEvent))
    → e.window ≡ last_items e.window_limit seen
    → Reports e.incident out
    → Observed e (filter e.camera e.zones r) out
    → Steps e seen (frame id r) out
frame-Steps e seen id r none w h o = h
frame-Steps e seen id r (some (e', evs)) w h o = (
  h.0,
  Emits-Balanced e.incident e'.incident evs h.1,
  o.0,
  o.1,
  o.2,
  o.3
      ∙ ap (λ q. append e.window_limit q (filter e.camera e.zones r)) w
      ∙ append-last_items e.window_limit seen (filter e.camera e.zones r),
)

pub call-Steps :
    (e : Engine) (seen : List Observation) (c : Call)
    → IsEngine e
    → e.window ≡ last_items e.window_limit seen
    → Steps e seen c (call e c)
call-Steps e seen (frame id r) h w =
    frame-Steps e seen id r (observe id e r) w (observe-Reports id e r h) (observe-Observed id e r)
call-Steps e seen dismiss h w =
    let r = cancel-Reports e h in
    let o = cancel-Observed e in
    (
      r.0,
      rw (r.1) (Emits-Balanced e.incident none (listed (cancel e).1) r.2),
      o.0,
      o.1,
      o.2,
      o.3 ∙ w ∙ ap (last_items e.window_limit) (sym (append-nil seen)),
    )
