-- ===== src/Incident/Engine/Confirmation.antt =====
-- firemex/incident/engine.py: exactly when a frame opens an incident.
use fireme_x.Base.{
  Option-cases, ◌⊎◌, ℕ, ◌≤◌, ◌<◌, ◌≡◌, ◌≢◌, ◌↔◌, true, false, Option, none, some, List, [], arith,
  keep, length, length-keep_le, is_some, inl, inr,
}
use fireme_x.Config.Types.{ConfirmConfig}
use fireme_x.Detect.Frames.{FrameResult}
use fireme_x.Incident.Area.{largest_stable_cluster}
use fireme_x.Incident.Types.{Observation, hit, Incident, IncidentEvent, is_confirmed}
use fireme_x.Incident.Rules.{filter, assess, envelopes, stability_required, area_not_shrinking}
use fireme_x.Incident.Engine.{
  Engine, take_in, observe, observe_taken, observe_unconfirmed, open_incident,
}
use fireme_x.Incident.Engine.Invariant.{IsEngine, take_in-IsEngine}

-- what the confirmation rules ask of the hits in the window
pub record Confirms (c : ConfirmConfig) (hits : List Observation) : Type 0 where
  pub persistent : c.frames_required ≤ length hits
  pub stable : stability_required c ≤ largest_stable_cluster (envelopes hits) c.stability_iou
  pub steady : c.require_growth ≡ true → area_not_shrinking c hits ≡ true

assess_iff :
    (c : ConfirmConfig) (history : List (ℕ × ℕ)) (hits : List Observation)
    → ((assess c history hits).confirmed ≡ true) ↔ Confirms c hits
unfolding assess
assess_iff c history hits = (λ h. ground arith, λ h. ground arith)

-- the incident that is open after a call
abbrev pub incident_after : Option (Engine × List IncidentEvent) → Option Incident
incident_after none = none
incident_after (some (e, _)) = e.incident

-- a call that returns with the cancellation still in force
abbrev pub Suppressed : Option (Engine × List IncidentEvent) → Type 0
Suppressed none = ⊥
Suppressed (some (e, _)) = e.suppress_until_clear ≡ true

-- the frames of the window with a detection, this frame included
abbrev pub hits_after : Engine → FrameResult → List Observation
hits_after e r = keep hit (take_in e (filter e.camera e.zones r)).window

unconfirmed_opens :
    (id : ℕ) (e : Engine) (o : Observation)
    → e.incident ≡ none
    → (is_some (observe_unconfirmed id e o).0.incident ≡ true) ↔ (
        Confirms e.camera.confirm (keep hit e.window)
        × ((e.suppress_until_clear ≡ false) ⊎ (keep hit e.window ≡ [])))
unfolding observe_unconfirmed open_incident
unconfirmed_opens id e o n =
    let rules = assess_iff e.camera.confirm e.area_history (keep hit e.window) in
    (λ h. ground (arith, rules.0), λ h. ground (arith, rules.1))

taken_opens :
    (id : ℕ) (e : Engine) (o : Observation)
    → IsEngine e
    → e.incident ≡ none
    → (is_some (incident_after (observe_taken id e o)) ≡ true) ↔ (
        Confirms e.camera.confirm (keep hit e.window)
        × ((e.suppress_until_clear ≡ false) ⊎ (keep hit e.window ≡ [])))
unfolding observe_taken
taken_opens id e o h n =
    let calm : is_confirmed e.state ≡ false = ground (arith, h.confirmed_open) in
    rw calm (unconfirmed_opens id e o n)

-- With no incident open, a frame opens one exactly when, counting this frame, the window has at least
-- the required hits, enough of them form one stable cluster, the area does not shrink where the
-- configuration asks for that, and no cancellation is in force: none was made, or the window has no
-- hit left.
pub observe-opens :
    (id : ℕ) (e : Engine) (r : FrameResult)
    → IsEngine e
    → e.incident ≡ none
    → (is_some (incident_after (observe id e r)) ≡ true) ↔ (
        Confirms e.camera.confirm (hits_after e r)
        × ((e.suppress_until_clear ≡ false) ⊎ (hits_after e r ≡ [])))
unfolding observe take_in
observe-opens id e r h n =
    let o = filter e.camera e.zones r in taken_opens id (take_in e o) o (take_in-IsEngine e o h) n

unconfirmed_suppressed :
    (id : ℕ) (e : Engine) (o : Observation)
    → e.incident ≡ none
    → 1 ≤ e.camera.confirm.frames_required
    → e.suppress_until_clear ≡ true
    → ((observe_unconfirmed id e o).0.incident ≡ none)
      × (keep hit e.window ≢ [] → (observe_unconfirmed id e o).0.suppress_until_clear ≡ true)
unfolding observe_unconfirmed open_incident
unconfirmed_suppressed id e o n need s =
    let rules = assess_iff e.camera.confirm e.area_history (keep hit e.window) in
    (ground (arith, rules.0), λ hits. ground arith)

taken-Suppressed :
    (id : ℕ) (e : Engine) (o : Observation)
    → IsEngine e
    → 1 ≤ e.camera.confirm.frames_required
    → e.suppress_until_clear ≡ true
    → (incident_after (observe_taken id e o) ≡ none)
      × (keep hit e.window ≢ [] → Suppressed (observe_taken id e o))
unfolding observe_taken
taken-Suppressed id e o h need s =
    let n : e.incident ≡ none = h.suppressed_shut s in
    let calm : is_confirmed e.state ≡ false = ground (arith, h.confirmed_open, n) in
    rw calm (unconfirmed_suppressed id e o n need s)

-- After a cancellation, under rules that ask for at least one frame, no frame opens an incident as
-- long as the cancellation is in force; and the frame leaves it in force if the window still has a
-- hit.
pub observe-Suppressed :
    (id : ℕ) (e : Engine) (r : FrameResult)
    → IsEngine e
    → 1 ≤ e.camera.confirm.frames_required
    → e.suppress_until_clear ≡ true
    → (incident_after (observe id e r) ≡ none) × (hits_after e r ≢ [] → Suppressed (observe id e r))
unfolding observe take_in
observe-Suppressed id e r h need s =
    let o = filter e.camera e.zones r in
    taken-Suppressed id (take_in e o) o (take_in-IsEngine e o h) need s

-- An engine without an incident whose window is shorter than the frames that its configuration requires,
-- as a change of configuration during an open incident can leave it, opens no incident at a frame,
-- whatever the frame shows.
pub observe_short_window :
    (id : ℕ) (e : Engine) (r : FrameResult)
    → IsEngine e
    → e.incident ≡ none
    → e.window_limit < e.camera.confirm.frames_required
    → incident_after (observe id e r) ≡ none
unfolding take_in
observe_short_window id e r h n short = elim (Option-cases (incident_after (observe id e r))) [
  | inl closed ↦ closed
  | inr (i, opened) ↦ absurd (
      omega (
        arith,
        ((observe-opens id e r h n).0 (rw opened)).0.persistent,
        length-keep_le hit (take_in e (filter e.camera e.zones r)).window,
        (take_in-IsEngine e (filter e.camera e.zones r) h).window_fits,
      ))
]
