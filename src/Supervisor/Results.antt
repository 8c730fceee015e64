-- ===== src/Supervisor/Results.antt =====
-- firemex/supervisor.py: `_handle_result`, from a detector's result to the calls. What is published is
-- left out; `none` is an exception of the engine.
use mathlib.Core.Path.{subst}
use fireme_x.Base.{ℕ, ◌≡◌, ◌∙◌, ap, true, false, Option, none, some, List, [], ◌∷◌, is_some, inl}
use fireme_x.Base.Dict.{lookup, insert}
use fireme_x.Config.Types.{SiteConfig, CameraConfig}
use fireme_x.Config.Site.{camera}
use fireme_x.Detect.Frames.{FrameResult}
use fireme_x.Incident.Types.{IncidentEvent, EventKind}
use fireme_x.Incident.Engine.{Engine}
use fireme_x.Incident.Engine.Invariant.{IsEngine}
use fireme_x.Incident.Engine.Confirmation.{Confirms, hits_after, observe-opens}
use fireme_x.Incident.Engine.Opened.{observe-Opens}
use fireme_x.Incident.Fleet.{Fleet, observe_fleet}
use fireme_x.Incident.Fleet.Isolation.{observe_fleet-found}
use fireme_x.Notify.Dispatch.Table.{is_live}
use fireme_x.Supervisor.{Supervisor}
use fireme_x.Supervisor.Events.{Handled, handle_event, handle_event-Handled}

-- the loop over the events
pub handle_events : SiteConfig → List IncidentEvent → Supervisor → Supervisor
unfolding handle_event
handle_events site [] s = s
handle_events site (event ∷ events) s = handle_events site events (handle_event site event s)

pub handle_observed :
    SiteConfig → Supervisor → Option (Fleet × List IncidentEvent) → Option Supervisor
unfolding handle_events
handle_observed site s none = none
handle_observed site s (some (fleet, events)) =
    some (handle_events site events (record s { engine = fleet }))

-- `_handle_result`, with the id that a new incident would be given
unfoldable pub handle_result : ℕ → SiteConfig → FrameResult → Supervisor → Option Supervisor
unfolding handle_observed observe_fleet
handle_result id site r s = handle_observed site s (observe_fleet id s.engine r)

-- the incident stands in the store, and where there is a dispatcher its escalation is live
pub record Alarmed (id : ℕ) (s : Supervisor) (o : Option Supervisor) : Type 0 where
  pub after : Supervisor
  pub returned : o ≡ some after
  pub stored : is_some (lookup id after.store) ≡ true
  pub calling : s.has_dispatcher ≡ true → is_live (lookup id after.board.tasks) ≡ true

-- Where a configured camera's engine satisfies its invariant, has no incident open and no cancellation in
-- force, and the window with this frame's hits confirms, the frame's result is handled without an
-- exception, and leaves a new incident stored and, where there is a dispatcher, its escalation live.
pub handle_result-Alarmed :
    (id : ℕ) (site : SiteConfig) (r : FrameResult) (s : Supervisor) (e : Engine) (c : CameraConfig)
    → lookup r.camera_id s.engine ≡ some e
    → IsEngine e
    → camera site e.camera.id ≡ some c
    → e.incident ≡ none
    → e.suppress_until_clear ≡ false
    → Confirms e.camera.confirm (hits_after e r)
    → Alarmed id s (handle_result id site r s)
unfolding handle_result handle_observed handle_events
handle_result-Alarmed id site r s e c found h known n free confirms =
    let opens = observe-Opens id e r h n ((observe-opens id e r h n).1 (confirms, inl free)) in
    let fleet = insert r.camera_id opens.engine s.engine in
    let out =
      observe_fleet-found id s.engine r e opens.engine (opens.event ∷ []) found opens.returned in
    let before : Supervisor = record s { engine = fleet } in
    let after : Supervisor = handle_event site opens.event before in
    let handled : Handled opens.event.kind opens.event.incident.id before after =
      handle_event-Handled site opens.event c before (ap (camera site) opens.of_camera ∙ known) in
    let alarm : Handled EventKind.opened id before after =
      subst (λ k. Handled k id before after) opens.kind
        (subst (λ i. Handled opens.event.kind i before after) opens.of_id handled) in
    record {
      after = after;
      returned = ap (handle_observed site s) out;
      stored = alarm.0;
      calling = alarm.1;
    }
