-- ===== src/Examples/Operator.antt =====
-- Runs of the operator's cancellation and of the supervisor's handling of an event.
use fireme_x.Base.{ℕ, ◌≡◌, refl, true, false, none, some, [], ◌∷◌, arith, is_some}
use fireme_x.Base.Dict.{lookup}
use fireme_x.Detect.Frames.{FrameResult}
use fireme_x.Incident.Types.{State, Severity, Incident, IncidentEvent, EventKind, event_of}
use fireme_x.Incident.Engine.{Engine, new_engine, observe, cancel, take_in, observe_unconfirmed}
use fireme_x.Incident.Rules.{assess, filter, envelopes}
use fireme_x.Incident.Zones.{excludes, new_mask}
use fireme_x.Incident.Area.{largest_stable_cluster}
use fireme_x.Detect.Geometry.{iou}
use fireme_x.Incident.Engine.Invariant.{IsEngine, new_engine-IsEngine}
use fireme_x.Incident.Engine.Confirmation.{incident_after, Confirms, hits_after, observe-opens}
use fireme_x.Notify.Acks.{new_bus}
use fireme_x.Notify.Dispatch.Table.{Task, Board}
use fireme_x.Incident.Fleet.{has_incident}
use fireme_x.Supervisor.{Supervisor, locate, cancel_incident}
use fireme_x.Supervisor.Cancellation.{cancel_incident_stops}
use fireme_x.Config.Site
use fireme_x.Supervisor.Results.{Alarmed, handle_result, handle_result-Alarmed}
use fireme_x.Examples.Data.{camera, box, flame, site, fire_frame}

abbrev fire_incident : Incident
fire_incident = record {
  id = 5;
  camera_id = 1;
  opened_monotonic = 100;
  opened_wall = 1000;
  severity = Severity.critical;
  labels = record { fire = true; smoke = false; unknown = false };
  peak_confidence = 90;
  envelope = some box;
  frames_confirmed = 1;
  growth_ratio = record { num = 1; den = 1 };
  last_hit_monotonic = 100;
  closed_wall = none;
  snapshot_path = none;
  clip_path = none;
}

abbrev burning_engine : Engine
burning_engine = record (new_engine camera) {
  state = State.confirmed;
  incident = some fire_incident;
}

burning_engine-IsEngine : IsEngine burning_engine
unfolding new_engine
burning_engine-IsEngine = ground arith

abbrev calling_board : Board
calling_board = record {
  tasks = (5, record { number = 0; is_done = false; is_cancelling = false }) ∷ [];
  runs = [];
  bus = new_bus;
  started = 1;
}

abbrev supervisor : Supervisor
supervisor = record {
  engine = (1, burning_engine) ∷ [];
  has_dispatcher = true;
  board = calling_board;
  store = [];
}

located : locate 5 supervisor.engine ≡ some (1, burning_engine)
unfolding locate has_incident
located = refl

cancel_incident_stops_example :
    ((cancel_incident 5 1 200 supervisor).0 ≡ true)
    × (lookup 1 (cancel_incident 5 1 200 supervisor).1.engine ≡ some (cancel burning_engine).0)
    × ((cancel burning_engine).0.incident ≡ none)
    × ((id : ℕ) (r : FrameResult) → incident_after (observe id (cancel burning_engine).0 r) ≡ none)
    × ((t : Task)
        → supervisor.has_dispatcher ≡ true
        → lookup 5 supervisor.board.tasks ≡ some t
        → t.is_done ≡ false
        → lookup 5 (cancel_incident 5 1 200 supervisor).1.board.tasks
          ≡ some (record t { is_cancelling = true }))
unfolding new_engine
cancel_incident_stops_example =
    cancel_incident_stops 5 1 200 1 burning_engine supervisor burning_engine-IsEngine (omega arith)
      located

abbrev opening : IncidentEvent
opening =
    event_of EventKind.opened fire_incident
      (record { monotonic_ts = 100; wall_ts = 1000; detections = flame ∷ [] })

camera_known : Site.camera site 1 ≡ some camera
unfolding Site.camera Site.find_camera
camera_known = refl

-- before the fire
abbrev idle : Engine
idle = new_engine camera

abbrev watching : Supervisor
watching = record supervisor {
  engine = (1, idle) ∷ [];
  board = record calling_board { tasks = []; started = 0 };
}

fire_opens : is_some (incident_after (observe 5 idle fire_frame)) ≡ true
unfolding observe take_in new_engine observe_unconfirmed assess filter excludes new_mask
    largest_stable_cluster envelopes iou
fire_opens = refl

fire-Confirms : Confirms idle.camera.confirm (hits_after idle fire_frame)
unfolding new_engine
fire-Confirms = ((observe-opens 5 idle fire_frame (new_engine-IsEngine camera) refl).0 fire_opens).0

handle_result-Alarmed_example : Alarmed 5 watching (handle_result 5 site fire_frame watching)
unfolding new_engine
handle_result-Alarmed_example =
    handle_result-Alarmed 5 site fire_frame watching idle camera refl (new_engine-IsEngine camera)
      camera_known refl refl fire-Confirms
