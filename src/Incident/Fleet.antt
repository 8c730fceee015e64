-- ===== src/Incident/Fleet.antt =====
-- firemex/incident/engine.py: `IncidentEngine`, one engine for each camera, in the order of a dict.
-- Metrics and logs are left out. `!=` on camera configurations is a decision on all their fields.
use fireme_x.Base.{
  ℕ, ◌≡◌, Bool, true, false, not, Option, none, some, List, [], ◌∷◌, ◌==◌, if◌then◌else◌, is_some,
}
use native.Mathlib.Decide.{ℕ_discrete}
use fireme_x.Base.Dict.{Dict, lookup, insert, erase, contains}
use fireme_x.Config.Types.{CameraConfig}
use fireme_x.Detect.Frames.{FrameResult}
use fireme_x.Incident.Types.{Incident, IncidentEvent, is_confirmed}
use fireme_x.Incident.Engine.{Engine, new_engine, observe}
pub mod Reconfigure
pub mod Isolation

pub CameraConfig-discrete : Discrete CameraConfig
CameraConfig-discrete = hlevel ℕ_discrete

-- `a != b`
abbrev pub config_differs : CameraConfig → CameraConfig → Bool
config_differs a b = elim (CameraConfig-discrete a b) [ yes _ ↦ false | no _ ↦ true ]

abbrev pub Fleet : Type 0
Fleet = Dict Engine

-- `add_camera`
abbrev pub add_camera : CameraConfig → Fleet → Fleet
add_camera c f = insert c.id (new_engine c) f

-- `__init__`
unfoldable pub new_fleet : List CameraConfig → Fleet → Fleet
new_fleet [] f = f
new_fleet (c ∷ cs) f = new_fleet cs (add_camera c f)

-- `{camera.id: camera for camera in cameras}`: of two cameras of one id the later one stays
unfoldable pub by_id : List CameraConfig → Dict CameraConfig → Dict CameraConfig
by_id [] d = d
by_id (c ∷ cs) d = by_id cs (insert c.id c d)

-- the first loop of `reconfigure`: cameras that are gone are removed
unfoldable pub remove_gone : Dict CameraConfig → Fleet → Fleet
remove_gone incoming [] = []
remove_gone incoming ((k, e) ∷ f) =
    let rest = remove_gone incoming f in if contains k incoming then (k, e) ∷ rest else rest

-- the body of the second loop: a new camera, a changed one with an incident open, a changed one
-- without, or an unchanged one
unfoldable pub settle : CameraConfig → Option Engine → Fleet → Fleet
settle c none f = add_camera c f
settle c (some e) f =
    if config_differs e.camera c
    then (if is_confirmed e.state then insert c.id (record e { camera = c }) f else add_camera c f)
    else f

unfoldable pub settle_all : Dict CameraConfig → Fleet → Fleet
unfolding settle
settle_all [] f = f
settle_all ((k, c) ∷ cs) f = settle_all cs (settle c (lookup k f) f)

-- `reconfigure`
unfoldable pub reconfigure : List CameraConfig → Fleet → Fleet
unfolding by_id remove_gone settle_all
reconfigure cameras f =
    let incoming = by_id cameras [] in settle_all incoming (remove_gone incoming f)

put_back :
    Fleet → FrameResult → Option (Engine × List IncidentEvent) → Option (Fleet × List IncidentEvent)
put_back f r none = none
put_back f r (some (e, events)) = some (insert r.camera_id e f, events)

observe_found : ℕ → Fleet → FrameResult → Option Engine → Option (Fleet × List IncidentEvent)
unfolding put_back
observe_found id f r none = some (f, [])
observe_found id f r (some e) = put_back f r (observe id e r)

-- `observe`: a result of an unknown camera is dropped
unfoldable pub observe_fleet : ℕ → Fleet → FrameResult → Option (Fleet × List IncidentEvent)
unfolding observe_found
observe_fleet id f r = observe_found id f r (lookup r.camera_id f)

-- `active_count`
unfoldable pub active_count : Fleet → ℕ
active_count [] = 0
active_count ((_, e) ∷ f) =
    let rest = active_count f in if is_confirmed e.state then Prim.Native.Nat.suc rest else rest

unfoldable pub has_incident : ℕ → Option Incident → Bool
has_incident id none = false
has_incident id (some i) = i.id == id

-- `find_incident`
unfoldable pub find_incident : ℕ → Fleet → Option Engine
unfolding has_incident
find_incident id [] = none
find_incident id ((_, e) ∷ f) =
    let rest = find_incident id f in if has_incident id e.incident then some e else rest
