-- ===== src/Examples/Engines.antt =====
-- Runs of the incident engine.
use mathlib.Core.Path.{subst}
use fireme_x.Base.{
  inl, inr, ◌==◌, Bool-cases, ap, ◌≡◌, refl, ◌≢◌, ◌↔◌, ◌⊎◌, true, false, none, some, List, [], ◌∷◌,
  arith, is_some,
}
use mathlib.Core.List.{Memᴰ}
use fireme_x.Base.Dict.{lookup}
use fireme_x.Config.Types.{CameraConfig}
use fireme_x.Incident.Types.{State}
use fireme_x.Incident.Rules.{filter}
use fireme_x.Incident.Engine.{Engine, new_engine, observe}
use fireme_x.Incident.Engine.Filter.{Passes, filter_exact}
use fireme_x.Incident.Engine.Invariant.{IsEngine, Reports, new_engine-IsEngine, observe-Reports}
use fireme_x.Incident.Engine.Calls.{Call, frame, dismiss, feed}
use fireme_x.Incident.Engine.Runs.{Accounts, feed-Accounts}
use fireme_x.Incident.Engine.Confirmation.{
  Confirms, Suppressed, incident_after, hits_after, observe-opens, observe-Suppressed,
}
use fireme_x.Incident.Fleet.{
  CameraConfig-discrete, Fleet, reconfigure, observe_fleet, by_id, config_differs,
}
use fireme_x.Incident.Fleet.Reconfigure.{configured, lookup-reconfigure}
use fireme_x.Incident.Fleet.Isolation.{IsFleet, Isolated, observe_fleet-Isolated}
use fireme_x.Examples.Data.{flame, fire_frame, camera, confirm}

abbrev engine : Engine
engine = new_engine camera

observe-Reports_example : Reports engine.incident (observe 5 engine fire_frame)
observe-Reports_example = observe-Reports 5 engine fire_frame (new_engine-IsEngine camera)

abbrev calls : List Call
calls = frame 5 fire_frame ∷ dismiss ∷ frame 6 fire_frame ∷ []

feed-Accounts_example : Accounts camera calls (feed (new_engine camera) calls)
feed-Accounts_example = feed-Accounts camera calls

observe-opens_example : (is_some (incident_after (observe 5 engine fire_frame)) ≡ true) ↔ (
    Confirms engine.camera.confirm (hits_after engine fire_frame)
    × ((engine.suppress_until_clear ≡ false) ⊎ (hits_after engine fire_frame ≡ [])))
unfolding new_engine
observe-opens_example = observe-opens 5 engine fire_frame (new_engine-IsEngine camera) refl

abbrev dismissed : Engine
dismissed = record engine { suppress_until_clear = true }

dismissed-IsEngine : IsEngine dismissed
unfolding new_engine
dismissed-IsEngine = ground arith

observe-Suppressed_example :
    (incident_after (observe 5 dismissed fire_frame) ≡ none)
    × (hits_after dismissed fire_frame ≢ [] → Suppressed (observe 5 dismissed fire_frame))
unfolding new_engine
observe-Suppressed_example =
    observe-Suppressed 5 dismissed fire_frame dismissed-IsEngine (omega arith) refl

-- the configuration asks for more frames than the window of the engine holds
abbrev shortened : Engine
shortened = record engine {
  camera = record camera { confirm = record confirm { frames_required = 4; window = 6 } };
}

shortened-IsEngine : IsEngine shortened
unfolding new_engine
shortened-IsEngine = ground arith

filter_exact_example :
    Memᴰ flame (filter camera engine.zones fire_frame).detections
    ↔ (Memᴰ flame fire_frame.detections × Passes camera engine.zones fire_frame.is_night flame)
filter_exact_example = filter_exact camera engine.zones fire_frame flame

abbrev burning : Engine
burning = record engine { state = State.confirmed }

abbrev fleet : Fleet
fleet = (1, burning) ∷ []

abbrev renamed : CameraConfig
renamed = record camera { name = 99 }

lookup-reconfigure_example :
    lookup 1 (reconfigure (renamed ∷ []) fleet)
    ≡ configured (lookup 1 (by_id (renamed ∷ []) [])) (lookup 1 fleet)
lookup-reconfigure_example = lookup-reconfigure 1 (renamed ∷ []) fleet

renamed_differs : config_differs camera renamed ≡ true
renamed_differs =
    elim (CameraConfig-discrete camera renamed)
      as (λ d. elim d [ yes _ ↦ false | no _ ↦ true ] ≡ true) [
        | yes e ↦ absurd (omega (arith, ap CameraConfig.name e))
        | no _ ↦ refl
      ]

found_renamed : lookup 1 (by_id (renamed ∷ []) []) ≡ some renamed
unfolding by_id
found_renamed = refl

abbrev quiet_fleet : Fleet
quiet_fleet = (1, engine) ∷ []

quiet_fleet-IsFleet : IsFleet quiet_fleet
quiet_fleet-IsFleet j e found = elim (Bool-cases (1 == j)) [
  | inl same ↦
      let put : engine ≡ e = ground arith in subst IsEngine put (new_engine-IsEngine camera)
  | inr other ↦ absurd (ground arith)
]

observe_fleet-Isolated_example :
    Isolated quiet_fleet fire_frame (observe_fleet 5 quiet_fleet fire_frame)
observe_fleet-Isolated_example = observe_fleet-Isolated 5 quiet_fleet fire_frame quiet_fleet-IsFleet
