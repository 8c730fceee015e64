-- ===== src/Incident/Fleet/Isolation.antt =====
-- firemex/incident/engine.py: a detector result reaches the engine of its own camera only.
use fireme_x.Base.{
  ℕ, ◌≡◌, ◌≢◌, refl, sym, ◌∙◌, Option, none, some, List, [], arith, ◌==◌, Bool-cases, inl, inr,
}
use mathlib.Core.Path.{subst}
use fireme_x.Base.Dict.{lookup, insert, lookup-insert, lookup-insert_ne}
use fireme_x.Detect.Frames.{FrameResult}
use fireme_x.Incident.Types.{IncidentEvent}
use fireme_x.Incident.Engine.{Engine, observe}
use fireme_x.Incident.Engine.Invariant.{IsEngine, Reports, observe-Reports}
use fireme_x.Incident.Fleet.{Fleet, put_back, observe_found, observe_fleet}

-- every engine of the fleet satisfies its invariant
abbrev pub IsFleet : Fleet → Type 0
IsFleet f = (j : ℕ) (e : Engine) → lookup j f ≡ some e → IsEngine e

abbrev pub Isolated : Fleet → FrameResult → Option (Fleet × List IncidentEvent) → Type 0
Isolated f r none = ⊥
Isolated f r (some (f', events)) =
    IsFleet f'
    × ((j : ℕ) → j ≢ r.camera_id → lookup j f' ≡ lookup j f)
    × (lookup r.camera_id f ≡ none → (f' ≡ f) × (events ≡ []))

insert-IsFleet : (k : ℕ) (e : Engine) (f : Fleet) → IsFleet f → IsEngine e → IsFleet (insert k e f)
insert-IsFleet k e f h he j e' found = elim (Bool-cases (k == j)) [
  | inl same ↦ let put : e ≡ e' = ground (arith, lookup-insert j k e f) in subst IsEngine put he
  | inr other ↦ h j e' (sym (rw other at (lookup-insert j k e f)) ∙ found)
]

put_back-Isolated :
    (f : Fleet) (r : FrameResult) (e : Engine) (out : Option (Engine × List IncidentEvent))
    → IsFleet f
    → lookup r.camera_id f ≡ some e
    → Reports e.incident out
    → Isolated f r (put_back f r out)
unfolding put_back
put_back-Isolated f r e none h found reports = reports
put_back-Isolated f r e (some (e', events)) h found reports = (
  insert-IsFleet r.camera_id e' f h reports.0,
  λ j ne. lookup-insert_ne j r.camera_id e' f ne,
  λ missing. cc,
)

observe_found-Isolated :
    (id : ℕ) (f : Fleet) (r : FrameResult) (o : Option Engine)
    → IsFleet f
    → lookup r.camera_id f ≡ o
    → Isolated f r (observe_found id f r o)
unfolding observe_found
observe_found-Isolated id f r none h missing = (h, λ j ne. refl, λ e. (refl, refl))
observe_found-Isolated id f r (some e) h found =
    put_back-Isolated f r e (observe id e r) h found
      (observe-Reports id e r (h r.camera_id e found))

-- A detector result never makes the fleet's `observe` fail, keeps every engine's invariant, changes the
-- engine of its own camera only, and if its camera has no engine it changes and reports nothing.
pub observe_fleet-Isolated :
    (id : ℕ) (f : Fleet) (r : FrameResult) → IsFleet f → Isolated f r (observe_fleet id f r)
unfolding observe_fleet
observe_fleet-Isolated id f r h = observe_found-Isolated id f r (lookup r.camera_id f) h refl

-- what the engine of the camera returns is what the fleet returns
pub observe_fleet-found :
    (id : ℕ) (f : Fleet) (r : FrameResult) (e e' : Engine) (events : List IncidentEvent)
    → lookup r.camera_id f ≡ some e
    → observe id e r ≡ some (e', events)
    → observe_fleet id f r ≡ some (insert r.camera_id e' f, events)
unfolding observe_fleet observe_found put_back
observe_fleet-found id f r e e' events found h = rw (found, h) refl
