-- ===== src/Incident/Engine/Runs.antt =====
-- firemex/incident/engine.py: an engine over a run of frames and cancellations: its window, and the
-- balance of its events.
use fireme_x.Base.{
  ◌-◌, drop_all, sym, ap, ◌∙◌, ◌+◌, ◌≤◌, ◌≡◌, refl, Option, none, some, List, [], ◌∷◌, ◌++◌, arith,
}
use mathlib.Core.List.{append_assoc, append-nil}
use fireme_x.Base.LastItems.{last_items}
use fireme_x.Config.Types.{CameraConfig}
use fireme_x.Incident.Types.{Observation, IncidentEvent}
use fireme_x.Incident.Engine.{Engine, new_engine}
use fireme_x.Incident.Engine.Invariant.{IsEngine, new_engine-IsEngine}
use fireme_x.Incident.Engine.Calls.{
  Call, frame, dismiss, call, then_feed, feed, observations, is_opened, is_escalated, is_closed,
  tally, tally-append, open_count, Balanced, Steps, call-Steps,
}

-- what a list of calls does
abbrev Feeds : Engine → List Observation → List Call → Option (Engine × List IncidentEvent) → Type 0
Feeds e seen cs none = ⊥
Feeds e seen cs (some (e', evs)) =
    IsEngine e'
    × Balanced e.incident e'.incident evs
    × (e'.window ≡ last_items e.window_limit (seen ++ observations e cs))

observations-eq :
    (e e' : Engine) (cs : List Call)
    → e'.camera ≡ e.camera
    → e'.zones ≡ e.zones
    → observations e' cs ≡ observations e cs
observations-eq e e' [] p q = refl
observations-eq e e' (frame id r ∷ cs) p q = cc (observations-eq e e' cs p q)
observations-eq e e' (dismiss ∷ cs) p q = observations-eq e e' cs p q

observations-cons :
    (e : Engine) (c : Call) (cs : List Call)
    → observations e (c ∷ cs) ≡ observations e (c ∷ []) ++ observations e cs
observations-cons e (frame id r) cs = refl
observations-cons e dismiss cs = refl

join-Feeds :
    (e e1 : Engine) (seen : List Observation) (c : Call) (cs : List Call) (evs : List IncidentEvent)
    (out : Option (Engine × List IncidentEvent))
    → Steps e seen c (some (e1, evs))
    → Feeds e1 (seen ++ observations e (c ∷ [])) cs out
    → Feeds e seen (c ∷ cs) (then_feed (some (e1, evs)) (λ e'. out))
join-Feeds e e1 seen c cs evs none s f = f
join-Feeds e e1 seen c cs evs (some (e2, more)) s f = (
  f.0,
  omega (
    arith,
    s.1,
    f.1,
    tally-append is_opened evs more,
    tally-append is_closed evs more,
    tally-append is_escalated evs more,
  ),
  f.2
      ∙ ap (λ n. last_items n ((seen ++ observations e (c ∷ [])) ++ observations e1 cs)) s.4
      ∙ ap (last_items e.window_limit) (
          append_assoc seen (observations e (c ∷ [])) (observations e1 cs)
          ∙ ap (λ os. seen ++ (observations e (c ∷ []) ++ os)) (observations-eq e e1 cs s.2 s.3)
          ∙ ap (λ os. seen ++ os) (sym (observations-cons e c cs))),
)

after-Feeds :
    (e : Engine) (seen : List Observation) (c : Call) (cs : List Call)
    (out : Option (Engine × List IncidentEvent))
    → ((e1 : Engine) (seen' : List Observation)
        → IsEngine e1
        → e1.window ≡ last_items e1.window_limit seen'
        → Feeds e1 seen' cs (feed e1 cs))
    → Steps e seen c out
    → Feeds e seen (c ∷ cs) (then_feed out (λ e'. feed e' cs))
after-Feeds e seen c cs none ih s = s
after-Feeds e seen c cs (some (e1, evs)) ih s =
    let seen' : List Observation = seen ++ observations e (c ∷ []) in
    let window : e1.window ≡ last_items e1.window_limit seen' =
      s.5 ∙ ap (λ n. last_items n seen') (sym s.4) in
    join-Feeds e e1 seen c cs evs (feed e1 cs) s (ih e1 seen' s.0 window)

feed-Feeds :
    (cs : List Call) (e : Engine) (seen : List Observation)
    → IsEngine e
    → e.window ≡ last_items e.window_limit seen
    → Feeds e seen cs (feed e cs)
feed-Feeds [] e seen h w =
    (h, ground arith, w ∙ ap (last_items e.window_limit) (sym (append-nil seen)))
feed-Feeds (c ∷ cs) e seen h w =
    after-Feeds e seen c cs (call e c) (feed-Feeds cs) (call-Steps e seen c h w)

-- A run from a new engine, over any frames and cancellations, in any order.
abbrev pub Accounts : CameraConfig → List Call → Option (Engine × List IncidentEvent) → Type 0
Accounts c cs none = ⊥
Accounts c cs (some (e, events)) =
    (e.window ≡ last_items c.confirm.window (observations (new_engine c) cs))
    × (tally is_opened events ≡ tally is_closed events + open_count e.incident)
    × (tally is_escalated events ≤ tally is_opened events)

Accounts-of :
    (c : CameraConfig) (cs : List Call) (out : Option (Engine × List IncidentEvent))
    → Feeds (new_engine c) [] cs out
    → Accounts c cs out
unfolding new_engine
Accounts-of c cs none f = f
Accounts-of c cs (some (e, events)) f = (f.2, ground arith, ground arith)

-- Over any run of frames and cancellations from a new engine, no call fails; the window holds the last
-- filtered observations, as many as the configured window and no more; every `opened` event has its
-- `closed` event, but for the incident that is open at the end; and there are no more `escalated`
-- events than `opened` ones.
pub feed-Accounts : (c : CameraConfig) (cs : List Call) → Accounts c cs (feed (new_engine c) cs)
unfolding new_engine
feed-Accounts c cs = Accounts-of c cs (feed (new_engine c) cs) (
    feed-Feeds cs (new_engine c) [] (new_engine-IsEngine c)
      (sym (drop_all (0 - c.confirm.window) [] (omega arith))))
