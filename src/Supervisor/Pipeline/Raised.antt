-- ===== src/Supervisor/Pipeline/Raised.antt =====
-- firemex/supervisor.py: what a `reload_config` that raises leaves behind.
use mathlib.Core.Path.{subst}
use fireme_x.Base.{
  ℕ, ◌≡◌, ◌⊎◌, refl, sym, ap, Bool, true, false, ◌&&◌, Option, none, some, if◌then◌else◌,
  Bool-cases, Option-cases, inl, inr,
}
use fireme_x.Config.Types.{SiteConfig}
use fireme_x.Incident.Fleet.{reconfigure}
use fireme_x.Supervisor.Settings.{Settings, Detector, Host, build_detector, detector_settings}
use fireme_x.Supervisor.Pipeline.{
  Pipeline, Inference, with_site, service_of, effective, fingerprint, start_service, fall_back,
  rebuilt, restart_of, restart_inference, state_differs, reconciled, reload_config,
}
use fireme_x.Supervisor.Pipeline.Rebuild.{
  after_detector, after_detector-SameRest, first_try, second_try,
}
use fireme_x.Supervisor.Pipeline.Fresh.{Holds, with_site-IsFresh}

-- a service of a detector that the host builds from some settings at an attempt, and starts
pub record Serves (host : Host) (n : ℕ) (settings : Settings) (service : Inference) : Type 0 where
  pub built : build_detector host n settings ≡ some service.detector
  pub starts : host.starts n service.detector ≡ true
  pub size : service.batch_size ≡ settings.batch_size
  pub timeout : service.batch_timeout_ms ≡ settings.batch_timeout_ms

-- the host can build and start no detector from these settings
abbrev pub Refuses : Host → ℕ → Settings → Type 0
Refuses host n settings =
    (d : Detector) → build_detector host n settings ≡ some d → host.starts n d ≡ false

-- what is left: the new site is in force for the engines and for the dispatcher, the workers are the old
-- ones, and the service runs the detector of the environment's settings, or there is none where these
-- cannot be started either
pub record Fallen (host : Host) (new : SiteConfig) (p q : Pipeline) : Type 0 where
  pub ours : p.detector ≡ none
  pub refused : Refuses host 0 (detector_settings p.settings new.detection)
  pub site : q.site ≡ new
  pub engine : q.engine ≡ reconfigure new.cameras p.engine
  pub alerting : Holds p.settings new q.dispatcher
  pub workers : q.workers ≡ p.workers
  pub service :
      ((q.inference ≡ none) × Refuses host 1 p.settings)
      ⊎ ((s : Inference) × (q.inference ≡ some s) × Serves host 1 p.settings s)

started-Serves :
    (host : Host) (n : ℕ) (settings : Settings) (o : Option Detector) (service : Inference)
    → build_detector host n settings ≡ o
    → start_service host n settings o ≡ some service
    → Serves host n settings service
unfolding start_service
started-Serves host n settings none service e h = cc
started-Serves host n settings (some d) service e h = elim (Bool-cases (host.starts n d)) [
  | inl runs ↦
      let same : service_of settings d ≡ service = cc (rw runs at h) in
      subst (Serves host n settings) same
        (record { built = e; starts = runs; size = refl; timeout = refl })
  | inr fails ↦ cc (rw fails at h)
]

start_service-Refuses :
    (host : Host) (n : ℕ) (settings : Settings) (o : Option Detector)
    → build_detector host n settings ≡ o
    → start_service host n settings o ≡ none
    → Refuses host n settings
unfolding start_service
start_service-Refuses host n settings none e h = λ d f. cc
start_service-Refuses host n settings (some d) e h = λ d' f. elim (Bool-cases (host.starts n d)) [
  | inl runs ↦ absurd (cc (rw runs at h))
  | inr fails ↦ let same : d ≡ d' = cc in subst (λ x. host.starts n x ≡ false) same fails
]

rebuilt_raised :
    (host : Host) (p : Pipeline) (o : Option Inference)
    → (rebuilt host p o).1 ≡ true
    → (o ≡ none)
      × (((rebuilt host p o).0.inference ≡ none) × Refuses host 1 p.settings
          ⊎ ((s : Inference) × ((rebuilt host p o).0.inference ≡ some s)
              × Serves host 1 p.settings s))
unfolding rebuilt fall_back
rebuilt_raised host p (some s) h = cc
rebuilt_raised host p none h = (
  refl,
  elim (Option-cases (second_try host p)) [
    | inl fails ↦ inl (
      ap (λ o. (fall_back p o).inference) fails,
      start_service-Refuses host 1 p.settings (build_detector host 1 p.settings) refl fails,
    )
    | inr (s, e) ↦ inr (
      s,
      ap (λ o. (fall_back p o).inference) e,
      started-Serves host 1 p.settings (build_detector host 1 p.settings) s refl e,
    )
  ],
)

-- what a restart that raises says of the host
Restarted : Host → Pipeline → Pipeline → Type 0
Restarted host p q =
    (p.detector ≡ none)
    × Refuses host 0 (effective p)
    × (((q.inference ≡ none) × Refuses host 1 p.settings)
        ⊎ ((s : Inference) × (q.inference ≡ some s) × Serves host 1 p.settings s))

restart_of_raised :
    (host : Host) (p : Pipeline) (o : Option Detector)
    → p.detector ≡ o
    → (restart_of host p o).1 ≡ true
    → Restarted host p (restart_of host p o).0
unfolding restart_of Restarted
restart_of_raised host p (some d) e h = cc
restart_of_raised host p none e h =
    let out = rebuilt_raised host p (first_try host p) h in
    (
      e,
      start_service-Refuses host 0 (effective p) (build_detector host 0 (effective p)) refl out.0,
      out.1,
    )

if_raised :
    (b : Bool) (host : Host) (p : Pipeline)
    → (if b then restart_inference host p else (p, false)).1 ≡ true
    → Restarted host p (if b then restart_inference host p else (p, false)).0
unfolding restart_inference
if_raised true host p h = restart_of_raised host p p.detector refl h
if_raised false host p h = cc

reconciled_raised :
    (out : Pipeline × Bool)
    → (reconciled out).1 ≡ true
    → (out.1 ≡ true) × ((reconciled out).0 ≡ out.0)
unfolding reconciled
reconciled_raised (p, true) h = (refl, refl)
reconciled_raised (p, false) h = cc

-- Whenever a reload with a site that could be read raises, the detector was not injected, the host
-- refuses the one of the new settings, the new site is in force for the engines and for the dispatcher,
-- the workers are the old ones, and the service is one of the environment's settings, without the
-- site's, or there is none where the host refuses these too.
pub reload_config-Fallen :
    (host : Host) (site : SiteConfig) (p : Pipeline)
    → (reload_config host (some site) p).1 ≡ true
    → Fallen host site p (reload_config host (some site) p).0
unfolding reload_config Restarted
reload_config-Fallen host site p raised =
    let loaded : Pipeline = with_site p site in
    let out : Pipeline × Bool = after_detector host loaded in
    let ends = reconciled_raised out raised in
    let same = after_detector-SameRest host loaded in
    let restarted : Restarted host loaded out.0 =
      if_raised (loaded.started && state_differs loaded.detector_state (fingerprint loaded)) host
        loaded ends.0 in
    subst (Fallen host site p) (sym ends.1) (record {
      ours = restarted.0;
      refused = restarted.1;
      site = same.site;
      engine = same.engine;
      alerting = subst (Holds p.settings site) (sym same.dispatcher) (with_site-IsFresh p site);
      workers = same.workers;
      service = restarted.2;
    })
