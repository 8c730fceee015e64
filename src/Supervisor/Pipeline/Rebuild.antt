-- ===== src/Supervisor/Pipeline/Rebuild.antt =====
-- firemex/supervisor.py: what `reload_config` and `_restart_inference` do to the detector, the
-- dispatcher's settings and the workers, also where a new detector cannot be built.
use fireme_x.Base.{
  ◌≡◌, refl, ◌∙◌, ap, Bool, true, false, ◌&&◌, Option, none, some, arith, if◌then◌else◌, Bool-cases,
  inl, inr, is_some,
}
use fireme_x.Config.Types.{SiteConfig}
use fireme_x.Supervisor.Settings.{Detector, Host, Fingerprint, build_detector}
use fireme_x.Supervisor.Pipeline.{
  Fingerprint-discrete, Pipeline, Inference, with_site, effective, fingerprint, start_service,
  fall_back, rebuilt, restart_of, restart_inference, state_differs, reconciled, reconcile,
  reload_config,
}

-- a restart touches the service and its fingerprint only
pub record SameRest (p q : Pipeline) : Type 0 where
  pub settings : q.settings ≡ p.settings
  pub site : q.site ≡ p.site
  pub engine : q.engine ≡ p.engine
  pub workers : q.workers ≡ p.workers
  pub dispatcher : q.dispatcher ≡ p.dispatcher
  pub detector : q.detector ≡ p.detector
  pub started : q.started ≡ p.started

fall_back-SameRest : (p : Pipeline) (o : Option Inference) → SameRest p (fall_back p o)
unfolding fall_back
fall_back-SameRest p none = ground arith
fall_back-SameRest p (some s) = ground arith

rebuilt-SameRest :
    (host : Host) (p : Pipeline) (o : Option Inference) → SameRest p (rebuilt host p o).0
unfolding rebuilt
rebuilt-SameRest host p (some s) = ground arith
rebuilt-SameRest host p none =
    fall_back-SameRest p (start_service host 1 p.settings (build_detector host 1 p.settings))

restart_of-SameRest :
    (host : Host) (p : Pipeline) (o : Option Detector) → SameRest p (restart_of host p o).0
unfolding restart_of
restart_of-SameRest host p (some d) = ground arith
restart_of-SameRest host p none =
    rebuilt-SameRest host p
      (start_service host 0 (effective p) (build_detector host 0 (effective p)))

pub restart_inference-SameRest :
    (host : Host) (p : Pipeline) → SameRest p (restart_inference host p).0
unfolding restart_inference
restart_inference-SameRest host p = restart_of-SameRest host p p.detector

-- the state after the detector has been looked at
abbrev pub after_detector : Host → Pipeline → Pipeline × Bool
after_detector host p =
    if p.started && state_differs p.detector_state (fingerprint p)
    then restart_inference host p
    else (p, false)

pub after_detector-SameRest : (host : Host) (p : Pipeline) → SameRest p (after_detector host p).0
after_detector-SameRest host p =
    elim (Bool-cases (p.started && state_differs p.detector_state (fingerprint p))) [
      | inl changed ↦ rw changed (restart_inference-SameRest host p)
      | inr same ↦ rw same (ground arith)
    ]

reconciled-site : (out : Pipeline × Bool) → (reconciled out).0.site ≡ out.0.site
unfolding reconciled
reconciled-site (p, true) = refl
reconciled-site (p, false) = refl

-- a site that could be read is in force, however the reload ends
pub reload_config-site :
    (host : Host) (site : SiteConfig) (p : Pipeline)
    → (reload_config host (some site) p).0.site ≡ site
unfolding reload_config
reload_config-site host site p =
    reconciled-site (after_detector host (with_site p site))
    ∙ (after_detector-SameRest host (with_site p site)).site

pub reconciled_workers :
    (out : Pipeline × Bool)
    → (reconciled out).1 ≡ false
    → (reconciled out).0.workers ≡ reconcile (is_some out.0.inference) out.0.site out.0.workers
      × ((reconciled out).0.inference ≡ out.0.inference)
unfolding reconciled
reconciled_workers (p, true) h = cc
reconciled_workers (p, false) h = (refl, refl)

-- the service for the settings in force, and the one for the environment's
abbrev pub first_try : Host → Pipeline → Option Inference
first_try host p = start_service host 0 (effective p) (build_detector host 0 (effective p))

abbrev pub second_try : Host → Pipeline → Option Inference
second_try host p = start_service host 1 p.settings (build_detector host 1 p.settings)

abbrev pub fallen_back : Pipeline → Inference → Pipeline
fallen_back p service = record p { inference = some service; detector_state = some (fingerprint p) }

state_differs_self : (f : Fingerprint) → state_differs (some f) f ≡ false
unfolding state_differs
state_differs_self f =
    elim (Fingerprint-discrete f f) as (λ d. elim d [ yes _ ↦ false | no _ ↦ true ] ≡ false) [
      | yes _ ↦ refl
      | no ne ↦ absurd (ne refl)
    ]

-- After a reload that fell back to the environment's detector, reloading the same site raises nothing
-- and goes on with that detector, whatever the host would answer by then: the site's own detector is
-- not tried again.
pub reload_config_not_retried :
    (host : Host) (site : SiteConfig) (p : Pipeline) (service : Inference)
    → p.started ≡ true
    → let fallen = fallen_back (with_site p site) service in
      ((reload_config host (some site) fallen).1 ≡ false)
      × ((reload_config host (some site) fallen).0.inference ≡ some service)
unfolding reload_config reconciled
reload_config_not_retried host site p service started =
    let q : Pipeline = with_site (fallen_back (with_site p site) service) site in
    let f : Fingerprint = fingerprint (with_site p site) in
    let test : (p.started && state_differs (some f) f) ≡ false =
      rw (started, state_differs_self f) refl in
    let tried : Bool → Pipeline × Bool =
      λ b. reconciled (if b then restart_inference host q else (q, false)) in
    (ap (λ b. (tried b).1) test, ap (λ b. (tried b).0.inference) test)
