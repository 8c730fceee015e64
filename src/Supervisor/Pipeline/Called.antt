-- ===== src/Supervisor/Pipeline/Called.antt =====
-- firemex/supervisor.py: which workers run after a `reload_config` that raises nothing.
use mathlib.Core.Path.{subst}
use fireme_x.Base.{
  ℕ, ◌/◌, ◌≡◌, ◌≢◌, refl, sym, ◌∙◌, ap, Bool, true, false, ◌&&◌, Option, none, some, List, [], ◌∷◌,
  if◌then◌else◌, is_some, keep, ◌==◌,
}
use fireme_x.Base.Dict.{Dict, lookup, insert, lookup-insert}
use fireme_x.Config.Types.{CameraConfig, SiteConfig}
use fireme_x.Incident.Fleet.{by_id, config_differs, CameraConfig-discrete}
use fireme_x.Ingest.State.{new_worker}
use fireme_x.Ingest.RingBuffer.{new_buffer}
use fireme_x.Supervisor.Settings.{Host}
use fireme_x.Supervisor.Pipeline.{
  Pipeline, Running, with_site, reload_config, start_worker, reconcile,
}
use fireme_x.Supervisor.Pipeline.Workers.{kept, or_started, reconcile-lookup}
use fireme_x.Supervisor.Pipeline.Rebuild.{
  after_detector, after_detector-SameRest, reconciled_workers,
}

or_this {ℓ} : {A : Type ℓ} → Option A → Option A → Option A
or_this none o = o
or_this (some a) o = some a

-- the camera that a list of cameras gives to an id: the last one with it that is enabled
unfoldable pub last_enabled : ℕ → List CameraConfig → Option CameraConfig
unfolding or_this
last_enabled j [] = none
last_enabled j (c ∷ cs) =
    or_this (last_enabled j cs) (if c.enabled && (c.id == j) then some c else none)

or_this_found :
    (o : Option CameraConfig) (b : Bool) (c : CameraConfig) (y : Option CameraConfig)
    → or_this o (if b then some c else y) ≡ or_this (or_this o (if b then some c else none)) y
unfolding or_this
or_this_found none true c y = refl
or_this_found none false c y = refl
or_this_found (some a) true c y = refl
or_this_found (some a) false c y = refl

-- one more camera, whether it is enabled or not
by_id_step :
    (b : Bool) (j : ℕ) (c : CameraConfig) (ks : List CameraConfig) (later : Option CameraConfig)
    (d : Dict CameraConfig)
    → ((d : Dict CameraConfig) → lookup j (by_id ks d) ≡ or_this later (lookup j d))
    → lookup j (by_id (if b then c ∷ ks else ks) d)
      ≡ or_this (or_this later (if b && (c.id == j) then some c else none)) (lookup j d)
unfolding by_id
by_id_step true j c ks later d h =
    h (insert c.id c d)
    ∙ ap (or_this later) (lookup-insert j c.id c d)
    ∙ or_this_found later (c.id == j) c (lookup j d)
by_id_step false j c ks later d h = h d ∙ or_this_found later false c (lookup j d)

lookup-by_id :
    (j : ℕ) (cs : List CameraConfig) (d : Dict CameraConfig)
    → lookup j (by_id (keep (λ (c : CameraConfig). c.enabled) cs) d)
      ≡ or_this (last_enabled j cs) (lookup j d)
unfolding by_id last_enabled or_this
lookup-by_id j [] d = refl
lookup-by_id j (c ∷ cs) d =
    by_id_step c.enabled j c (keep (λ (c : CameraConfig). c.enabled) cs) (last_enabled j cs) d
      (lookup-by_id j cs)

config_differs-same : (a b : CameraConfig) → a ≡ b → config_differs a b ≡ false
config_differs-same a b e =
    elim (CameraConfig-discrete a b) as (λ d. elim d [ yes _ ↦ false | no _ ↦ true ] ≡ false) [
      | yes _ ↦ refl
      | no ne ↦ absurd (ne e)
    ]

config_differs-other : (a b : CameraConfig) → a ≢ b → config_differs a b ≡ true
config_differs-other a b ne =
    elim (CameraConfig-discrete a b) as (λ d. elim d [ yes _ ↦ false | no _ ↦ true ] ≡ true) [
      | yes e ↦ absurd (ne e)
      | no _ ↦ refl
    ]

-- a worker that has just been made: for this camera, with the time zone, and nothing taken in yet
pub record IsNew (c : CameraConfig) (timezone : ℕ) (w : Running) : Type 0 where
  pub camera : w.camera ≡ c
  pub zone : w.timezone ≡ timezone
  pub worker : w.worker ≡ new_worker c.id (1000 / c.sample_fps) 15000 60000 (new_buffer 12000 240)

-- whether an old worker was made for a camera as it is configured
abbrev pub IsFor : CameraConfig → Option Running → Type 0
IsFor c none = ⊥
IsFor c (some w) = w.camera ≡ c

-- the worker that one id has after a reload, from the camera that its id has in the new site, the worker
-- that it had, and whether there is a service
pub record Called (timezone : ℕ) (has_service : Bool) (wanted : Option CameraConfig)
    (old now : Option Running) : Type 0 where
  pub gone : wanted ≡ none → now ≡ none
  pub stays : (c : CameraConfig) → wanted ≡ some c → IsFor c old → now ≡ old
  pub made :
      (c : CameraConfig)
      → wanted ≡ some c
      → ¬ IsFor c old
      → has_service ≡ true
      → (w : Running) × (now ≡ some w) × IsNew c timezone w
  pub unserved :
      (c : CameraConfig) → wanted ≡ some c → ¬ IsFor c old → has_service ≡ false → now ≡ none

kept-gone :
    (timezone : ℕ) (b : Bool) (old : Option Running)
    → or_started b timezone none (kept none old) ≡ none
kept-gone timezone b none = refl
kept-gone timezone b (some w) = refl

kept_stays :
    (timezone : ℕ) (b : Bool) (c : CameraConfig) (old : Option Running)
    → IsFor c old
    → or_started b timezone (some c) (kept (some c) old) ≡ old
kept_stays timezone b c none h = absurd h
kept_stays timezone b c (some w) h = rw (config_differs-same c w.camera (sym h)) refl

kept_other : (c : CameraConfig) (old : Option Running) → ¬ IsFor c old → kept (some c) old ≡ none
kept_other c none h = refl
kept_other c (some w) h = rw (config_differs-other c w.camera (λ e. h (sym e))) refl

or_started-Called :
    (timezone : ℕ) (b : Bool) (wanted : Option CameraConfig) (old : Option Running)
    → Called timezone b wanted old (or_started b timezone wanted (kept wanted old))
or_started-Called timezone b none old = record {
  gone = λ e. kept-gone timezone b old;
  stays = λ c e. cc;
  made = λ c e. cc;
  unserved = λ c e. cc;
}
or_started-Called timezone b (some d) old = record {
  gone = λ e. cc;
  stays = λ c e h.
      let same : d ≡ c = cc in
      subst (λ x. or_started b timezone (some x) (kept (some x) old) ≡ old) (sym same)
        (kept_stays timezone b c old h);
  made = λ c e h served.
      let same : d ≡ c = cc in
      (
        start_worker timezone c,
        subst
            (λ x.
              or_started b timezone (some x) (kept (some x) old) ≡ some (start_worker timezone c))
            (sym same) (rw (kept_other c old h) (rw served refl)),
        record { camera = refl; zone = refl; worker = refl },
      );
  unserved = λ c e h absent.
      let same : d ≡ c = cc in
      subst (λ x. or_started b timezone (some x) (kept (some x) old) ≡ none) (sym same)
        (rw (kept_other c old h) (rw absent refl));
}

or_this-none : (o : Option CameraConfig) → or_this o none ≡ o
unfolding or_this
or_this-none none = refl
or_this-none (some c) = refl

lookup-reconcile :
    (j : ℕ) (b : Bool) (site : SiteConfig) (ws : Dict Running)
    → lookup j (reconcile b site ws)
      ≡ or_started b site.timezone
          (last_enabled j site.cameras)
          (kept (last_enabled j site.cameras) (lookup j ws))
lookup-reconcile j b site ws =
    reconcile-lookup j b site ws
    ∙ ap (λ wanted. or_started b site.timezone wanted (kept wanted (lookup j ws)))
        (lookup-by_id j site.cameras [] ∙ or_this-none (last_enabled j site.cameras))

-- A reload that raises nothing leaves each camera id just the worker that the new site calls for: none
-- if no camera of the site with that id is enabled; the old worker, if it was made for the configuration
-- of the last such camera; else, if there is a service to feed, a new worker for that configuration, with
-- the new time zone; else none.
pub reload_config-Called :
    (j : ℕ) (host : Host) (site : SiteConfig) (p : Pipeline)
    → (reload_config host (some site) p).1 ≡ false
    → Called site.timezone
        (is_some (reload_config host (some site) p).0.inference)
        (last_enabled j site.cameras)
        (lookup j p.workers)
        (lookup j (reload_config host (some site) p).0.workers)
unfolding reload_config
reload_config-Called j host site p quiet =
    let out : Pipeline × Bool = after_detector host (with_site p site) in
    let same = after_detector-SameRest host (with_site p site) in
    let done = reconciled_workers out quiet in
    let wanted : Option CameraConfig = last_enabled j site.cameras in
    let now =
      ap (lookup j) done.0
      ∙ lookup-reconcile j (is_some out.0.inference) out.0.site out.0.workers
      ∙ (λ i.
          or_started (is_some (sym done.1 i)) (same.site i).timezone
            (last_enabled j (same.site i).cameras)
            (kept (last_enabled j (same.site i).cameras) (lookup j (same.workers i)))) in
    subst
      (Called site.timezone (is_some (reload_config host (some site) p).0.inference) wanted
        (lookup j p.workers))
      (sym now)
      (or_started-Called site.timezone (is_some (reload_config host (some site) p).0.inference)
        wanted (lookup j p.workers))
