-- ===== src/Supervisor/Pipeline/Fresh.antt =====
-- firemex/supervisor.py: the dispatcher's settings follow the site over starts and reloads.
use fireme_x.Base.{
  ◌≡◌, refl, sym, Bool, true, false, Option, none, some, List, [], ◌∷◌, if◌then◌else◌, Bool-cases,
  inl, inr,
}
use mathlib.Core.Path.{subst}
use fireme_x.Config.Types.{SiteConfig}
use fireme_x.Supervisor.Settings.{Settings, Detector, Host, or_else}
use fireme_x.Supervisor.Pipeline.{
  Pipeline, Alerting, alerting_of, with_site, refreshed, effective, reconciled, reload_config,
  start, started_with, or_build, new_pipeline,
}
use fireme_x.Supervisor.Pipeline.Rebuild.{SameRest, after_detector, after_detector-SameRest}

-- a setting that a site may override
abbrev pub overridden : Option Bool → Bool → Bool
overridden none environment = environment
overridden (some own) environment = own

-- The dispatcher, where there is one, holds the site, its webhooks, and the site's own alerting switch
-- or else that of the environment.
abbrev pub Holds : Settings → SiteConfig → Option Alerting → Type 0
Holds settings site none = Unit
Holds settings site (some a) =
    (a.site ≡ site)
    × (a.webhooks ≡ site.alerting.webhooks)
    × (a.shadow_mode ≡ overridden site.detection.shadow_mode settings.shadow_mode)

abbrev pub IsFresh : Pipeline → Type 0
IsFresh p = Holds p.settings p.site p.dispatcher

alerting_of-Holds :
    (settings : Settings) (site : SiteConfig)
    → Holds settings site (some (alerting_of settings site))
alerting_of-Holds settings site = (refl, refl, switch site.detection.shadow_mode)
  where
    switch : (o : Option Bool) → or_else o settings.shadow_mode ≡ overridden o settings.shadow_mode
    switch none = refl
    switch (some b) = refl

pub refreshed-Holds :
    (settings : Settings) (site : SiteConfig) (o : Option Alerting)
    → Holds settings site (refreshed settings site o)
refreshed-Holds settings site none = tt
refreshed-Holds settings site (some a) = alerting_of-Holds settings site

-- a call of the supervisor
pub data Change : Type 0 where
  begin : Host → Change
  reload : Host → Option SiteConfig → Change

unfoldable pub change : Change → Pipeline → Pipeline
change (begin host) p = (start host p).0
change (reload host site) p = (reload_config host site p).0

unfoldable pub changes : List Change → Pipeline → Pipeline
changes [] p = p
changes (c ∷ cs) p = changes cs (change c p)

SameRest-IsFresh : (p q : Pipeline) → SameRest p q → IsFresh p → IsFresh q
SameRest-IsFresh p q same fresh =
    subst (λ o. Holds q.settings q.site o) (sym same.dispatcher)
      (subst (λ x. Holds q.settings x p.dispatcher) (sym same.site)
        (subst (λ x. Holds x p.site p.dispatcher) (sym same.settings) fresh))

reconciled-IsFresh : (out : Pipeline × Bool) → IsFresh out.0 → IsFresh (reconciled out).0
unfolding reconciled
reconciled-IsFresh (p, true) h = h
reconciled-IsFresh (p, false) h = h

pub with_site-IsFresh : (p : Pipeline) (site : SiteConfig) → IsFresh (with_site p site)
with_site-IsFresh p site = refreshed-Holds p.settings site p.dispatcher

reload_config-IsFresh :
    (host : Host) (site : Option SiteConfig) (p : Pipeline)
    → IsFresh p
    → IsFresh (reload_config host site p).0
unfolding reload_config
reload_config-IsFresh host none p h = h
reload_config-IsFresh host (some site) p h =
    reconciled-IsFresh (after_detector host (with_site p site)) (
      SameRest-IsFresh (with_site p site) (after_detector host (with_site p site)).0
        (after_detector-SameRest host (with_site p site)) (with_site-IsFresh p site))

started_with-IsFresh :
    (host : Host) (p : Pipeline) (o : Option Detector)
    → IsFresh p
    → IsFresh (started_with host p o).0
unfolding started_with
started_with-IsFresh host p none h = h
started_with-IsFresh host p (some d) h = elim (Bool-cases (host.starts 0 d)) [
  | inl starts ↦ rw starts (alerting_of-Holds p.settings p.site)
  | inr raises ↦ rw raises h
]

if-IsFresh :
    (b : Bool) (x y : Pipeline × Bool) → IsFresh x.0 → IsFresh y.0 → IsFresh (if b then x else y).0
if-IsFresh true x y h k = h
if-IsFresh false x y h k = k

start-IsFresh : (host : Host) (p : Pipeline) → IsFresh p → IsFresh (start host p).0
unfolding start
start-IsFresh host p h =
    if-IsFresh p.started (p, false) (started_with host p (or_build host (effective p) p.detector)) h
      (started_with-IsFresh host p (or_build host (effective p) p.detector) h)

changes_keep-IsFresh : (cs : List Change) (p : Pipeline) → IsFresh p → IsFresh (changes cs p)
unfolding changes change
changes_keep-IsFresh [] p h = h
changes_keep-IsFresh (begin host ∷ cs) p h =
    changes_keep-IsFresh cs (start host p).0 (start-IsFresh host p h)
changes_keep-IsFresh (reload host site ∷ cs) p h =
    changes_keep-IsFresh cs (reload_config host site p).0 (reload_config-IsFresh host site p h)

-- After any sequence of starts and reloads of a new supervisor, the failed ones included, the
-- dispatcher, where there is one, holds the site, the webhooks and the alerting switch that are in
-- force.
pub changes-IsFresh :
    (settings : Settings) (site : SiteConfig) (detector : Option Detector) (cs : List Change)
    → IsFresh (changes cs (new_pipeline settings site detector))
unfolding new_pipeline
changes-IsFresh settings site detector cs =
    changes_keep-IsFresh cs (new_pipeline settings site detector) tt
