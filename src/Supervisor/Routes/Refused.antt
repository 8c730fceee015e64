-- ===== src/Supervisor/Routes/Refused.antt =====
-- firemex/api/routes_config.py: what a refused change of the detection settings leaves behind.
use mathlib.Core.Path.{subst}
use fireme_x.Base.{◌≡◌, refl, sym, ◌∙◌, ap, Bool, true, false, some}
use fireme_x.Config.Types.{DetectionConfig, SiteConfig}
use fireme_x.Config.Site.{check_references}
use fireme_x.Config.Stored.{IsValid}
use fireme_x.Supervisor.Pipeline.{reload_config}
use fireme_x.Supervisor.Pipeline.Raised.{Fallen, reload_config-Fallen}
use fireme_x.Supervisor.Routes.{
  on_file, Server, Moment, Reply, ok, bad_request, written, write_site, persist, saved, reply_of,
  refused, update_detection,
}
use fireme_x.Supervisor.Routes.Saved.{IsSaved, saved-loaded, saved_reloads}

-- the site that a change of the detection settings asks for
abbrev pub with_detection : DetectionConfig → Server → SiteConfig
with_detection body s = record s.supervisor.site { detection = body }

same_references :
    (body : DetectionConfig) (s : Server)
    → check_references (with_detection body s) ≡ check_references s.supervisor.site
unfolding check_references
same_references body s = refl

update_detection-saved :
    (m : Moment) (body : DetectionConfig) (s : Server)
    → check_references (with_detection body s) ≡ true
    → m.write ≡ written
    → update_detection m body s
      ≡ ((saved m ok (with_detection body s) s).0, refused (saved m ok (with_detection body s) s).1)
unfolding update_detection persist write_site
update_detection-saved m body s valid writes = rw (valid, writes) refl

-- only a reload that raised is answered so
refused_raised : (raised : Bool) → refused (reply_of ok raised) ≡ bad_request → raised ≡ true
unfolding refused reply_of
refused_raised true h = refl
refused_raised false h = cc

-- Where the configuration in force is sound, pydantic accepts the new detection settings, and the file can
-- be written, a change to them that is answered as a bad request is saved and in force all the same, and is
-- not rolled back: the file loads to the site with the new settings, which the engines and the dispatcher
-- have, its alerting switch included, the workers are the old ones, and the service is one of the
-- environment's settings, or there is none where the host refuses these too.
pub update_detection-Fallen :
    (m : Moment) (body : DetectionConfig) (s : Server)
    → IsSaved s
    → s.models.accepts_detection body ≡ true
    → m.write ≡ written
    → (update_detection m body s).1 ≡ bad_request
    → (on_file (update_detection m body s).0 ≡ some (with_detection body s))
      × Fallen m.host (with_detection body s) s.supervisor (update_detection m body s).0.supervisor
update_detection-Fallen m body s h fits writes answer =
    let site : SiteConfig = with_detection body s in
    let valid : check_references site ≡ true = same_references body s ∙ h.sound in
    let models : IsValid s.models site = record {
      cameras = h.valid.cameras;
      contacts = h.valid.contacts;
      alerting = h.valid.alerting;
      detection = fits;
    } in
    let done = update_detection-saved m body s valid writes in
    let reload = saved_reloads m ok site s h.models models valid in
    let raised : (reload_config m.host (some site) s.supervisor).1 ≡ true =
      refused_raised (reload_config m.host (some site) s.supervisor).1
        (sym (ap refused reload.1) ∙ sym (ap (λ (o : Server × Reply). o.1) done) ∙ answer) in
    (
      ap (λ (o : Server × Reply). on_file o.0) done
          ∙ saved-loaded m ok site s h.models models valid,
      subst (Fallen m.host site s.supervisor)
          (sym (ap (λ (o : Server × Reply). o.0.supervisor) done ∙ reload.0))
          (reload_config-Fallen m.host site s.supervisor raised),
    )
