-- ===== src/Examples/Rules.antt =====
-- Runs of the geometry, the zones, the clusters and the checks of a configuration.
use fireme_x.Base.{◌≡◌, refl, true}
use fireme_x.Base.Ratio.{Ratio}
use fireme_x.Detect.Geometry.{BBox}
use fireme_x.Config.Types.{Point}
use fireme_x.Config.Site.{check_references, chain_refs, escalation_chain, escalation_chain-refs}
use fireme_x.Examples.Data.{site}

abbrev other_box : BBox
other_box = record { x1 = 15; y1 = 5; x2 = 30; y2 = 12 }

abbrev point : Point
point = record { x = 4; y = 5 }

abbrev half : Ratio
half = record { num = 1; den = 2 }

site_checked : check_references site ≡ true
unfolding check_references fireme_x.Config.Site.find_contact
site_checked = refl
