-- ===== src/Config/Confirm.antt =====
-- firemex/config.py: the validation of the confirmation rules.
use fireme_x.Base.{
  ℕ, ◌≤◌, ◌≡◌, Bool, true, ◌&&◌, Option, none, some, arith, ltb, leb, if◌then◌else◌,
}
use fireme_x.Base.Ratio.{Ratio}
use fireme_x.Config.Types.{ConfirmConfig}

-- the `Field(ge=..., le=..., gt=...)` bounds of `ConfirmConfig`, which pydantic enforces
abbrev at_most_one : Ratio → Bool
at_most_one r = leb r.num r.den && ltb 0 r.den

optional_ge_one : Option ℕ → Bool
optional_ge_one none = true
optional_ge_one (some n) = leb 1 n

fields_ok : ConfirmConfig → Bool
unfolding optional_ge_one
fields_ok c =
    leb 1 c.frames_required
    && leb 1 c.window
    && at_most_one c.stability_iou
    && optional_ge_one c.stability_frames
    && at_most_one c.growth_tolerance
    && ltb 0 c.growth_window_seconds
    && ltb 0 c.clear_after_seconds

check_stability : ConfirmConfig → Option ℕ → Option ConfirmConfig
check_stability c none = some (record c { stability_frames = some c.frames_required })
check_stability c (some n) = if ltb c.frames_required n then none else some c

-- `ConfirmConfig(...)`: the bounds of the fields, then `_check`; `none` is a ValidationError
unfoldable pub validate_confirm : ConfirmConfig → Option ConfirmConfig
unfolding fields_ok check_stability
validate_confirm c =
    if fields_ok c
    then (if ltb c.window c.frames_required then none else check_stability c c.stability_frames)
    else none

-- The rules that the engine relies on.
pub record IsConfirm (c : ConfirmConfig) : Type 0 where
  pub needs_frame : 1 ≤ c.frames_required
  pub fits_window : c.frames_required ≤ c.window
  pub stability : ℕ
  pub stability_set : c.stability_frames ≡ some stability
  pub needs_stable : 1 ≤ stability
  pub stability_fits : stability ≤ c.frames_required
  pub tolerance : c.growth_tolerance.num ≤ c.growth_tolerance.den

stability_of : (c : ConfirmConfig) (o : Option ℕ) → ℕ
stability_of c none = c.frames_required
stability_of c (some n) = n

-- A confirmation configuration that passes validation asks for at least one frame and for no more
-- frames than its window holds, and has a stability count between one and the frames required.
pub validate_confirm-IsConfirm :
    (c : ConfirmConfig) {c' : ConfirmConfig} → validate_confirm c ≡ some c' → IsConfirm c'
unfolding validate_confirm stability_of
validate_confirm-IsConfirm c {c'} h = record {
  needs_frame = ground arith;
  fits_window = ground arith;
  stability = stability_of c c.stability_frames;
  stability_set = ground arith;
  needs_stable = ground arith;
  stability_fits = ground arith;
  tolerance = ground arith;
}
