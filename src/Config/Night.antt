-- ===== src/Config/Night.antt =====
-- firemex/config.py: `CameraConfig.is_night`.
use fireme_x.Base.{
  ℕ, ◌+◌, ◌-◌, ◌<◌, ◌≡◌, ◌↔◌, Bool, true, ◌&&◌, ◌||◌, arith, ltb, leb, if◌then◌else◌,
}
use fireme_x.Config.Types.{CameraConfig}

unfoldable pub is_night : CameraConfig → ℕ → Bool
is_night c at =
    if leb c.night_start c.night_end
    then leb c.night_start at && ltb at c.night_end
    else leb c.night_start at || ltb at c.night_end

-- how long after `start` the clock next shows `at`, on a clock of `day` ticks
abbrev pub since : ℕ → ℕ → ℕ → ℕ
since day start at = if leb start at then at - start else at + day - start

-- On a clock of `day` ticks, a time is night exactly when, counted from the start of the night round
-- the clock, it comes before the end of the night; so a night that passes midnight is one interval.
pub is_night_interval :
    (c : CameraConfig) (day at : ℕ)
    → c.night_start < day
    → c.night_end < day
    → at < day
    → (is_night c at ≡ true) ↔ (since day c.night_start at < since day c.night_start c.night_end)
unfolding is_night
is_night_interval c day at hs he ha = (λ h. ground arith, λ h. ground arith)
