-- ===== src/Supervisor/Pipeline/Health.antt =====
-- firemex/supervisor.py: `healthy`. A problem's text is a constructor with the camera that it names.
use fireme_x.Base.{
  ℕ, ◌+◌, ◌-◌, ◌≤◌, ◌≡◌, ◌≢◌, ◌↔◌, refl, Bool, true, false, not, ◌&&◌, Option, none, some, List, [],
  ◌∷◌, ◌++◌, arith, ltb, if◌then◌else◌, is_empty, All, ◌⊎◌, inl, inr,
}
use fireme_x.Base.Dict.{Dict, lookup}
use fireme_x.Config.Types.{CameraConfig, ContactConfig, SiteConfig}
use fireme_x.Config.Site.{escalation_chain}
use fireme_x.Supervisor.Settings.{twilio_configured}
use fireme_x.Supervisor.Pipeline.{Pipeline, Running, shadow}

pub data Problem : Type 0 where
  not_started : Problem
  no_worker : ℕ → Problem
  disconnected : ℕ → Problem
  stalled : ℕ → Problem
  no_credentials : Problem
  no_contacts : ℕ → Problem

abbrev one_if : Bool → Problem → List Problem
one_if b p = if b then p ∷ [] else []

-- `age > worker.stall_timeout`, once there was a frame
abbrev is_late : ℕ → ℕ → Option ℕ → Bool
is_late now timeout none = false
is_late now timeout (some last) = ltb timeout (now - last)

-- the body of the first loop, for an enabled camera
abbrev worker_problems : ℕ → ℕ → Option Running → List Problem
worker_problems now id none = no_worker id ∷ []
worker_problems now id (some w) =
    if not w.worker.connected
    then disconnected id ∷ []
    else one_if (is_late now w.worker.stall_timeout w.worker.last_frame) (stalled id)

unfoldable pub camera_problems : ℕ → Dict Running → List CameraConfig → List Problem
camera_problems now ws [] = []
camera_problems now ws (c ∷ cs) =
    (if c.enabled then worker_problems now c.id (lookup c.id ws) else [])
    ++ camera_problems now ws cs

unfoldable pub contact_problems : SiteConfig → List CameraConfig → List Problem
unfolding escalation_chain
contact_problems site [] = []
contact_problems site (c ∷ cs) =
    one_if (c.enabled && is_empty (escalation_chain site c.id)) (no_contacts c.id)
    ++ contact_problems site cs

unfoldable pub problems : ℕ → Pipeline → List Problem
unfolding camera_problems contact_problems
problems now p =
    one_if (not p.started) not_started
    ++ (camera_problems now p.workers p.site.cameras
        ++ (one_if (not (shadow p) && not (twilio_configured p.settings)) no_credentials
            ++ (if shadow p then [] else contact_problems p.site p.site.cameras)))

-- `healthy`
abbrev pub healthy : ℕ → Pipeline → Bool × List Problem
healthy now p = let found = problems now p in (is_empty found, found)

-- a worker that is connected and whose last frame is not too old
abbrev pub Delivers : ℕ → Option Running → Type 0
Delivers now none = ⊥
Delivers now (some w) =
    (w.worker.connected ≡ true)
    × ((t : ℕ) → w.worker.last_frame ≡ some t → now ≤ t + w.worker.stall_timeout)

abbrev pub Watched : ℕ → Dict Running → CameraConfig → Type 0
Watched now ws c = c.enabled ≡ true → Delivers now (lookup c.id ws)

abbrev pub Reachable : SiteConfig → CameraConfig → Type 0
Reachable site c = c.enabled ≡ true → escalation_chain site c.id ≢ []

-- Every enabled camera delivers, and outside shadow mode people can be called.
pub record IsHealthy (now : ℕ) (p : Pipeline) : Type 0 where
  pub started : p.started ≡ true
  pub watched : All (Watched now p.workers) p.site.cameras
  pub called :
      (shadow p ≡ true)
      ⊎ ((twilio_configured p.settings ≡ true) × All (Reachable p.site) p.site.cameras)

empty-append :
    (xs ys : List Problem)
    → (is_empty (xs ++ ys) ≡ true) ↔ ((is_empty xs ≡ true) × (is_empty ys ≡ true))
empty-append [] ys = (λ h. (refl, h), λ h. h.1)
empty-append (x ∷ xs) ys = (λ h. cc, λ h. cc)

started_problem : (b : Bool) → (is_empty (one_if (not b) not_started) ≡ true) ↔ (b ≡ true)
started_problem b = ground arith

is_late-false :
    (now timeout : ℕ) (o : Option ℕ)
    → (is_late now timeout o ≡ false) ↔ ((t : ℕ) → o ≡ some t → now ≤ t + timeout)
is_late-false now timeout none = (λ h t e. cc, λ h. refl)
is_late-false now timeout (some last) = (λ h t e. ground arith, λ h. ground (arith, h last refl))

connected_problems :
    (id : ℕ) (connected late : Bool)
    → (is_empty (if not connected then disconnected id ∷ [] else one_if late (stalled id)) ≡ true)
      ↔ ((connected ≡ true) × (late ≡ false))
connected_problems id connected late = ground arith

worker_problems-Delivers :
    (now id : ℕ) (o : Option Running)
    → (is_empty (worker_problems now id o) ≡ true) ↔ Delivers now o
worker_problems-Delivers now id none = (λ h. cc, λ h. absurd h)
worker_problems-Delivers now id (some w) =
    let late : Bool = is_late now w.worker.stall_timeout w.worker.last_frame in
    let tests = connected_problems id w.worker.connected late in
    let times = is_late-false now w.worker.stall_timeout w.worker.last_frame in
    (λ h. ((tests.0 h).0, times.0 (tests.0 h).1), λ h. tests.1 (h.0, times.1 h.1))

if_enabled :
    (b : Bool) (xs : List Problem)
    → (is_empty (if b then xs else []) ≡ true) ↔ (b ≡ true → is_empty xs ≡ true)
if_enabled true xs = (λ h e. h, λ h. h refl)
if_enabled false xs = (λ h e. cc, λ h. refl)

camera_problems-Watched :
    (now : ℕ) (ws : Dict Running) (cs : List CameraConfig)
    → (is_empty (camera_problems now ws cs) ≡ true) ↔ All (Watched now ws) cs
unfolding camera_problems
camera_problems-Watched now ws [] = (λ h. tt, λ h. refl)
camera_problems-Watched now ws (c ∷ cs) =
    let mine = worker_problems now c.id (lookup c.id ws) in
    let joined = empty-append (if c.enabled then mine else []) (camera_problems now ws cs) in
    let here = if_enabled c.enabled mine in
    let delivers = worker_problems-Delivers now c.id (lookup c.id ws) in
    let rest = camera_problems-Watched now ws cs in
    (
      λ h. (λ on. delivers.0 (here.0 (joined.0 h).0 on), rest.0 (joined.0 h).1),
      λ h. joined.1 (here.1 (λ on. delivers.1 (h.0 on)), rest.1 h.1),
    )

chain_problems :
    (b : Bool) (chain : List ContactConfig) (p : Problem)
    → (is_empty (one_if (b && is_empty chain) p) ≡ true) ↔ (b ≡ true → chain ≢ [])
chain_problems true [] p = (λ h. cc, λ h. absurd (h refl refl))
chain_problems true (c ∷ cs) p = (λ h e same. cc, λ h. refl)
chain_problems false chain p = (λ h e. cc, λ h. refl)

contact_problems-Reachable :
    (site : SiteConfig) (cs : List CameraConfig)
    → (is_empty (contact_problems site cs) ≡ true) ↔ All (Reachable site) cs
unfolding contact_problems
contact_problems-Reachable site [] = (λ h. tt, λ h. refl)
contact_problems-Reachable site (c ∷ cs) =
    let chain = escalation_chain site c.id in
    let joined =
      empty-append (one_if (c.enabled && is_empty chain) (no_contacts c.id))
        (contact_problems site cs) in
    let here = chain_problems c.enabled chain (no_contacts c.id) in
    let rest = contact_problems-Reachable site cs in
    (λ h. (here.0 (joined.0 h).0, rest.0 (joined.0 h).1), λ h. joined.1 (here.1 h.0, rest.1 h.1))

live_problems :
    (quiet twilio : Bool) (xs : List Problem)
    → (is_empty (one_if (not quiet && not twilio) no_credentials ++ (if quiet then [] else xs))
        ≡ true)
      ↔ ((quiet ≡ true) ⊎ ((twilio ≡ true) × (is_empty xs ≡ true)))
live_problems true twilio xs = (λ h. inl refl, λ h. refl)
live_problems false true xs = (λ h. inr (refl, h), λ h. elim h [ inl e ↦ cc | inr e ↦ e.1 ])
live_problems false false xs = (λ h. cc, λ h. elim h [ inl e ↦ cc | inr e ↦ cc (e.0) ])

-- The supervisor reports itself healthy exactly when it is started, the worker of every enabled camera
-- is connected and has had no frame or one within its stall timeout, and, outside shadow mode, there
-- are credentials for calls and every enabled camera has someone to call.
pub healthy_iff : (now : ℕ) (p : Pipeline) → ((healthy now p).0 ≡ true) ↔ IsHealthy now p
unfolding problems
healthy_iff now p =
    let cameras = camera_problems now p.workers p.site.cameras in
    let people = contact_problems p.site p.site.cameras in
    let live =
      one_if (not (shadow p) && not (twilio_configured p.settings)) no_credentials
      ++ (if shadow p then [] else people) in
    let outer = empty-append (one_if (not p.started) not_started) (cameras ++ live) in
    let inner = empty-append cameras live in
    let begun = started_problem p.started in
    let watched = camera_problems-Watched now p.workers p.site.cameras in
    let reached = contact_problems-Reachable p.site p.site.cameras in
    let called = live_problems (shadow p) (twilio_configured p.settings) people in
    (
      λ h.
          let parts = outer.0 h in
          let more = inner.0 parts.1 in
          record {
            started = begun.0 parts.0;
            watched = watched.0 more.0;
            called = elim (called.0 more.1) [
              | inl quiet ↦ inl quiet
              | inr live_mode ↦ inr (live_mode.0, reached.0 live_mode.1)
            ];
          },
      λ h. outer.1 (
        begun.1 h.started,
        inner.1 (
          watched.1 h.watched,
          called.1 (elim h.called [
            | inl quiet ↦ inl quiet
            | inr live_mode ↦ inr (live_mode.0, reached.1 live_mode.1)
          ]),
        ),
      ),
    )
