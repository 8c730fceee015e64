-- ===== src/Ingest/Worker/Account.antt =====
-- firemex/ingest/worker.py: where the sampled frames go.
use fireme_x.Base.{ℕ, ◌+◌, ◌≡◌, List, [], ◌∷◌, length}
use fireme_x.Detect.Frames.{Frame}
use fireme_x.Ingest.State.{CameraWorker}
use fireme_x.Ingest.Worker.{Step, answered, failed, cancelled, within_reach, step}

-- one if a step takes a frame that the submitter answers
abbrev pub handled_by : Step → List Frame → ℕ
handled_by (Step.consume_step answered) (_ ∷ _) = 1
handled_by _ _ = 0

abbrev pub handled : List Step → CameraWorker → ℕ
handled [] w = 0
handled (s ∷ ss) w = handled_by s (within_reach w) + handled ss (step s w)

-- one if a step takes a frame that is lost: its submission raised, and no counter says so
abbrev pub lost_by : Step → List Frame → ℕ
lost_by (Step.consume_step failed) (_ ∷ _) = 1
lost_by (Step.consume_step cancelled) (_ ∷ _) = 1
lost_by _ _ = 0

abbrev pub lost : List Step → CameraWorker → ℕ
lost [] w = 0
lost (s ∷ ss) w = lost_by s (within_reach w) + lost ss (step s w)

-- the frames that still wait
abbrev pub waiting : CameraWorker → ℕ
waiting w = length w.queue + length w.callbacks

-- what a step does to the counts
Accounts : ℕ → CameraWorker → CameraWorker → Type 0
Accounts n w w' =
    w'.frames_sampled + (w.frames_dropped + waiting w)
    ≡ w.frames_sampled + (n + (w'.frames_dropped + waiting w'))
