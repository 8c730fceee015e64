-- ===== src/Detect/Service/Shutdown.antt =====
-- firemex/detect/service.py: the callers that `stop` leaves behind, and the answers of a batch.
use fireme_x.Base.{
  ◌∙◌, ℕ, ◌≡◌, refl, ◌≢◌, ◌/◌, max, true, none, some, List, [], ◌∷◌, arith, length, All,
}
use fireme_x.Base.Dict.{lookup, lookup-insert}
use fireme_x.Detect.Frames.{Detection}
use fireme_x.Detect.Service.{
  Job, Outcome, cancelled, Futures, is_done, settle, settle_all, Service, Task, predicting,
  collecting, results, finish, finish_batch, stop,
}
use fireme_x.Detect.Service.Futures.{
  RisingJobs, Answered, answer-Answered, answer_once, settle_done, settle_other,
}

-- Where the detector returns its lists while a batch waits for it whose futures have rising numbers, every
-- job of the batch that has a list, and whose future is not done yet, is answered with its own detections
-- and with the camera, the times, the night and the number of its own frame; no future that was already
-- done, as where its caller was cancelled meanwhile, changes.
pub finish-Answered :
    (elapsed lo : ℕ) (js : List Job) (ds : List (List Detection)) (s : Service)
    → s.task ≡ predicting js
    → RisingJobs lo js
    → let fs : Futures = (finish elapsed (results ds) s).futures in
      Answered (elapsed / max (length js) 1) s.futures fs js ds
      × ((i : ℕ) (v : Outcome) → lookup i s.futures ≡ some v → lookup i fs ≡ some v)
unfolding finish finish_batch
finish-Answered elapsed lo js ds s e r = rw e (
  answer-Answered (elapsed / max (length js) 1) lo js ds s.futures r,
  answer_once (elapsed / max (length js) 1) js ds s.futures,
)

settle_all_keeps :
    (outcome : Outcome) (js : List Job) (fs : Futures) (i : ℕ)
    → is_done i fs ≡ true
    → is_done i (settle_all outcome js fs) ≡ true
unfolding settle_all settle
settle_all_keeps outcome [] fs i e = e
settle_all_keeps outcome (j ∷ js) fs i e =
    settle_all_keeps outcome js (settle j.future outcome fs) i
      (ground (arith, lookup-insert i j.future outcome fs))

settle_all_done :
    (outcome : Outcome) (js : List Job) (fs : Futures)
    → All (λ j. is_done j.future (settle_all outcome js fs) ≡ true) js
unfolding settle_all
settle_all_done outcome [] fs = tt
settle_all_done outcome (j ∷ js) fs = (
  settle_all_keeps outcome js (settle j.future outcome fs) j.future
      (settle_done j.future outcome fs),
  settle_all_done outcome js (settle j.future outcome fs),
)

-- the futures of the jobs are others than a given one
abbrev pub Without : ℕ → List Job → Type 0
Without i js = All (λ j. i ≢ j.future) js

settle_all_other :
    (outcome : Outcome) (js : List Job) (fs : Futures) (i : ℕ)
    → Without i js
    → lookup i (settle_all outcome js fs) ≡ lookup i fs
unfolding settle_all
settle_all_other outcome [] fs i w = refl
settle_all_other outcome (j ∷ js) fs i w =
    settle_all_other outcome js (settle j.future outcome fs) i w.1
    ∙ settle_other j.future i outcome fs w.0

All-keeps :
    (outcome : Outcome) (js ks : List Job) (fs : Futures)
    → All (λ j. is_done j.future fs ≡ true) ks
    → All (λ j. is_done j.future (settle_all outcome js fs) ≡ true) ks
All-keeps outcome js [] fs h = tt
All-keeps outcome js (k ∷ ks) fs h =
    (settle_all_keeps outcome js fs k.future h.0, All-keeps outcome js ks fs h.1)

-- A stop leaves no caller waiting whose job was in the queue or in the batch that the detector worked on.
pub stop_releases :
    (js : List Job) (s : Service)
    → s.task ≡ predicting js
    → All (λ j. is_done j.future (stop s).futures ≡ true) s.queue
      × All (λ j. is_done j.future (stop s).futures ≡ true) js
unfolding stop
stop_releases js s e = rw e (
  settle_all_done cancelled s.queue (settle_all cancelled js s.futures),
  All-keeps cancelled s.queue js (settle_all cancelled js s.futures)
      (settle_all_done cancelled js s.futures),
)

-- A stop that comes while the service collects a batch leaves the caller of the batch's first job waiting:
-- its future, if pending and not that of a job in the queue, stays pending, and no job and no task is left
-- that could settle it.
pub stop_strands_collected :
    (j : Job) (js : List Job) (s : Service)
    → s.task ≡ collecting (j ∷ js)
    → Without j.future s.queue
    → lookup j.future s.futures ≡ none
    → (lookup j.future (stop s).futures ≡ none)
      × ((stop s).queue ≡ [])
      × ((stop s).task ≡ Task.ended)
unfolding stop
stop_strands_collected j js s e w p =
    (rw e (settle_all_other cancelled s.queue s.futures j.future w ∙ p), refl, refl)
