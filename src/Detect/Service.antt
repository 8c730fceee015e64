-- ===== src/Detect/Service.antt =====
-- firemex/detect/service.py: `InferenceService`. The task of `_run` is a state machine: it waits for a
-- first job, collects a batch, or waits for the detector. A future is a number, and the ones that are done
-- stand in a dictionary. Milliseconds are whole. The detector's answer and the times are parameters of
-- the steps; a batch may be closed at any time, as its timer may run out at any time.
use fireme_x.Base.{
  ℕ, suc, ◌+◌, ◌/◌, max, Bool, true, false, not, Option, none, some, List, [], ◌∷◌, ◌++◌, ltb, leb,
  if◌then◌else◌, length, keep, is_some,
}
use fireme_x.Base.Dict.{Dict, lookup, insert}
use fireme_x.Detect.Frames.{Frame, FrameResult, Detection}
pub mod Futures
pub mod Shutdown

pub record Job : Type 0 where
  pub frame : Frame
  pub future : ℕ

pub data Outcome : Type 0 where
  result : FrameResult → Outcome
  exception : Outcome
  cancelled : Outcome

abbrev pub Futures : Type 0
Futures = Dict Outcome

pub data Task : Type 0 where
  waiting : Task
  collecting : List Job → Task
  predicting : List Job → Task
  ended : Task

pub record Service : Type 0 where
  pub batch_size : ℕ
  pub queue_size : ℕ
  pub queue : List Job
  pub dropped : ℕ
  pub closing : Bool
  pub task : Task
  pub futures : Futures
  pub next_future : ℕ

-- `InferenceService(detector, batch_size, queue_size)` after `start`; a size of 0 is the default of two
-- batches
abbrev pub new_service : ℕ → ℕ → Service
new_service batch_size queue_size = record {
  batch_size = batch_size;
  queue_size = if ltb 0 queue_size then queue_size else batch_size + batch_size;
  queue = [];
  dropped = 0;
  closing = false;
  task = waiting;
  futures = [];
  next_future = 0;
}

-- `future.done()`
abbrev pub is_done : ℕ → Futures → Bool
is_done k fs = is_some (lookup k fs)

-- an outcome for a future that is not done
unfoldable pub settle : ℕ → Outcome → Futures → Futures
settle k outcome fs = if is_done k fs then fs else insert k outcome fs

pub data Submission : Type 0 where
  shutting_down : Submission
  queue_full : Submission
  submitted : ℕ → Submission

-- `submit` up to its `await`
unfoldable pub submit : Frame → Service → Submission × Service
submit frame s =
    if s.closing
    then (shutting_down, s)
    else if leb s.queue_size (length s.queue)
    then (queue_full, record s { dropped = suc s.dropped; next_future = suc s.next_future })
    else (
      submitted s.next_future,
      record s {
        queue = s.queue ++ record { frame = frame; future = s.next_future } ∷ [];
        next_future = suc s.next_future;
      },
    )

-- `await self._queue.get()` gives the oldest job to the task
take_job : Task → List Job → Service → Service
take_job waiting (j ∷ q) s = record s { queue = q; task = collecting (j ∷ []) }
take_job (collecting js) (j ∷ q) s =
    if ltb (length js) s.batch_size
    then record s { queue = q; task = collecting (js ++ j ∷ []) }
    else s
take_job _ _ s = s

unfoldable pub get : Service → Service
unfolding take_job
get s = take_job s.task s.queue s

-- `job.future.cancelled()`
abbrev pub is_cancelled : Option Outcome → Bool
is_cancelled (some cancelled) = true
is_cancelled _ = false

abbrev pub batch_task : List Job → Task
batch_task [] = waiting
batch_task (j ∷ js) = predicting (j ∷ js)

-- the end of `_collect_batch`: the batch is full or its time is up
close_batch : Task → Service → Service
close_batch (collecting js) s = record s {
  task = batch_task (keep (λ j. not (is_cancelled (lookup j.future s.futures))) js);
}
close_batch _ s = s

unfoldable pub end_batch : Service → Service
unfolding close_batch
end_batch s = close_batch s.task s

-- what `run_in_executor` came back with: one list of detections for each image, or an exception
pub data Predicted : Type 0 where
  results : List (List Detection) → Predicted
  failed : Predicted

abbrev pub result_of : ℕ → Job → List Detection → FrameResult
result_of per_frame_ms j detections = record {
  camera_id = j.frame.camera_id;
  monotonic_ts = j.frame.monotonic_ts;
  wall_ts = j.frame.wall_ts;
  detections = detections;
  is_night = j.frame.is_night;
  inference_ms = per_frame_ms;
  sequence = j.frame.sequence;
}

-- `for job, detections in zip(jobs, results, strict=False)`
unfoldable pub answer : ℕ → List Job → List (List Detection) → Futures → Futures
unfolding settle
answer ms [] ds fs = fs
answer ms (j ∷ js) [] fs = fs
answer ms (j ∷ js) (d ∷ ds) fs = answer ms js ds (settle j.future (result (result_of ms j d)) fs)

-- one outcome for every job that is not done
unfoldable pub settle_all : Outcome → List Job → Futures → Futures
unfolding settle
settle_all outcome [] fs = fs
settle_all outcome (j ∷ js) fs = settle_all outcome js (settle j.future outcome fs)

finish_batch : ℕ → Predicted → Task → Service → Service
unfolding answer settle_all
finish_batch elapsed (results ds) (predicting js) s = record s {
  task = waiting;
  futures = answer (elapsed / max (length js) 1) js ds s.futures;
}
finish_batch elapsed failed (predicting js) s = record s {
  task = waiting;
  futures = settle_all exception js s.futures;
}
finish_batch elapsed _ _ s = s

-- the rest of the loop of `_run`, once the detector is back
unfoldable pub finish : ℕ → Predicted → Service → Service
unfolding finish_batch
finish elapsed predicted s = finish_batch elapsed predicted s.task s

-- the CancelledError reaches the task: only while the detector runs are its jobs cancelled
abbrev pub cancel_task : Task → Futures → Futures
unfolding settle_all
cancel_task (predicting js) fs = settle_all cancelled js fs
cancel_task _ fs = fs

-- `stop`
unfoldable pub stop : Service → Service
unfolding settle_all
stop s = record s {
  closing = true;
  task = ended;
  queue = [];
  futures = settle_all cancelled s.queue (cancel_task s.task s.futures);
}
