-- ===== src/Examples/Workers.antt =====
-- Runs of the pre-event buffer, a camera's worker and the inference service.
use fireme_x.Base.{ℕ, ◌/◌, ◌≡◌, refl, max, false, none, some, List, [], ◌∷◌, arith, length}
use fireme_x.Base.Dict.{lookup}
use fireme_x.Detect.Frames.{Frame}
use fireme_x.Detect.Service.{
  Job, Outcome, Service, predicting, collecting, results, new_service, finish,
}
use fireme_x.Detect.Service.Futures.{Answered}
use fireme_x.Detect.Service.Shutdown.{finish-Answered}
use fireme_x.Notify.Cooldown.{Spaced}
use fireme_x.Ingest.RingBuffer.{FrameRingBuffer, new_buffer}
use fireme_x.Ingest.RingBuffer.Invariant.{IsBuffer}
use fireme_x.Ingest.State.{CameraWorker, new_worker}
use fireme_x.Ingest.Worker.{Step, answered, queue_full, failed}
use fireme_x.Ingest.Worker.Order.{submitted, Rising, submitted-Rising}
use fireme_x.Ingest.Worker.Watchdog.{alarms, alarms-Spaced_worker}
use fireme_x.Examples.Data.{flame}

abbrev buffer : FrameRingBuffer
buffer = new_buffer 12 3

buffer-IsBuffer : IsBuffer 0 buffer
buffer-IsBuffer = record { capped = omega arith; ascending = tt; past = tt }

abbrev worker : CameraWorker
worker = new_worker 1 200 15000 60000 buffer

abbrev steps : List Step
steps =
    Step.connect_step 0
    ∷ Step.read_step 10 1010 false (some 5)
    ∷ Step.deliver_step
    ∷ Step.read_step 300 1300 false (some 6)
    ∷ Step.deliver_step
    ∷ Step.consume_step answered
    ∷ Step.consume_step queue_full
    ∷ Step.read_step 600 1600 false (some 7)
    ∷ Step.deliver_step
    ∷ Step.consume_step failed
    ∷ Step.watch_step 20000
    ∷ []

submitted-Rising_example : Rising 0 (submitted steps (new_worker 1 200 15000 60000 buffer))
submitted-Rising_example = submitted-Rising steps 1 200 15000 60000 buffer

alarms-Spaced_worker_example : Spaced worker.stall_timeout none (alarms steps worker)
alarms-Spaced_worker_example =
    alarms-Spaced_worker steps 0 worker
      (omega arith, (omega arith, (omega arith, (omega arith, (omega arith, tt)))))

abbrev frame_one : Frame
frame_one = record {
  camera_id = 1;
  monotonic_ts = 10;
  wall_ts = 1010;
  is_night = false;
  sequence = 1;
}

abbrev job : Job
job = record { frame = frame_one; future = 0 }

abbrev queued_job : Job
queued_job = record { frame = frame_one; future = 1 }

abbrev predicting_service : Service
predicting_service = record (new_service 4 0) {
  queue = queued_job ∷ [];
  task = predicting (job ∷ []);
  next_future = 2;
}

finish-Answered_example :
    Answered
      (9 / max (length (job ∷ [])) 1)
      predicting_service.futures
      (finish 9 (results ((flame ∷ []) ∷ [])) predicting_service).futures
      (job ∷ [])
      ((flame ∷ []) ∷ [])
    × ((i : ℕ) (v : Outcome)
        → lookup i predicting_service.futures ≡ some v
        → lookup i (finish 9 (results ((flame ∷ []) ∷ [])) predicting_service).futures ≡ some v)
finish-Answered_example =
    finish-Answered 9 0 (job ∷ []) ((flame ∷ []) ∷ []) predicting_service refl (omega arith, tt)

abbrev collecting_service : Service
collecting_service = record predicting_service { task = collecting (job ∷ []) }
