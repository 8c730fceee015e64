-- ===== src/Ingest/State.antt =====
-- firemex/ingest/worker.py: the state of a `CameraWorker`, as `__init__` makes it.
use fireme_x.Base.{ℕ, suc, Bool, true, false, Option, none, some, List, []}
use fireme_x.Detect.Frames.{Frame}
use fireme_x.Ingest.RingBuffer.{FrameRingBuffer}

-- ticks of a second
abbrev pub second : ℕ
second = 1000

abbrev pub queue_size : ℕ
queue_size = 2

-- why a worker is down: the text of an exception, or the age of the last frame at a stall
pub data Error : Type 0 where
  failure : ℕ → Error
  stalled_for : ℕ → Error

pub record CameraWorker : Type 0 where
  pub camera_id : ℕ
  pub interval : ℕ
  pub stall_timeout : ℕ
  pub max_backoff : ℕ
  pub buffer : FrameRingBuffer
  pub connected : Bool
  pub reconnects : ℕ
  pub frames_decoded : ℕ
  pub frames_sampled : ℕ
  pub frames_dropped : ℕ
  pub last_frame : Option ℕ
  pub last_error : Option Error
  -- the frames of the last window and its length, once there is one
  pub observed_fps : Option (ℕ × ℕ)
  pub queue : List Frame
  -- `call_soon_threadsafe(self._enqueue, frame)`, the oldest first
  pub callbacks : List Frame
  -- whether the task of `_consume` goes on
  pub consuming : Bool
  pub reset : Bool
  pub sequence : ℕ
  -- the locals of `_decode_loop` and `_read_until_error`
  pub backoff : ℕ
  pub next_sample : ℕ
  pub window_start : ℕ
  pub window_count : ℕ

-- `CameraWorker(camera, stall_timeout, max_backoff)`, with the buffer's size; its tasks begin with `start`
abbrev pub new_worker : ℕ → ℕ → ℕ → ℕ → FrameRingBuffer → CameraWorker
new_worker camera interval stall_timeout max_backoff buffer = record {
  camera_id = camera;
  interval = interval;
  stall_timeout = stall_timeout;
  max_backoff = max_backoff;
  buffer = buffer;
  connected = false;
  reconnects = 0;
  frames_decoded = 0;
  frames_sampled = 0;
  frames_dropped = 0;
  last_frame = none;
  last_error = none;
  observed_fps = none;
  queue = [];
  callbacks = [];
  consuming = true;
  reset = false;
  sequence = 0;
  backoff = second;
  next_sample = 0;
  window_start = 0;
  window_count = 0;
}

-- `_record_failure`
abbrev pub record_failure : Error → CameraWorker → CameraWorker
record_failure error w = record w {
  connected = false;
  last_error = some error;
  reconnects = suc w.reconnects;
}
