-- ===== src/Ingest/Worker.antt =====
-- firemex/ingest/worker.py: `CameraWorker`. Its decode thread and the two tasks of the event loop are
-- steps on one state, where the watchdog's look and its writes are one step; the callbacks that the thread has handed to the loop are a list of it. Times are in
-- ticks of one monotonic clock, `interval` is `1.0 / sample_fps` in ticks. The decode loop tests `_stop`
-- and `_reset` before it reads, and a read that has begun goes on: which step comes next is left open.
use fireme_x.Base.{
  true, true, true, true, true, true, ℕ, suc, ◌+◌, ◌-◌, ◌*◌, min, Bool, true, false, not, ◌&&◌,
  Option, none, some, List, [], ◌∷◌, ◌++◌, ltb, leb, if◌then◌else◌, length,
}
use fireme_x.Base.Deque.{pop_left}
use fireme_x.Detect.Frames.{Frame}
use fireme_x.Ingest.RingBuffer.{Image, FrameRingBuffer, push}
use fireme_x.Ingest.State.{CameraWorker, Error, stalled_for, second, queue_size, record_failure}
pub mod Order
pub mod Account
pub mod Watchdog
pub mod Backoff

-- a failed `source.open()`
unfoldable pub connect_failed : Error → CameraWorker → CameraWorker
connect_failed error w = record (record_failure error w) {
  backoff = min (w.backoff * 2) w.max_backoff;
}

-- `_mark_connected` and the start of `_read_until_error`
unfoldable pub connect : ℕ → CameraWorker → CameraWorker
connect now w = record w {
  connected = true;
  last_error = none;
  last_frame = some now;
  backoff = second;
  reset = false;
  next_sample = 0;
  window_start = now;
  window_count = 0;
}

-- the stream ended: with an error, or by `_reset` or `_stop` without one
unfoldable pub disconnect : Option Error → CameraWorker → CameraWorker
disconnect none w = record w { connected = false }
disconnect (some error) w = record (record_failure error w) { connected = false }

-- a decoded frame is counted and buffered
abbrev pub decoded : ℕ → Image → CameraWorker → CameraWorker
unfolding push
decoded now image w = record w {
  frames_decoded = suc w.frames_decoded;
  last_frame = some now;
  buffer = push now image w.buffer;
}

-- the rate over the last window of five seconds
abbrev pub measure : ℕ → CameraWorker → CameraWorker
measure now w =
    let over = leb (w.window_start + 5 * second) now in
    record w {
      observed_fps = if over then some (w.window_count, now - w.window_start) else w.observed_fps;
      window_start = if over then now else w.window_start;
      window_count = if over then 0 else w.window_count;
    }

-- a frame taken for the detector, and offered to the event loop
abbrev pub sample : ℕ → ℕ → Bool → CameraWorker → CameraWorker
sample now wall night w =
    let w₁ : CameraWorker = measure now (record w {
      next_sample = now + w.interval;
      frames_sampled = suc w.frames_sampled;
      window_count = suc w.window_count;
    }) in
    let frame : Frame = record {
      camera_id = w₁.camera_id;
      monotonic_ts = now;
      wall_ts = wall;
      is_night = night;
      sequence = suc w₁.sequence;
    } in
    record w₁ { sequence = suc w₁.sequence; callbacks = w₁.callbacks ++ frame ∷ [] }

-- one turn of the loop of `_read_until_error`, given what `source.read()` returned
unfoldable pub read : ℕ → ℕ → Bool → Option Image → CameraWorker → CameraWorker
read now wall night none w = w
read now wall night (some image) w =
    let w' : CameraWorker = decoded now image w in
    if ltb now w'.next_sample then w' else sample now wall night w'

-- `queue.full()`
abbrev pub full : List Frame → Bool
full q = leb queue_size (length q)

-- `put_nowait`, with QueueFull suppressed
abbrev pub put : Frame → CameraWorker → CameraWorker
put frame w = if full w.queue then w else record w { queue = w.queue ++ frame ∷ [] }

-- `_enqueue`
unfoldable pub enqueue : Frame → CameraWorker → CameraWorker
enqueue frame w = put frame (
    if full w.queue
    then record w { queue = pop_left w.queue; frames_dropped = suc w.frames_dropped }
    else w)

-- the event loop runs the oldest of the callbacks
run_callback : List Frame → CameraWorker → CameraWorker
unfolding enqueue
run_callback [] w = w
run_callback (frame ∷ rest) w = enqueue frame (record w { callbacks = rest })

unfoldable pub deliver : CameraWorker → CameraWorker
unfolding run_callback
deliver w = run_callback w.callbacks w

-- what came of a submission: it was answered, it raised QueueFull, it raised another exception, which is
-- logged only, or the task was cancelled in it
pub data Submitted : Type 0 where
  answered queue_full failed cancelled : Submitted

abbrev pub count_full : Submitted → ℕ → ℕ
count_full queue_full n = suc n
count_full _ n = n

-- a CancelledError ends the loop
abbrev pub goes_on : Submitted → Bool
goes_on cancelled = false
goes_on _ = true

-- once round the loop of `_consume`: on an empty queue it waits, where it can be cancelled too. What the
-- result's handler raises is logged and changes nothing here.
consume_queue : Submitted → List Frame → CameraWorker → CameraWorker
consume_queue submitted [] w = record w { consuming = w.consuming && goes_on submitted }
consume_queue submitted (frame ∷ rest) w = record w {
  queue = rest;
  frames_dropped = count_full submitted w.frames_dropped;
  consuming = goes_on submitted;
}

-- the frames that the task can take: none once it has ended
abbrev pub within_reach : CameraWorker → List Frame
within_reach w = if w.consuming then w.queue else []

unfoldable pub consume : Submitted → CameraWorker → CameraWorker
unfolding consume_queue
consume submitted w = consume_queue submitted (within_reach w) w

-- whether `_watchdog` forces a reconnect
abbrev pub is_stalled : ℕ → Bool → ℕ → Option ℕ → Bool
is_stalled now connected timeout none = false
is_stalled now connected timeout (some last) = connected && ltb (last + timeout) now

abbrev pub age_of : ℕ → Option ℕ → ℕ
age_of now none = 0
age_of now (some last) = now - last

-- `_watchdog`, once round its loop
unfoldable pub watch : ℕ → CameraWorker → CameraWorker
watch now w =
    if is_stalled now w.connected w.stall_timeout w.last_frame
    then record w {
      last_error = some (stalled_for (age_of now w.last_frame));
      reset = true;
      last_frame = some now;
    }
    else w

-- the steps of the thread and of the tasks
pub data Step : Type 0 where
  connect_failed_step : Error → Step
  connect_step : ℕ → Step
  disconnect_step : Option Error → Step
  read_step : ℕ → ℕ → Bool → Option Image → Step
  deliver_step : Step
  consume_step : Submitted → Step
  watch_step : ℕ → Step

unfoldable pub step : Step → CameraWorker → CameraWorker
unfolding connect_failed connect disconnect read deliver consume watch
step (connect_failed_step error) w = connect_failed error w
step (connect_step now) w = connect now w
step (disconnect_step error) w = disconnect error w
step (read_step now wall night image) w = read now wall night image w
step deliver_step w = deliver w
step (consume_step submitted) w = consume submitted w
step (watch_step now) w = watch now w
