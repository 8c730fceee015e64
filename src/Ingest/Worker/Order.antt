-- ===== src/Ingest/Worker/Order.antt =====
-- firemex/ingest/worker.py: the frames that reach the detector, and those that do not.
use fireme_x.Base.{
  true, true, true, true, true, true, ℕ, suc, ◌≤◌, ◌<◌, ◌≡◌, refl, Bool, true, false, Option, none,
  some, List, [], ◌∷◌, ◌++◌, arith, ltb, if◌then◌else◌, length, length-append, Bool-cases, inl, inr,
}
use fireme_x.Base.Deque.{length-pop_left}
use fireme_x.Detect.Frames.{Frame}
use fireme_x.Ingest.RingBuffer.{Image, FrameRingBuffer}
use fireme_x.Ingest.State.{CameraWorker, new_worker}
use fireme_x.Ingest.Worker.{
  is_stalled, decoded, pop_left, Step, Submitted, step, connect_failed, connect, disconnect, read,
  deliver, run_callback, enqueue, consume, consume_queue, within_reach, watch, full,
}

abbrev pub run_steps : List Step → CameraWorker → CameraWorker
run_steps [] w = w
run_steps (s ∷ ss) w = run_steps ss (step s w)

-- the frame that a step takes to the submitter, before a list
abbrev pub taken : Step → List Frame → List Frame → List Frame
taken (Step.consume_step _) (f ∷ _) fs = f ∷ fs
taken _ _ fs = fs

-- the frames that the steps take to the submitter
abbrev pub submitted : List Step → CameraWorker → List Frame
submitted [] w = []
submitted (s ∷ ss) w = taken s (within_reach w) (submitted ss (step s w))

-- the sequence numbers rise strictly, above the first bound and up to the second
abbrev pub RisingTo : ℕ → ℕ → List Frame → Type 0
RisingTo lo hi [] = lo ≤ hi
RisingTo lo hi (f ∷ fs) = (lo < f.sequence) × RisingTo f.sequence hi fs

RisingTo-snoc :
    (lo hi : ℕ) (fs : List Frame) (f : Frame)
    → RisingTo lo hi fs
    → hi < f.sequence
    → RisingTo lo f.sequence (fs ++ f ∷ [])
RisingTo-snoc lo hi [] f h k = (omega arith, omega arith)
RisingTo-snoc lo hi (g ∷ fs) f h k = (h.0, RisingTo-snoc g.sequence hi fs f h.1 k)

RisingTo-weaken :
    (lo lo' hi : ℕ) (fs : List Frame) → lo ≤ lo' → RisingTo lo' hi fs → RisingTo lo hi fs
RisingTo-weaken lo lo' hi [] h k = omega arith
RisingTo-weaken lo lo' hi (f ∷ fs) h k = (omega (arith, k.0), k.1)

RisingTo-le : (lo hi : ℕ) (fs : List Frame) → RisingTo lo hi fs → lo ≤ hi
RisingTo-le lo hi [] h = h
RisingTo-le lo hi (f ∷ fs) h = omega (arith, h.0, RisingTo-le f.sequence hi fs h.1)

-- the queue and after it the callbacks rise above what was submitted before
pub record IsOrdered (lo : ℕ) (w : CameraWorker) : Type 0 where
  pub mid : ℕ
  pub queued : RisingTo lo mid w.queue
  pub offered : RisingTo mid w.sequence w.callbacks
  pub capped : length w.queue ≤ 2

-- what the next submitted frame lies above, after a step
abbrev pub bound_after : Step → List Frame → ℕ → ℕ
bound_after (Step.consume_step _) (f ∷ _) lo = f.sequence
bound_after _ _ lo = lo

same-IsOrdered :
    (lo : ℕ) (w w' : CameraWorker)
    → IsOrdered lo w
    → w'.queue ≡ w.queue
    → w'.callbacks ≡ w.callbacks
    → w'.sequence ≡ w.sequence
    → IsOrdered lo w'
same-IsOrdered lo w w' h q c n = record {
  mid = h.mid;
  queued = rw q h.queued;
  offered = rw (c, n) h.offered;
  capped = rw q h.capped;
}

read-IsOrdered :
    (now wall : ℕ) (night : Bool) (image : Option Image) (lo : ℕ) (w : CameraWorker)
    → IsOrdered lo w
    → IsOrdered lo (read now wall night image w)
unfolding read decoded
read-IsOrdered now wall night none lo w h = h
read-IsOrdered now wall night (some image) lo w h = elim (Bool-cases (ltb now w.next_sample)) [
  | inl early ↦ rw early (same-IsOrdered lo w (decoded now image w) h refl refl refl)
  | inr due ↦ rw due (record {
    mid = h.mid;
    queued = h.queued;
    offered = RisingTo-snoc h.mid w.sequence w.callbacks _ h.offered (omega arith);
    capped = h.capped;
  })
]

-- the queue with room for one more
abbrev pub trimmed : List Frame → List Frame
trimmed q = if full q then pop_left q else q

-- a queue that keeps to its size has room once its oldest frame is dropped
pub enqueue_lem :
    (f : Frame) (w : CameraWorker)
    → length w.queue ≤ 2
    → enqueue f w ≡ record w {
      queue = trimmed w.queue ++ f ∷ [];
      frames_dropped = if full w.queue then suc w.frames_dropped else w.frames_dropped;
    }
unfolding enqueue
enqueue_lem f w h = elim (Bool-cases (full w.queue)) [
  | inl over ↦
      let room : full (pop_left w.queue) ≡ false = ground (arith, length-pop_left w.queue) in
      rw over (rw room refl)
  | inr room ↦ rw room (rw room refl)
]

RisingTo-trimmed : (lo hi : ℕ) (q : List Frame) → RisingTo lo hi q → RisingTo lo hi (trimmed q)
RisingTo-trimmed lo hi [] h = h
RisingTo-trimmed lo hi (f ∷ q) h = elim (Bool-cases (full (f ∷ q))) [
  | inl over ↦ rw over (RisingTo-weaken lo f.sequence hi q (omega (arith, h.0)) h.1)
  | inr room ↦ rw room h
]

length-trimmed : (q : List Frame) → length q ≤ 2 → length (trimmed q) ≤ 1
length-trimmed q h = ground (arith, length-pop_left q)

run_callback-IsOrdered :
    (fs : List Frame) (lo : ℕ) (w : CameraWorker)
    → w.callbacks ≡ fs
    → IsOrdered lo w
    → IsOrdered lo (run_callback fs w)
unfolding run_callback
run_callback-IsOrdered [] lo w e h = h
run_callback-IsOrdered (f ∷ fs) lo w e h =
    let offered : RisingTo h.mid w.sequence (f ∷ fs) = rw e at h.offered in
    rw (enqueue_lem f (record w { callbacks = fs }) h.capped) (record {
      mid = f.sequence;
      queued =
          RisingTo-snoc lo h.mid (trimmed w.queue) f (RisingTo-trimmed lo h.mid w.queue h.queued)
            offered.0;
      offered = offered.1;
      capped =
          omega (arith, length-append (trimmed w.queue) (f ∷ []), length-trimmed w.queue h.capped);
    })

deliver-IsOrdered : (lo : ℕ) (w : CameraWorker) → IsOrdered lo w → IsOrdered lo (deliver w)
unfolding deliver
deliver-IsOrdered lo w h = run_callback-IsOrdered w.callbacks lo w refl h

-- what the task can take stands in the queue
pub within_reach-queue :
    (w : CameraWorker) (f : Frame) (q : List Frame) → within_reach w ≡ f ∷ q → w.queue ≡ f ∷ q
within_reach-queue w f q e = elim (Bool-cases w.consuming) [
  | inl goes ↦ ground arith
  | inr ended ↦ absurd (cc (rw ended at e))
]

RisingTo-within_reach :
    (lo hi : ℕ) (w : CameraWorker) → RisingTo lo hi w.queue → RisingTo lo hi (within_reach w)
RisingTo-within_reach lo hi w h = pick w.consuming w.queue h
  where
    pick : (b : Bool) (q : List Frame) → RisingTo lo hi q → RisingTo lo hi (if b then q else [])
    pick true q h = h
    pick false q h = RisingTo-le lo hi q h

consume_queue-IsOrdered :
    (submitted : Submitted) (q : List Frame) (lo : ℕ) (w : CameraWorker)
    → ((f : Frame) (r : List Frame) → q ≡ f ∷ r → w.queue ≡ f ∷ r)
    → IsOrdered lo w
    → IsOrdered (bound_after (Step.consume_step submitted) q lo) (consume_queue submitted q w)
unfolding consume_queue
consume_queue-IsOrdered submitted [] lo w e h = same-IsOrdered lo w _ h refl refl refl
consume_queue-IsOrdered submitted (f ∷ q) lo w e h =
    let queued : RisingTo lo h.mid (f ∷ q) = rw (e f q refl) at h.queued in
    let capped : length (f ∷ q) ≤ 2 = rw (e f q refl) at h.capped in
    record { mid = h.mid; queued = queued.1; offered = h.offered; capped = omega (arith, capped) }

pub step-IsOrdered :
    (s : Step) (lo : ℕ) (w : CameraWorker)
    → IsOrdered lo w
    → IsOrdered (bound_after s (within_reach w) lo) (step s w)
unfolding step connect_failed connect disconnect consume watch
step-IsOrdered (Step.connect_failed_step error) lo w h = same-IsOrdered lo w _ h refl refl refl
step-IsOrdered (Step.connect_step now) lo w h = same-IsOrdered lo w _ h refl refl refl
step-IsOrdered (Step.disconnect_step none) lo w h = same-IsOrdered lo w _ h refl refl refl
step-IsOrdered (Step.disconnect_step (some e)) lo w h = same-IsOrdered lo w _ h refl refl refl
step-IsOrdered (Step.read_step now wall night image) lo w h =
    read-IsOrdered now wall night image lo w h
step-IsOrdered Step.deliver_step lo w h = deliver-IsOrdered lo w h
step-IsOrdered (Step.consume_step submitted) lo w h =
    consume_queue-IsOrdered submitted (within_reach w) lo w (within_reach-queue w) h
step-IsOrdered (Step.watch_step now) lo w h =
    elim (Bool-cases (is_stalled now w.connected w.stall_timeout w.last_frame)) [
      | inl stalled ↦ rw stalled (same-IsOrdered lo w _ h refl refl refl)
      | inr moving ↦ rw moving h
    ]

-- the sequence numbers rise strictly, above the bound
abbrev pub Rising : ℕ → List Frame → Type 0
Rising lo [] = Unit
Rising lo (f ∷ fs) = (lo < f.sequence) × Rising f.sequence fs

taken-Rising :
    (s : Step) (q : List Frame) (lo hi : ℕ) (fs : List Frame)
    → RisingTo lo hi q
    → Rising (bound_after s q lo) fs
    → Rising lo (taken s q fs)
taken-Rising (Step.consume_step _) (f ∷ q) lo hi fs h k = (h.0, k)
taken-Rising (Step.consume_step _) [] lo hi fs h k = k
taken-Rising (Step.connect_failed_step _) q lo hi fs h k = k
taken-Rising (Step.connect_step _) q lo hi fs h k = k
taken-Rising (Step.disconnect_step _) q lo hi fs h k = k
taken-Rising (Step.read_step _ _ _ _) q lo hi fs h k = k
taken-Rising Step.deliver_step q lo hi fs h k = k
taken-Rising (Step.watch_step _) q lo hi fs h k = k

submitted-Rising_from :
    (ss : List Step) (lo : ℕ) (w : CameraWorker) → IsOrdered lo w → Rising lo (submitted ss w)
submitted-Rising_from [] lo w h = tt
submitted-Rising_from (s ∷ ss) lo w h =
    taken-Rising s (within_reach w) lo h.mid (submitted ss (step s w))
      (RisingTo-within_reach lo h.mid w h.queued)
      (submitted-Rising_from ss (bound_after s (within_reach w) lo) (step s w)
        (step-IsOrdered s lo w h))

pub new_worker-IsOrdered :
    (camera interval stall max_backoff : ℕ) (buffer : FrameRingBuffer)
    → IsOrdered 0 (new_worker camera interval stall max_backoff buffer)
new_worker-IsOrdered camera interval stall max_backoff buffer = record {
  mid = 0;
  queued = omega arith;
  offered = omega arith;
  capped = omega arith;
}

-- However the decode thread, the callbacks, the consumer and the watchdog of a new worker interleave, the
-- frames that reach the detector carry strictly rising sequence numbers: none is repeated and none
-- overtakes another.
pub submitted-Rising :
    (ss : List Step) (camera interval stall max_backoff : ℕ) (buffer : FrameRingBuffer)
    → Rising 0 (submitted ss (new_worker camera interval stall max_backoff buffer))
submitted-Rising ss camera interval stall max_backoff buffer =
    submitted-Rising_from ss 0 (new_worker camera interval stall max_backoff buffer)
      (new_worker-IsOrdered camera interval stall max_backoff buffer)
