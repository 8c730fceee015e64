-- ===== src/Ingest/Worker/Watchdog.antt =====
-- firemex/ingest/worker.py: how often the watchdog tears a stream down.
use fireme_x.Base.{
  true, true, true, true, true, true, sym, ℕ, ◌≤◌, ◌≡◌, refl, Bool, true, Option, none, some, List,
  [], ◌∷◌, arith, if◌then◌else◌, Bool-cases, inl, inr,
}
use mathlib.Core.Path.{subst}
use fireme_x.Notify.Cooldown.{Spaced}
use fireme_x.Ingest.RingBuffer.{Image}
use fireme_x.Ingest.State.{CameraWorker}
use fireme_x.Ingest.Worker.{
  Frame, Submitted, Step, step, connect_failed, connect, disconnect, read, decoded, deliver,
  run_callback, enqueue, consume, consume_queue, within_reach, watch, is_stalled,
}

-- the clock of the steps does not run backwards
abbrev pub InOrder : ℕ → List Step → Type 0
InOrder now [] = Unit
InOrder now (Step.connect_step t ∷ ss) = (now ≤ t) × InOrder t ss
InOrder now (Step.read_step t _ _ _ ∷ ss) = (now ≤ t) × InOrder t ss
InOrder now (Step.watch_step t ∷ ss) = (now ≤ t) × InOrder t ss
InOrder now (Step.connect_failed_step _ ∷ ss) = InOrder now ss
InOrder now (Step.disconnect_step _ ∷ ss) = InOrder now ss
InOrder now (Step.deliver_step ∷ ss) = InOrder now ss
InOrder now (Step.consume_step _ ∷ ss) = InOrder now ss

abbrev pub alarm : Step → CameraWorker → List ℕ → List ℕ
alarm (Step.watch_step now) w rest =
    if is_stalled now w.connected w.stall_timeout w.last_frame then now ∷ rest else rest
alarm _ w rest = rest

-- the times at which the watchdog forces a reconnect
abbrev pub alarms : List Step → CameraWorker → List ℕ
alarms [] w = []
alarms (s ∷ ss) w = let rest = alarms ss (step s w) in alarm s w rest

-- the last frame's time, if there is one, is no earlier than the last alarm
abbrev pub NoEarlier : Option ℕ → Option ℕ → Type 0
NoEarlier none last = Unit
NoEarlier (some a) none = ⊥
NoEarlier (some a) (some l) = a ≤ l

NoEarlier-of_le :
    (a : Option ℕ) (now t : ℕ) → NoEarlier a (some now) → now ≤ t → NoEarlier a (some t)
NoEarlier-of_le none now t h k = tt
NoEarlier-of_le (some a) now t h k = omega (arith, h)

Spaced-alarm :
    (a : Option ℕ) (now timeout : ℕ) (connected : Bool) (last : Option ℕ) (ts : List ℕ)
    → NoEarlier a last
    → is_stalled now connected timeout last ≡ true
    → Spaced timeout (some now) ts
    → Spaced timeout a (now ∷ ts)
Spaced-alarm none now timeout connected last ts h e s = s
Spaced-alarm (some a) now timeout connected none ts h e s = absurd h
Spaced-alarm (some a) now timeout connected (some l) ts h e s = (ground arith, s)

read_timing :
    (now wall : ℕ) (night : Bool) (image : Image) (w : CameraWorker)
    → let w' : CameraWorker = read now wall night (some image) w in
      (w'.stall_timeout ≡ w.stall_timeout) × (w'.last_frame ≡ some now)
unfolding read decoded
read_timing now wall night image w = (ground arith, ground arith)

run_callback_timing :
    (fs : List Frame) (w : CameraWorker)
    → let w' : CameraWorker = run_callback fs w in
      (w'.stall_timeout ≡ w.stall_timeout) × (w'.last_frame ≡ w.last_frame)
unfolding run_callback enqueue
run_callback_timing [] w = (refl, refl)
run_callback_timing (f ∷ fs) w = (ground arith, ground arith)

deliver_timing :
    (w : CameraWorker)
    → ((deliver w).stall_timeout ≡ w.stall_timeout) × ((deliver w).last_frame ≡ w.last_frame)
unfolding deliver
deliver_timing w = run_callback_timing w.callbacks w

consume_queue_timing :
    (submitted : Submitted) (fs : List Frame) (w : CameraWorker)
    → let w' : CameraWorker = consume_queue submitted fs w in
      (w'.stall_timeout ≡ w.stall_timeout) × (w'.last_frame ≡ w.last_frame)
unfolding consume_queue
consume_queue_timing submitted [] w = (refl, refl)
consume_queue_timing submitted (f ∷ fs) w = (refl, refl)

consume_timing :
    (submitted : Submitted) (w : CameraWorker)
    → let w' : CameraWorker = consume submitted w in
      (w'.stall_timeout ≡ w.stall_timeout) × (w'.last_frame ≡ w.last_frame)
unfolding consume
consume_timing submitted w = consume_queue_timing submitted (within_reach w) w

alarms-Spaced_from :
    (ss : List Step) (now : ℕ) (a : Option ℕ) (w : CameraWorker)
    → InOrder now ss
    → NoEarlier a (some now)
    → NoEarlier a w.last_frame
    → Spaced w.stall_timeout a (alarms ss w)
unfolding step connect_failed connect disconnect watch read
alarms-Spaced_from [] now a w o n h = tt
alarms-Spaced_from (Step.connect_failed_step error ∷ ss) now a w o n h =
    alarms-Spaced_from ss now a (connect_failed error w) o n h
alarms-Spaced_from (Step.connect_step t ∷ ss) now a w o n h =
    let later = NoEarlier-of_le a now t n o.0 in
    alarms-Spaced_from ss t a (connect t w) o.1 later later
alarms-Spaced_from (Step.disconnect_step none ∷ ss) now a w o n h =
    alarms-Spaced_from ss now a (disconnect none w) o n h
alarms-Spaced_from (Step.disconnect_step (some e) ∷ ss) now a w o n h =
    alarms-Spaced_from ss now a (disconnect (some e) w) o n h
alarms-Spaced_from (Step.read_step t wall night none ∷ ss) now a w o n h =
    alarms-Spaced_from ss t a (read t wall night none w) o.1 (NoEarlier-of_le a now t n o.0) h
alarms-Spaced_from (Step.read_step t wall night (some image) ∷ ss) now a w o n h =
    let later = NoEarlier-of_le a now t n o.0 in
    let same = read_timing t wall night image w in
    subst (λ k. Spaced k a (alarms ss (read t wall night (some image) w))) same.0
      (alarms-Spaced_from ss t a (read t wall night (some image) w) o.1 later
        (subst (NoEarlier a) (sym same.1) later))
alarms-Spaced_from (Step.deliver_step ∷ ss) now a w o n h =
    let same = deliver_timing w in
    subst (λ k. Spaced k a (alarms ss (deliver w))) same.0
      (alarms-Spaced_from ss now a (deliver w) o n (subst (NoEarlier a) (sym same.1) h))
alarms-Spaced_from (Step.consume_step submitted ∷ ss) now a w o n h =
    let same = consume_timing submitted w in
    subst (λ k. Spaced k a (alarms ss (consume submitted w))) same.0
      (alarms-Spaced_from ss now a (consume submitted w) o n (subst (NoEarlier a) (sym same.1) h))
alarms-Spaced_from (Step.watch_step t ∷ ss) now a w o n h =
    elim (Bool-cases (is_stalled t w.connected w.stall_timeout w.last_frame)) [
      | inl stalled ↦ rw stalled (
          Spaced-alarm a t w.stall_timeout w.connected w.last_frame _ h stalled
            (alarms-Spaced_from ss t (some t) _ o.1 (omega arith) (omega arith)))
      | inr moving ↦ rw moving (alarms-Spaced_from ss t a w o.1 (NoEarlier-of_le a now t n o.0) h)
    ]

-- However the steps of a worker interleave, while their clock does not run backwards, the watchdog forces
-- two reconnects at least the stall timeout apart.
pub alarms-Spaced_worker :
    (ss : List Step) (now : ℕ) (w : CameraWorker)
    → InOrder now ss
    → Spaced w.stall_timeout none (alarms ss w)
alarms-Spaced_worker ss now w o = alarms-Spaced_from ss now none w o tt tt
