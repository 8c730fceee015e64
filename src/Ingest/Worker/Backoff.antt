-- ===== src/Ingest/Worker/Backoff.antt =====
-- firemex/ingest/worker.py: the delay between attempts to connect.
use fireme_x.Base.{◌∙◌, ap, ℕ, zero, suc, ◌+◌, ◌*◌, ◌≤◌, ◌≡◌, refl, min, arith}
use Prim.Native.Nat.{◌^◌}
use fireme_x.Ingest.State.{CameraWorker, Error, second}
use fireme_x.Ingest.Worker.{connect_failed, connect}

-- a number of failed attempts in a row
abbrev pub fail_times : ℕ → Error → CameraWorker → CameraWorker
fail_times zero error w = w
fail_times (suc k) error w = connect_failed error (fail_times k error w)

doubled : (p m : ℕ) → min (min p m * 2) m ≡ min (p * 2) m
doubled p m = omega arith

fail_times-max :
    (k : ℕ) (error : Error) (w : CameraWorker) → (fail_times k error w).max_backoff ≡ w.max_backoff
unfolding connect_failed
fail_times-max zero error w = refl
fail_times-max (suc k) error w = fail_times-max k error w

-- From a worker that has just connected, k attempts in a row that fail leave a delay of 2 to the k
-- seconds, but never more than the largest one, and count k reconnects.
pub fail_times_lem :
    (k now : ℕ) (error : Error) (w : CameraWorker)
    → second ≤ w.max_backoff
    → let w' : CameraWorker = fail_times k error (connect now w) in
      (w'.backoff ≡ min (second * 2 ^ k) w.max_backoff) × (w'.reconnects ≡ w.reconnects + k)
unfolding connect_failed connect
fail_times_lem zero now error w h = (omega arith, omega arith)
fail_times_lem (suc k) now error w h =
    let ih = fail_times_lem k now error w h in
    (
      rw (ih.0, fail_times-max k error (connect now w))
          (doubled (second * 2 ^ k) w.max_backoff ∙ ap (λ p. min p w.max_backoff) (omega arith)),
      omega (arith, ih.1),
    )
