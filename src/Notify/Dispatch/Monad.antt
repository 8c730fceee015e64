-- ===== src/Notify/Dispatch/Monad.antt =====
-- firemex/notify/dispatcher.py: a coroutine of the dispatcher. It returns, is cancelled at an await, or
-- raises an exception; the world comes back in each case.
use fireme_x.Base.{ℕ, suc, Option, none, some}
use fireme_x.Notify.Dispatch.Types.{
  World, Env, Wake, resume, cancel, RunStatus, DispatchRun, reason, apply_actions,
}

pub data Result (A : Type 0) : Type 0 where
  ok : A → Result A
  stopped : Result A
  raised : Result A

abbrev pub Async : Type 0 → Type 0
Async A = World → Result A × World

module _ {A B : Type 0} where
  abbrev pub bind_result : Result A × World → (A → Async B) → Result B × World
  bind_result (ok a, w) f = f a w
  bind_result (stopped, w) f = (stopped, w)
  bind_result (raised, w) f = (raised, w)

infixl 5 ◌>>=◌ ◌>>◌
abbrev pub ◌>>=◌ : {A B : Type 0} → Async A → (A → Async B) → Async B
◌>>=◌ m f w = bind_result (m w) f

abbrev pub ◌>>◌ : {A B : Type 0} → Async A → Async B → Async B
m >> k = m >>= λ _. k

abbrev pub pure : {A : Type 0} → A → Async A
pure a w = (ok a, w)

abbrev pub gets : {A : Type 0} → (World → A) → Async A
gets f w = (ok (f w), w)

abbrev pub modify : (World → World) → Async (Unit {0})
modify f w = (ok tt, f w)

abbrev pub modify_run : (DispatchRun → DispatchRun) → Async (Unit {0})
modify_run f w = (ok tt, record w { run = f w.run })

-- `cancel` by the operator marks the run before the task sees the cancellation
abbrev pub mark_cancelled : Option ℕ → ℕ → World → World
mark_cancelled none now w = w
mark_cancelled (some why) now w = record w {
  run = record (w.run) {
    status = RunStatus.cancelled;
    detail = some (reason why);
    finished_wall = some now;
  };
}

abbrev pub wake : ℕ → Wake → Async (Unit {0})
wake now (resume actions) w = (ok tt, apply_actions actions w)
wake now (cancel actions why) w = (stopped, mark_cancelled why now (apply_actions actions w))

-- an `await` at which other tasks run
unfoldable pub pause : Env → Async (Unit {0})
pause env w = wake (env.clock w.tick) (env.script w.tick) (record w { tick = suc w.tick })

-- a postcondition of a coroutine's outcome: Q of a result, R of the world at a cancellation or exception
abbrev pub Ensures :
    {A : Type 0} → (A → World → Type 0) → (World → Type 0) → Result A × World → Type 0
Ensures Q R (ok a, w) = Q a w
Ensures Q R (stopped, w) = R w
Ensures Q R (raised, w) = R w

module _ {A B : Type 0} (Q : A → World → Type 0) (S : B → World → Type 0) (R : World → Type 0) where
  pub bind-Ensures :
      (o : Result A × World) (f : A → Async B)
      → Ensures Q R o
      → ((a : A) (w : World) → Q a w → Ensures S R (f a w))
      → Ensures S R (bind_result o f)
  bind-Ensures (ok a, w) f h k = k a w h
  bind-Ensures (stopped, w) f h k = h
  bind-Ensures (raised, w) f h k = h

pub Ensures-mono :
    {A : Type 0} (Q Q' : A → World → Type 0) (R R' : World → Type 0) (o : Result A × World)
    → Ensures Q R o
    → ((a : A) (w : World) → Q a w → Q' a w)
    → ((w : World) → R w → R' w)
    → Ensures Q' R' o
Ensures-mono Q Q' R R' (ok a, w) h f g = f a w h
Ensures-mono Q Q' R R' (stopped, w) h f g = g w h
Ensures-mono Q Q' R R' (raised, w) h f g = g w h
