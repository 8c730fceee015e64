-- ===== src/Notify/Dispatch/Escalation/Shadow.antt =====
-- firemex/notify/dispatcher.py: shadow mode, and a dispatcher with no voice channel.
use fireme_x.Base.{ℕ, ◌≡◌, refl, ◌∙◌, true, Option, some, List, if◌then◌else◌, Bool-cases, inl, inr}
use fireme_x.Config.Types.{Channel}
use fireme_x.Notify.Dispatch.Types.{Env, Dispatcher, World, RunStatus, Detail, no_calls_placed}
use fireme_x.Notify.Dispatch.Monad.{
  Result, ok, stopped, raised, pause, pure, Ensures, bind_result, bind-Ensures, Ensures-mono,
}
use fireme_x.Notify.Dispatch.Escalation.{
  live, finish, execute, run, handle, cancelled_world, failed_world,
}
use fireme_x.Notify.Dispatch.Escalation.Calls.{pause-placed}

world_placed :
    (n : List (Channel × ℕ)) (o : Result (Unit {0}) × World)
    → Ensures (λ _ w'. w'.placed ≡ n) (λ w'. w'.placed ≡ n) o
    → o.1.placed ≡ n
world_placed n (ok u, w) h = h
world_placed n (stopped, w) h = h
world_placed n (raised, w) h = h

module _ (env : Env) (d : Dispatcher) (i camera : ℕ) where
  finish_placed :
      (status : RunStatus) (detail : Option Detail) (w : World)
      → Ensures
          (λ _ w'. w'.placed ≡ w.placed)
          (λ w'. w'.placed ≡ w.placed)
          (finish env d i status detail w)
  unfolding finish
  finish_placed status detail w = pause-placed env _

  first_pause :
      (w : World)
      → Ensures
          (λ _ w'. w'.placed ≡ w.placed)
          (λ w'. w'.placed ≡ w.placed)
          ((if d.has_webhook then pause env else pure tt) w)
  first_pause w = elim (Bool-cases d.has_webhook) [
    | inl hook ↦ simp hook (pause-placed env w)
    | inr no_hook ↦ simp no_hook refl
  ]

  execute_shadow :
      (w : World)
      → d.shadow_mode ≡ true
      → Ensures
          (λ _ w'. w'.placed ≡ w.placed)
          (λ w'. w'.placed ≡ w.placed)
          (execute env d i camera w)
  unfolding execute
  execute_shadow w shadow =
      bind-Ensures (λ _ w'. w'.placed ≡ w.placed) (λ _ w'. w'.placed ≡ w.placed)
        (λ w'. w'.placed ≡ w.placed) ((if d.has_webhook then pause env else pure tt) w)
        (λ _.
          if d.shadow_mode
          then finish env d i RunStatus.shadow (some no_calls_placed)
          else live env d i camera)
        (first_pause w)
        (λ _ w1 p. simp shadow (
          Ensures-mono _ _ _ _ (finish env d i RunStatus.shadow (some no_calls_placed) w1)
            (finish_placed RunStatus.shadow (some no_calls_placed) w1) (λ _ w2 q. q ∙ p)
            (λ w2 q. q ∙ p)))

  handle_placed :
      (n : List (Channel × ℕ)) (o : Result (Unit {0}) × World)
      → Ensures (λ _ w'. w'.placed ≡ n) (λ w'. w'.placed ≡ n) o
      → (handle env d i o).1.placed ≡ n
  unfolding handle
  handle_placed n (ok u, w) h = h
  handle_placed n (stopped, w) h =
      world_placed n (bind_result (pause env (cancelled_world env w)) (λ _ w2. (stopped, w2))) (
        bind-Ensures (λ _ w'. w'.placed ≡ n) (λ _ w'. w'.placed ≡ n) (λ w'. w'.placed ≡ n)
          (pause env (cancelled_world env w)) (λ _ w2. (stopped, w2))
          (Ensures-mono _ _ _ _ (pause env (cancelled_world env w))
            (pause-placed env (cancelled_world env w)) (λ _ w2 q. q ∙ h) (λ w2 q. q ∙ h))
          (λ _ w2 q. q))
  handle_placed n (raised, w) h = world_placed n (pause env (failed_world env w)) (
      Ensures-mono _ _ _ _ (pause env (failed_world env w)) (pause-placed env (failed_world env w))
        (λ _ w2 q. q ∙ h) (λ w2 q. q ∙ h))

-- In shadow mode an escalation run uses no channel, whatever the environment does and however the run
-- ends.
pub run_shadow :
    (env : Env) (d : Dispatcher) (i camera : ℕ) (w : World)
    → d.shadow_mode ≡ true
    → (run env d i camera w).1.placed ≡ w.placed
unfolding run
run_shadow env d i camera w shadow =
    handle_placed env d i camera w.placed _ (execute_shadow env d i camera _ shadow)
