-- ===== src/Notify/Dispatch/Escalation/Budget.antt =====
-- firemex/notify/dispatcher.py: how many calls an escalation places, and on what it ends.
use mathlib.Core.Path.{subst}
use fireme_x.Notify.Dispatch.Escalation.Calls.{
  calls, calls_of, budget, apply_actions-placed, try_contact-Spends,
}
use fireme_x.Base.{◌⊎◌}
use fireme_x.Notify.Dispatch.Types.{RunStatus, Detail, chain_exhausted}
use fireme_x.Notify.Dispatch.Escalation.{finish, finish_acknowledged}
use fireme_x.Base.{
  ◌∙◌, ap, ℕ, ◌+◌, ◌≤◌, ◌≡◌, refl, false, Option, none, some, List, [], ◌∷◌, arith, if◌then◌else◌,
  Bool-cases, inl, inr,
}
use fireme_x.Config.Types.{ContactConfig}
use fireme_x.Notify.Dispatch.Types.{
  forgotten, ack, Env, Dispatcher, World, Action, apply_action, apply_actions, Wake, resume, cancel,
}
use fireme_x.Notify.Dispatch.Monad.{Ensures-mono, Result, pause, Ensures, bind-Ensures, wake}
use fireme_x.Notify.Dispatch.Escalation.{try_contact, chain_loop}

one_status : (a : Action) (w : World) → (apply_action a w).run.status ≡ w.run.status
unfolding apply_action
one_status (ack i c) w = ground arith
one_status (forgotten i) w = refl

-- the status of a run survives what other tasks do while it goes on
apply_actions-status :
    (actions : List Action) (w : World) → (apply_actions actions w).run.status ≡ w.run.status
unfolding apply_actions apply_action
apply_actions-status [] w = refl
apply_actions-status (a ∷ actions) w =
    apply_actions-status actions (apply_action a w) ∙ one_status a w

-- a run that ends acknowledged after at most m calls, exhausted after exactly m, or is cut off after at
-- most m
abbrev pub EndsAt : ℕ → Result (Unit {0}) × World → Type 0
EndsAt m =
    Ensures
      (λ _ w'.
        (calls w'.placed ≤ m)
        × ((w'.run.status ≡ RunStatus.acknowledged)
            ⊎ ((w'.run.status ≡ RunStatus.exhausted) × (calls w'.placed ≡ m))))
      (λ w'. calls w'.placed ≤ m)

module _ (env : Env) (d : Dispatcher) (i : ℕ) where
  wake-Ends :
      (now : ℕ) (e : Wake) (w : World)
      → Ensures
          (λ _ w'. (calls w'.placed ≡ calls w.placed) × (w'.run.status ≡ w.run.status))
          (λ w'. calls w'.placed ≡ calls w.placed)
          (wake now e w)
  wake-Ends now (resume actions) w =
      (ap calls (apply_actions-placed actions w), apply_actions-status actions w)
  wake-Ends now (cancel actions none) w = ap calls (apply_actions-placed actions w)
  wake-Ends now (cancel actions (some why)) w = ap calls (apply_actions-placed actions w)

  finish-Ends :
      (status : RunStatus) (detail : Option Detail) (w : World)
      → Ensures
          (λ _ w'. (calls w'.placed ≡ calls w.placed) × (w'.run.status ≡ status))
          (λ w'. calls w'.placed ≡ calls w.placed)
          (finish env d i status detail w)
  unfolding finish pause
  finish-Ends status detail w = wake-Ends (env.clock w.tick) (env.script w.tick) _

  acknowledged-Ends :
      (c : ContactConfig) (w : World)
      → Ensures
          (λ _ w'. (calls w'.placed ≡ calls w.placed) × (w'.run.status ≡ RunStatus.acknowledged))
          (λ w'. calls w'.placed ≡ calls w.placed)
          (finish_acknowledged env d i c w)
  unfolding finish_acknowledged
  acknowledged-Ends c w = finish-Ends RunStatus.acknowledged none _

  chain_loop-Ends :
      (cs : List ContactConfig) (n : ℕ) (w : World)
      → calls w.placed ≡ n
      → EndsAt (n + budget d cs) (chain_loop env d i cs w)
  unfolding chain_loop
  chain_loop-Ends [] n w e =
      Ensures-mono _ _ _ _ (finish env d i RunStatus.exhausted (some chain_exhausted) w)
        (finish-Ends RunStatus.exhausted (some chain_exhausted) w)
        (λ _ w' p. (omega (arith, p.0), inr (p.1, omega (arith, p.0)))) (λ w' p. omega (arith, p))
  chain_loop-Ends (c ∷ cs) n w e =
      let spent : ℕ = budget d (c ∷ cs) in
      bind-Ensures
        (λ acked w'.
          (calls w'.placed ≤ n + calls_of d c)
          × (acked ≡ false → calls w'.placed ≡ n + calls_of d c))
        (λ _ w'.
          (calls w'.placed ≤ n + spent)
          × ((w'.run.status ≡ RunStatus.acknowledged)
              ⊎ ((w'.run.status ≡ RunStatus.exhausted) × (calls w'.placed ≡ n + spent))))
        (λ w'. calls w'.placed ≤ n + spent) (try_contact env d i c w)
        (λ acked. if acked then finish_acknowledged env d i c else chain_loop env d i cs)
        (Ensures-mono _ _ _ _ (try_contact env d i c w) (try_contact-Spends env d i c n w e)
          (λ acked w' p. p) (λ w' p. omega (arith, p)))
        (λ acked w' p. elim (Bool-cases acked) [
          | inl heard ↦ rw heard (
              Ensures-mono _ _ _ _ (finish_acknowledged env d i c w') (acknowledged-Ends c w')
                (λ _ w2 q. (omega (arith, q.0, p.0), inl q.1)) (λ w2 q. omega (arith, q, p.0)))
          | inr silent ↦ rw silent (
              let exact : calls w'.placed ≡ n + calls_of d c = p.1 silent in
              let all : n + calls_of d c + budget d cs ≡ n + spent = omega arith in
              subst (λ k. EndsAt k (chain_loop env d i cs w')) all
                (chain_loop-Ends cs (n + calls_of d c) w' exact))
        ])

-- The calls over a chain of contacts, whoever acknowledges and whatever the providers answer, end
-- acknowledged after at most as many calls as the chain allows (one for each contact's attempts, where the
-- contact takes calls and there is a call channel), or exhausted after exactly so many, or are cut off, by
-- a cancellation or an exception, after at most so many.
pub chain_loop-budget :
    (env : Env) (d : Dispatcher) (i : ℕ) (cs : List ContactConfig) (w : World)
    → EndsAt (calls w.placed + budget d cs) (chain_loop env d i cs w)
chain_loop-budget env d i cs w = chain_loop-Ends env d i cs (calls w.placed) w refl
