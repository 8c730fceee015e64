-- ===== src/Notify/Dispatch/Escalation/Calls.antt =====
-- firemex/notify/dispatcher.py: how many calls each step of an escalation places.
use mathlib.Core.Path.{subst}
use fireme_x.Base.{◌&&◌}
use fireme_x.Notify.Dispatch.Monad.{◌>>=◌}
use fireme_x.Base.{
  ◌∙◌, ap, ℕ, zero, suc, ◌+◌, ◌≤◌, ◌≡◌, refl, Bool, true, false, Option, none, some, List, [], ◌∷◌,
  arith, if◌then◌else◌, Bool-cases, inl, inr,
}
use fireme_x.Config.Types.{Channel, ContactConfig}
use fireme_x.Notify.Acks.{is_set, event_of, is_acknowledged}
use fireme_x.Notify.Dispatch.Types.{
  forgotten, ack, AlertResult, is_failed, Env, Dispatcher, World, Action, apply_action,
  apply_actions, Wake, resume, cancel,
}
use fireme_x.Notify.Dispatch.Monad.{
  Ensures-mono, Result, ok, Async, pause, Ensures, bind-Ensures, wake,
}
use fireme_x.Notify.Dispatch.Escalation.{
  texts, call_contact, or_raise, takes_calls, send_on, record_attempt, wait, wait_on, call_loop,
  try_contact, text_first, after_call,
}

-- the calls among the uses of a channel
abbrev pub calls : List (Channel × ℕ) → ℕ
calls [] = 0
calls ((Channel.call, _) ∷ ps) = suc (calls ps)
calls ((Channel.sms, _) ∷ ps) = calls ps

pub apply_actions-placed : (as' : List Action) (w : World) → (apply_actions as' w).placed ≡ w.placed
unfolding apply_actions apply_action
apply_actions-placed [] w = refl
apply_actions-placed (ack i c ∷ as') w = apply_actions-placed as' (apply_action (ack i c) w)
apply_actions-placed (forgotten i ∷ as') w = apply_actions-placed as' (apply_action (forgotten i) w)

module _ (env : Env) where
  pub wake-placed :
      (now : ℕ) (e : Wake) (w : World)
      → Ensures (λ _ w'. w'.placed ≡ w.placed) (λ w'. w'.placed ≡ w.placed) (wake now e w)
  wake-placed now (resume actions) w = apply_actions-placed actions w
  wake-placed now (cancel actions none) w = apply_actions-placed actions w
  wake-placed now (cancel actions (some why)) w = apply_actions-placed actions w

  pub pause-placed :
      (w : World)
      → Ensures (λ _ w'. w'.placed ≡ w.placed) (λ w'. w'.placed ≡ w.placed) (pause env w)
  unfolding pause
  pause-placed w =
      wake-placed (env.clock w.tick) (env.script w.tick) (record w { tick = suc w.tick })

-- a coroutine that ends with k more calls placed, however it ends
abbrev pub Places : {A : Type 0} → ℕ → Result A × World → Type 0
Places n = Ensures (λ _ w. calls w.placed ≡ n) (λ w. calls w.placed ≡ n)

module _ (env : Env) where
  pause-Places : (w : World) → Places (calls w.placed) (pause env w)
  pause-Places w =
      Ensures-mono _ (λ _ w'. calls w'.placed ≡ calls w.placed) _
        (λ w'. calls w'.placed ≡ calls w.placed) (pause env w) (pause-placed env w)
        (λ _ w' e. ap calls e) (λ w' e. ap calls e)

  record_attempt-Places :
      (d : Dispatcher) (i : ℕ) (r : AlertResult) (w : World)
      → Places (calls w.placed) (record_attempt env d i r w)
  unfolding record_attempt
  record_attempt-Places d i r w = pause-Places _

  or_raise-Places : (o : Option AlertResult) (w : World) → Places (calls w.placed) (or_raise o w)
  unfolding or_raise
  or_raise-Places none w = refl
  or_raise-Places (some r) w = refl

  send_on-Places :
      (d : Dispatcher) (i : ℕ) (channel : Channel) (c : ContactConfig) (w : World)
      → Places (calls ((channel, c.id) ∷ w.placed)) (send_on env d i channel c w)
  unfolding send_on
  send_on-Places d i channel c w =
      let n : ℕ = calls ((channel, c.id) ∷ w.placed) in
      bind-Ensures (λ _ w'. calls w'.placed ≡ n) (λ _ w'. calls w'.placed ≡ n)
        (λ w'. calls w'.placed ≡ n) (pause env (record w { placed = (channel, c.id) ∷ w.placed }))
        (λ _. or_raise (env.send channel c w.tick))
        (pause-Places (record w { placed = (channel, c.id) ∷ w.placed }))
        (λ _ w' e.
          subst (λ k. Places k (or_raise (env.send channel c w.tick) w')) e
            (or_raise-Places (env.send channel c w.tick) w'))

-- the calls that a contact gets before the chain goes on to the next one
abbrev pub calls_of : Dispatcher → ContactConfig → ℕ
calls_of d c = if takes_calls c && d.has_call then c.retries + 1 else 0

-- the calls of a whole chain
abbrev pub budget : Dispatcher → List ContactConfig → ℕ
budget d [] = 0
budget d (c ∷ cs) = calls_of d c + budget d cs

-- a coroutine that answers no only after exactly k more calls, and places at most k however it ends
abbrev pub Spends : ℕ → Result Bool × World → Type 0
Spends n =
    Ensures (λ acked w. (calls w.placed ≤ n) × (acked ≡ false → calls w.placed ≡ n))
      (λ w. calls w.placed ≤ n)

module _ (env : Env) (d : Dispatcher) (i : ℕ) where
  wait-Places : (w : World) → Places (calls w.placed) (wait env d i w)
  unfolding wait wait_on
  wait-Places w = elim (Bool-cases (is_acknowledged i w.bus)) [
    | inl acked ↦ rw acked refl
    | inr open_yet ↦ rw open_yet (
        bind-Ensures (λ _ w'. calls w'.placed ≡ calls w.placed)
          (λ _ w'. calls w'.placed ≡ calls w.placed) (λ w'. calls w'.placed ≡ calls w.placed)
          (pause env (record w { bus = (event_of i w.bus).1 }))
          (λ _ w'. (ok (is_set (event_of i w.bus).0 w'.bus), w'))
          (pause-Places env (record w { bus = (event_of i w.bus).1 })) (λ _ w' e. e))
  ]

  after_call-Spends :
      (n m : ℕ) (r : AlertResult) (rest : Async Bool) (w : World)
      → calls w.placed ≡ n
      → n ≤ m
      → ((w' : World) → calls w'.placed ≡ n → Spends m (rest w'))
      → Spends m (after_call env d i r rest w)
  unfolding after_call
  after_call-Spends n m r rest w e le more = elim (Bool-cases (is_failed r.outcome)) [
    | inl failed ↦ rw failed (more w e)
    | inr sent ↦ rw sent (
        bind-Ensures (λ _ w'. calls w'.placed ≡ n)
          (λ acked w'. (calls w'.placed ≤ m) × (acked ≡ false → calls w'.placed ≡ m))
          (λ w'. calls w'.placed ≤ m) (wait env d i w)
          (λ acked. if acked then (λ w'. (ok true, w')) else rest)
          (Ensures-mono _ _ _ _ (wait env d i w) (wait-Places w) (λ _ w' p. p ∙ e)
            (λ w' p. omega arith))
          (λ acked w' p. elim (Bool-cases acked) [
            | inl yes_acked ↦ rw yes_acked (omega arith, λ f. cc)
            | inr not_acked ↦ rw not_acked (more w' p)
          ]))
  ]

  call_loop-Spends :
      (c : ContactConfig) (left : ℕ) (w : World)
      → Spends (calls w.placed + left) (call_loop env d i c left w)
  unfolding call_loop
  call_loop-Spends c zero w = (omega arith, λ f. omega arith)
  call_loop-Spends c (suc left) w =
      let n : ℕ = suc (calls w.placed) in
      let m : ℕ = calls w.placed + suc left in
      bind-Ensures (λ _ w'. calls w'.placed ≡ n)
        (λ acked w'. (calls w'.placed ≤ m) × (acked ≡ false → calls w'.placed ≡ m))
        (λ w'. calls w'.placed ≤ m) (send_on env d i Channel.call c w)
        (λ r w1.
          (record_attempt env d i r >>= λ _. after_call env d i r (call_loop env d i c left)) w1)
        (Ensures-mono _ _ _ _ (send_on env d i Channel.call c w)
          (send_on-Places env d i Channel.call c w) (λ r w1 p. p) (λ w1 p. omega arith))
        (λ r w1 p.
          bind-Ensures (λ _ w'. calls w'.placed ≡ n)
            (λ acked w'. (calls w'.placed ≤ m) × (acked ≡ false → calls w'.placed ≡ m))
            (λ w'. calls w'.placed ≤ m) (record_attempt env d i r w1)
            (λ _. after_call env d i r (call_loop env d i c left))
            (Ensures-mono _ _ _ _ (record_attempt env d i r w1) (record_attempt-Places env d i r w1)
              (λ _ w2 q. q ∙ p) (λ w2 q. omega arith))
            (λ _ w2 q.
              after_call-Spends n m r (call_loop env d i c left) w2 q (omega arith) (λ w3 s.
                let whole : calls w3.placed + left ≡ m = omega arith in
                subst (λ k. Spends k (call_loop env d i c left w3)) whole
                  (call_loop-Spends c left w3))))

  text_first-Places :
      (c : ContactConfig) (w : World) → Places (calls w.placed) (text_first env d i c w)
  unfolding text_first
  text_first-Places c w = elim (Bool-cases (texts c && d.has_sms)) [
    | inl both ↦ rw both (
        bind-Ensures (λ _ w'. calls w'.placed ≡ calls w.placed)
          (λ _ w'. calls w'.placed ≡ calls w.placed) (λ w'. calls w'.placed ≡ calls w.placed)
          (send_on env d i Channel.sms c w) (λ r. record_attempt env d i r)
          (send_on-Places env d i Channel.sms c w)
          (λ r w1 e.
            subst (λ k. Places k (record_attempt env d i r w1)) e
              (record_attempt-Places env d i r w1)))
    | inr neither ↦ rw neither refl
  ]

  answer-Spends :
      (c : ContactConfig) (n : ℕ) (w : World)
      → calls w.placed ≡ n
      → Spends (n + calls_of d c) (call_contact env d i c w)
  unfolding call_contact
  answer-Spends c n w e = elim (Bool-cases (takes_calls c)) [
    | inl takes ↦ rw takes (elim (Bool-cases d.has_call) [
      | inl voice ↦ simp voice (
          subst (λ k. Spends (k + (c.retries + 1)) (call_loop env d i c (c.retries + 1) w)) e
            (call_loop-Spends c (c.retries + 1) w))
      | inr mute ↦ simp mute (omega arith, λ f. omega arith)
    ])
    | inr never ↦ rw never (omega arith, λ f. omega arith)
  ]

  pub try_contact-Spends :
      (c : ContactConfig) (n : ℕ) (w : World)
      → calls w.placed ≡ n
      → Spends (n + calls_of d c) (try_contact env d i c w)
  unfolding try_contact
  try_contact-Spends c n w e =
      bind-Ensures (λ _ w'. calls w'.placed ≡ n)
        (λ acked w'.
          (calls w'.placed ≤ n + calls_of d c)
          × (acked ≡ false → calls w'.placed ≡ n + calls_of d c))
        (λ w'. calls w'.placed ≤ n + calls_of d c) (text_first env d i c w)
        (λ _. call_contact env d i c)
        (Ensures-mono _ _ _ _ (text_first env d i c w) (text_first-Places c w) (λ _ w' p. p ∙ e)
          (λ w' p. omega arith))
        (λ _ w' p. answer-Spends c n w' p)
