-- ===== src/Accounts/Users/Lockout.antt =====
-- firemex/store.py: the lockout of `_authenticate`.
use fireme_x.Base.{
  ap, ◌∙◌, ℕ, suc, ◌+◌, ◌≤◌, ◌<◌, ◌≡◌, Bool, true, false, some, List, [], ◌∷◌, arith, All, length,
}
use fireme_x.Accounts.Users.{User, locked, accepted, attempt, failed_attempt, is_locked, lock_time}

-- the row after wrong passwords at the given times
abbrev pub guess : List ℕ → User → User
guess [] u = u
guess (t ∷ ts) u = guess ts (attempt t false u).1

-- the last of a list of times, or one given
abbrev pub last_time : ℕ → List ℕ → ℕ
last_time t [] = t
last_time t (s ∷ ts) = last_time s ts

attempt_wrong :
    (t : ℕ) (u : User)
    → u.disabled ≡ false
    → is_locked u.locked_until t ≡ false
    → (attempt t false u).1 ≡ failed_attempt t u
unfolding attempt
attempt_wrong t u e h = ground arith

failed_attempt_early :
    (t : ℕ) (u : User)
    → u.failed_logins + 2 ≤ 5
    → failed_attempt t u ≡ record u { failed_logins = u.failed_logins + 1 }
unfolding failed_attempt
failed_attempt_early t u h = ground arith

failed_attempt_fifth :
    (t : ℕ) (u : User)
    → u.failed_logins + 1 ≡ 5
    → failed_attempt t u ≡ record u { failed_logins = 0; locked_until = some (t + lock_time) }
unfolding failed_attempt
failed_attempt_fifth t u h = ground arith

guess_from :
    (t : ℕ) (ts : List ℕ) (u : User)
    → u.disabled ≡ false
    → u.failed_logins + suc (length ts) ≡ 5
    → All (λ s. is_locked u.locked_until s ≡ false) (t ∷ ts)
    → guess (t ∷ ts) u
      ≡ record u { failed_logins = 0; locked_until = some (last_time t ts + lock_time) }
guess_from t [] u e n h = attempt_wrong t u e h.0 ∙ failed_attempt_fifth t u (omega arith)
guess_from t (s ∷ ts) u e n h =
    let next : (attempt t false u).1 ≡ record u { failed_logins = u.failed_logins + 1 } =
      attempt_wrong t u e h.0 ∙ failed_attempt_early t u (omega arith) in
    ap (guess (s ∷ ts)) next
    ∙ guess_from s ts (record u { failed_logins = u.failed_logins + 1 }) e (omega arith) h.1

-- Where a user is enabled and has failed k times, and 5 - k wrong passwords come in at times at which the
-- row is not locked, then until five minutes after the last of them every attempt, with the right password
-- too, is answered with `locked` and changes nothing, and from then on the right password is accepted.
pub guess_locks :
    (t : ℕ) (ts : List ℕ) (u : User)
    → u.disabled ≡ false
    → u.failed_logins + suc (length ts) ≡ 5
    → All (λ s. is_locked u.locked_until s ≡ false) (t ∷ ts)
    → let u' = guess (t ∷ ts) u in
      ((now : ℕ) (matches : Bool)
        → now < last_time t ts + lock_time
        → attempt now matches u' ≡ (locked, u'))
      × ((now : ℕ) → last_time t ts + lock_time ≤ now → (attempt now true u').0 ≡ accepted)
unfolding attempt
guess_locks t ts u e n h = (
  λ now matches early. rw (guess_from t ts u e n h) (ground arith),
  λ now late. rw (guess_from t ts u e n h) (ground arith),
)
