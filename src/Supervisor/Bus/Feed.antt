-- ===== src/Supervisor/Bus/Feed.antt =====
-- firemex/events.py: each subscription of the bus against a plain specification of what it hears.
use fireme_x.Base.{
  ℕ, zero, suc, ◌+◌, ◌-◌, ◌≤◌, ◌<◌, ◌≡◌, min, Option, none, some, List, [], ◌∷◌, ◌++◌, length,
  if◌then◌else◌, ◌==◌,
}
use fireme_x.Base.Dict.{Dict}
use fireme_x.Supervisor.Bus.{Step, listen, got, leave, published, offer}

-- The specification of one subscription: all that was published since it began, and how many of the
-- last events are unread, no more than the bus's size where that is not 0.
pub record Feed : Type 0 where
  pub log : List ℕ
  pub unread : ℕ

abbrev pub bounded : ℕ → ℕ → ℕ
bounded zero n = n
bounded (suc size) n = min (suc size) n

abbrev pub heard : ℕ → ℕ → Step → Feed → Feed
heard size k (listen j) f = if j == k then record { log = []; unread = 0 } else f
heard size k (published e) f = record {
  log = f.log ++ e ∷ [];
  unread = bounded size (f.unread + 1);
}
heard size k (got j) f = if j == k then record f { unread = f.unread - 1 } else f
heard size k (leave j) f = f

abbrev pub heard_all : ℕ → ℕ → List Step → Feed → Feed
heard_all size k [] f = f
heard_all size k (s ∷ ss) f = heard_all size k ss (heard size k s f)

-- a queue that holds the unread end of the log
abbrev pub Implements : ℕ → Feed → Option (List ℕ) → Type 0
Implements size f none = Unit
Implements size f (some q) =
    ((old : List ℕ) × (f.log ≡ old ++ q)) × (length q ≡ f.unread) × (0 < size → f.unread ≤ size)

module _ (size : ℕ) where
  offered : ℕ → Option (List ℕ) → Option (List ℕ)
  unfolding offer
  offered event none = none
  offered event (some q) = some (offer size event q)
