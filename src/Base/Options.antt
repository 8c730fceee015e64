-- ===== src/Base/Options.antt =====
-- Chains of fallible steps: a step that gives `none` ends the chain.
use fireme_x.Base.{Option, none, some}

infixl 5 ◌>>=◌
abbrev pub ◌>>=◌ : {A B : Type 0} → Option A → (A → Option B) → Option B
none >>= f = none
some a >>= f = f a
