-- ===== src/World/Run.antt =====
-- Code that changes the daemon's globals and may end the process.
use cwdaemon.Base.{ℕ, Bool, true, false, ◌∷◌, ℤ}
use cwdaemon.World.Calls.{Call, Env}
use cwdaemon.World.State.{Daemon}

pub data Outcome (A : Type 0) : Type 0 where
  ret : A → Daemon → Outcome A
  -- exit(code)
  exit : ℕ → Daemon → Outcome A
  -- a failed `assert`, or a write outside of a buffer
  fault : Daemon → Outcome A

abbrev pub M : Type 0 → Type 0
M A = Daemon → Outcome A

abbrev pub Void : Type 0
Void = M (Unit {0})

unfoldable pub pure : {A : Type 0} → A → M A
pure a s = ret a s

infixl 5 ◌>>=◌ ◌>>◌
unfoldable pub ◌>>=◌ : {A B : Type 0} → M A → (A → M B) → M B
◌>>=◌ m f s = elim (m s) [ ret a t ↦ f a t | exit n t ↦ exit n t | fault t ↦ fault t ]

unfoldable pub ◌>>◌ : {A B : Type 0} → M A → M B → M B
unfolding ◌>>=◌
m >> k = m >>= λ _. k

unfoldable pub skip : Void
unfolding pure
skip = pure tt

-- `exit(n)` of the C library
unfoldable pub stop : {A : Type 0} → ℕ → M A
stop n s = exit n s

unfoldable pub require : Bool → Void
require true s = ret tt s
require false s = fault s

unfoldable pub gets : {A : Type 0} → (Daemon → A) → M A
gets f s = ret (f s) s

unfoldable pub modify : (Daemon → Daemon) → Void
modify f s = ret tt (f s)

unfoldable pub when : Bool → Void → Void
unfolding skip
when true m = m
when false m = skip

-- A call of code that is not the daemon's, and its result.
unfoldable pub call : Env → Call → M ℤ
call e c s = ret (e.returns s.trace c) (record s { trace = c ∷ s.trace })

-- The same, where the result is not read.
unfoldable pub perform : Call → Void
perform c s = ret tt (record s { trace = c ∷ s.trace })

-- To run code: a proof that unfolds `run` computes with all of the above.
unfoldable pub run : {A : Type 0} → M A → Daemon → Outcome A
unfolding ◌>>=◌ ◌>>◌ pure skip stop require gets modify when call perform
run m s = m s
