-- ===== src/World/Ends.antt =====
-- Code that returns from every state: it neither exits nor faults.
use cwdaemon.Base.{Bool, true, false, if◌then◌else◌}
use cwdaemon.World.Calls.{Env, Call}
use cwdaemon.World.State.{Daemon}
use cwdaemon.World.Run.{
  Outcome, ret, exit, fault, M, pure, ◌>>=◌, ◌>>◌, skip, gets, modify, call, perform,
}
use cwdaemon.World.Keeps.{Kept, Returns, Returns->>=}

pub record Ends {A : Type 0} (m : M A) : Type 0 where
  pub at : (s : Daemon) → Returns (λ t. Unit) (m s)

pub Ends-pure : {A : Type 0} (a : A) → Ends (pure a)
unfolding pure
Ends-pure a = record { at = λ s. tt }

pub Ends-skip : Ends skip
unfolding skip
Ends-skip = record { at = λ s. tt }

pub Ends-gets : {A : Type 0} (f : Daemon → A) → Ends (gets f)
unfolding gets
Ends-gets f = record { at = λ s. tt }

pub Ends-modify : (f : Daemon → Daemon) → Ends (modify f)
unfolding modify
Ends-modify f = record { at = λ s. tt }

pub Ends-call : (e : Env) (c : Call) → Ends (call e c)
unfolding call
Ends-call e c = record { at = λ s. tt }

pub Ends-perform : (c : Call) → Ends (perform c)
unfolding perform
Ends-perform c = record { at = λ s. tt }

pub Ends-if : {A : Type 0} (b : Bool) (m n : M A) → Ends m → Ends n → Ends (if b then m else n)
Ends-if true m n h k = h
Ends-if false m n h k = k

pub Ends->>= :
    {A B : Type 0} (m : M A) (f : A → M B) → Ends m → ((a : A) → Ends (f a)) → Ends (m >>= f)
unfolding ◌>>=◌
Ends->>= m f h k = record {
  at = λ s. Returns->>= (λ t. Unit) (λ t. Unit) (m s) f (h.at s) (λ a t _. (k a).at t);
}

pub Ends->> : {A B : Type 0} (m : M A) (n : M B) → Ends m → Ends n → Ends (m >> n)
unfolding ◌>>◌
Ends->> m n h k = Ends->>= m (λ _. n) h (λ _. k)

pub ruleset ends_rules = (
  Ends-pure, Ends-skip, Ends-gets, Ends-modify, Ends-call, Ends-perform, Ends-if, Ends->>=, Ends->>,
)

-- Code that keeps a condition and ends returns in it.
pub Kept-Returns :
    {A : Type 0} (P : Daemon → Type 0) (o : Outcome A)
    → Kept P o
    → Returns (λ t. Unit) o
    → Returns P o
Kept-Returns P (ret a t) h k = h
Kept-Returns P (exit _ _) h k = elim k [ ]
Kept-Returns P (fault _) h k = elim k [ ]
