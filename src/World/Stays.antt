-- ===== src/World/Stays.antt =====
-- Code that does not end the process: from every state it returns or faults.
use cwdaemon.Base.{◌≡◌, Bool, true, false, ◌∷◌, ℤ, pos, ltb_ℤ, if◌then◌else◌}
use cwdaemon.World.Calls.{Env, Call, CallsSucceed}
use cwdaemon.World.State.{Daemon}
use cwdaemon.World.Run.{
  Outcome, ret, exit, fault, M, Void, pure, ◌>>=◌, ◌>>◌, skip, require, gets, modify, when, call,
  perform,
}
use cwdaemon.World.Keeps.{Kept, Returns}

abbrev pub HasNoExit : {A : Type 0} → Outcome A → Type 0
HasNoExit (ret a t) = Unit
HasNoExit (exit n t) = ⊥
HasNoExit (fault t) = Unit

pub record Stays {A : Type 0} (m : M A) : Type 0 where
  pub at : (s : Daemon) → HasNoExit (m s)

pub Stays-pure : {A : Type 0} (a : A) → Stays (pure a)
unfolding pure
Stays-pure a = record { at = λ s. tt }

pub Stays-skip : Stays skip
unfolding skip
Stays-skip = record { at = λ s. tt }

pub Stays-gets : {A : Type 0} (f : Daemon → A) → Stays (gets f)
unfolding gets
Stays-gets f = record { at = λ s. tt }

pub Stays-modify : (f : Daemon → Daemon) → Stays (modify f)
unfolding modify
Stays-modify f = record { at = λ s. tt }

pub Stays-require : (b : Bool) → Stays (require b)
unfolding require
Stays-require true = record { at = λ s. tt }
Stays-require false = record { at = λ s. tt }

pub Stays-call : (e : Env) (c : Call) → Stays (call e c)
unfolding call
Stays-call e c = record { at = λ s. tt }

pub Stays-perform : (c : Call) → Stays (perform c)
unfolding perform
Stays-perform c = record { at = λ s. tt }

pub Stays-if : {A : Type 0} (b : Bool) (m n : M A) → Stays m → Stays n → Stays (if b then m else n)
Stays-if true m n h k = h
Stays-if false m n h k = k

pub Stays-when : (b : Bool) (m : Void) → Stays m → Stays (when b m)
unfolding when
Stays-when true m h = h
Stays-when false m h = Stays-skip

pub HasNoExit->>= :
    {A B : Type 0} (o : Outcome A) (f : A → M B)
    → HasNoExit o
    → ((a : A) → Stays (f a))
    → HasNoExit (elim o [ ret a t ↦ f a t | exit n t ↦ exit n t | fault t ↦ fault t ])
HasNoExit->>= (ret a t) f h k = (k a).at t
HasNoExit->>= (exit n t) f h k = h
HasNoExit->>= (fault t) f h k = tt

pub Stays->>= :
    {A B : Type 0} (m : M A) (f : A → M B) → Stays m → ((a : A) → Stays (f a)) → Stays (m >>= f)
unfolding ◌>>=◌
Stays->>= m f h k = record { at = λ s. HasNoExit->>= (m s) f (h.at s) k }

pub Stays->> : {A B : Type 0} (m : M A) (n : M B) → Stays m → Stays n → Stays (m >> n)
unfolding ◌>>◌
Stays->> m n h k = Stays->>= m (λ _. n) h (λ _. k)

pub ruleset stays_rules = (
  Stays-pure, Stays-skip, Stays-gets, Stays-modify, Stays-require, Stays-call, Stays-perform,
  Stays-if, Stays-when, Stays->>=, Stays->>,
)

-- The answer of a call that succeeds is not negative.
pub Stays-answered :
    {A : Type 0} (e : Env) (c : Call) (f : ℤ → M A)
    → CallsSucceed e
    → ((rc : ℤ) → ltb_ℤ rc (pos 0) ≡ false → Stays (f rc))
    → Stays (call e c >>= f)
unfolding call ◌>>=◌
Stays-answered e c f w h = record {
  at = λ s. (h (e.returns s.trace c) (w s.trace c)).at (record s { trace = c ∷ s.trace });
}

-- Code that keeps a condition, and does not end the process, returns in it.
pub Kept-HasNoExit :
    {A : Type 0} (P : Daemon → Type 0) (o : Outcome A) → Kept P o → HasNoExit o → Returns P o
Kept-HasNoExit P (ret a t) h k = h
Kept-HasNoExit P (exit n t) h k = elim k [ ]
Kept-HasNoExit P (fault t) h k = elim h [ ]
