-- ===== src/World/Succeeds.antt =====
-- Functions that return true from every state, and the code behind them.
use cwdaemon.Base.{Bool, true, false}
use cwdaemon.World.State.{Daemon}
use cwdaemon.World.Run.{Outcome, ret, exit, fault, M, ◌>>=◌, ◌>>◌, pure}
use cwdaemon.World.Keeps.{Returns}
use cwdaemon.World.Stays.{Stays, HasNoExit}
use cwdaemon.World.Ends.{Ends}

-- A function that returns true.
abbrev pub IsTrue : Outcome Bool → Type 0
IsTrue (ret true t) = Unit
IsTrue _ = ⊥

-- From every state it does.
pub record Succeeds (m : M Bool) : Type 0 where
  pub at : (s : Daemon) → IsTrue (m s)

pub Succeeds-pure : Succeeds (pure true)
unfolding pure
Succeeds-pure = record { at = λ s. tt }

IsTrue->>= :
    {A : Type 0} (o : Outcome A) (f : A → M Bool)
    → Returns (λ t. Unit) o
    → ((a : A) → Succeeds (f a))
    → IsTrue (elim o [ ret a t ↦ f a t | exit n t ↦ exit n t | fault t ↦ fault t ])
IsTrue->>= (ret a t) f h k = (k a).at t
IsTrue->>= (exit n t) f h k = elim h [ ]
IsTrue->>= (fault t) f h k = elim h [ ]

pub Succeeds->>= :
    {A : Type 0} (m : M A) (f : A → M Bool)
    → Ends m
    → ((a : A) → Succeeds (f a))
    → Succeeds (m >>= f)
unfolding ◌>>=◌
Succeeds->>= m f h k = record { at = λ s. IsTrue->>= (m s) f (h.at s) k }

pub Succeeds->> : {A : Type 0} (m : M A) (n : M Bool) → Ends m → Succeeds n → Succeeds (m >> n)
unfolding ◌>>◌
Succeeds->> m n h k = Succeeds->>= m (λ _. n) h (λ _. k)

-- What comes behind such a function gets true.
after_true :
    {A : Type 0} (P : Outcome A → Type 0) (o : Outcome Bool) (f : Bool → M A)
    → IsTrue o
    → ((t : Daemon) → P (f true t))
    → P (elim o [ ret a t ↦ f a t | exit n t ↦ exit n t | fault t ↦ fault t ])
after_true P (ret true t) f h k = k t
after_true P (ret false t) f h k = elim h [ ]
after_true P (exit n t) f h k = elim h [ ]
after_true P (fault t) f h k = elim h [ ]

pub Succeeds-true :
    (m : M Bool) (f : Bool → M Bool) → Succeeds m → Succeeds (f true) → Succeeds (m >>= f)
unfolding ◌>>=◌
Succeeds-true m f h k = record { at = λ s. after_true IsTrue (m s) f (h.at s) k.at }

pub Stays-true :
    {A : Type 0} (m : M Bool) (f : Bool → M A) → Succeeds m → Stays (f true) → Stays (m >>= f)
unfolding ◌>>=◌
Stays-true m f h k = record { at = λ s. after_true HasNoExit (m s) f (h.at s) k.at }
