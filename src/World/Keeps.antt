-- ===== src/World/Keeps.antt =====
-- Code that keeps an invariant and does not fault, with a rule for each way to build it.
use cwdaemon.Base.{ℕ, ◌≡◌, refl, Bool, Option, none, some, true, false, if◌then◌else◌}
use cwdaemon.World.State.{Daemon}
use cwdaemon.World.Run.{
  Outcome, ret, exit, fault, M, Void, pure, ◌>>=◌, ◌>>◌, skip, stop, gets, modify, when,
}

-- A run that returns ends in `P`; one that exits has no state left; none faults.
abbrev pub Kept : {A : Type 0} → (Daemon → Type 0) → Outcome A → Type 0
Kept P (ret a s) = P s
Kept P (exit n s) = Unit
Kept P (fault s) = ⊥

-- A run that returns, in a state of `P`.
abbrev pub Returns : {A : Type 0} → (Daemon → Type 0) → Outcome A → Type 0
Returns P (ret a t) = P t
Returns P (exit n t) = ⊥
Returns P (fault t) = ⊥

-- A run that exits with the status, or, if there is none, one that returns in a state of `P`.
abbrev pub Follows : {A : Type 0} → (Daemon → Type 0) → Option ℕ → Outcome A → Type 0
Follows P none o = Returns P o
Follows P (some n) (exit m t) = m ≡ n
Follows P (some n) _ = ⊥

pub Returns->>= :
    {A B : Type 0} (P Q : Daemon → Type 0) (o : Outcome A) (f : A → M B)
    → Returns P o
    → ((x : A) (t : Daemon) → P t → Returns Q (f x t))
    → Returns Q (elim o [ ret x t ↦ f x t | exit n t ↦ exit n t | fault t ↦ fault t ])
Returns->>= P Q (ret x t) f h k = k x t h
Returns->>= P Q (exit _ _) f h k = elim h [ ]
Returns->>= P Q (fault _) f h k = elim h [ ]

pub Returns-map :
    {A : Type 0} (P Q : Daemon → Type 0) (o : Outcome A)
    → Returns P o
    → ((t : Daemon) → P t → Q t)
    → Returns Q o
Returns-map P Q (ret x t) h k = k t h
Returns-map P Q (exit _ _) h k = elim h [ ]
Returns-map P Q (fault _) h k = elim h [ ]

-- From every state in `P`, `m` ends in `Q`.
pub record Leads (P Q : Daemon → Type 0) {A : Type 0} (m : M A) : Type 0 where
  pub at : (s : Daemon) → P s → Kept Q (m s)

abbrev pub Keeps : (Daemon → Type 0) → {A : Type 0} → M A → Type 0
Keeps P m = Leads P P m

Kept->>= :
    {A B : Type 0} {P Q : Daemon → Type 0} (o : Outcome A) (f : A → M B)
    → Kept P o
    → ((a : A) → Leads P Q (f a))
    → Kept Q (elim o [ ret a t ↦ f a t | exit n t ↦ exit n t | fault t ↦ fault t ])
Kept->>= (ret a s) f h k = (k a).at s h
Kept->>= (exit n s) f h k = tt
Kept->>= (fault s) f h k = h

pub Leads->>= :
    {A B : Type 0} (P R Q : Daemon → Type 0) (m : M A) (f : A → M B)
    → Leads P R m
    → ((a : A) → Leads R Q (f a))
    → Leads P Q (m >>= f)
unfolding ◌>>=◌
Leads->>= P R Q m f km kf = record { at = λ s h. Kept->>= (m s) f (km.at s h) kf }

pub Leads->> :
    {A B : Type 0} (P R Q : Daemon → Type 0) (m : M A) (k : M B)
    → Leads P R m
    → Leads R Q k
    → Leads P Q (m >> k)
unfolding ◌>>◌
Leads->> P R Q m k km kk = Leads->>= P R Q m (λ _. k) km (λ _. kk)

-- A stronger condition at the start.
pub Leads-first :
    {A : Type 0} {P R Q : Daemon → Type 0} {m : M A}
    → ((s : Daemon) → P s → R s)
    → Leads R Q m
    → Leads P Q m
Leads-first f h = record { at = λ s i. h.at s (f s i) }

-- A branch may use its test.
pub Leads-if :
    {A : Type 0} {P Q : Daemon → Type 0} (b : Bool) (m n : M A)
    → (b ≡ true → Leads P Q m)
    → (b ≡ false → Leads P Q n)
    → Leads P Q (if b then m else n)
Leads-if true m n km kn = km refl
Leads-if false m n km kn = kn refl

pub Leads-when :
    {P Q : Daemon → Type 0} (b : Bool) (m : Void)
    → (b ≡ true → Leads P Q m)
    → ((s : Daemon) → P s → Q s)
    → Leads P Q (when b m)
unfolding when skip
Leads-when true m h k = h refl
Leads-when false m h k = record { at = λ s i. k s i }

module _ {P : Daemon → Type 0} where
  pub Keeps-pure : {A : Type 0} (a : A) → Keeps P (pure a)
  unfolding pure
  Keeps-pure a = record { at = λ s h. h }

  pub Keeps-skip : Keeps P skip
  unfolding skip
  Keeps-skip = record { at = λ s h. h }

  pub Keeps-stop : {A : Type 0} (n : ℕ) → Keeps P (stop {A = A} n)
  unfolding stop
  Keeps-stop n = record { at = λ s h. tt }

  pub Keeps-gets : {A : Type 0} (f : Daemon → A) → Keeps P (gets f)
  unfolding gets
  Keeps-gets f = record { at = λ s h. h }

  pub Keeps-modify : (f : Daemon → Daemon) → ((s : Daemon) → P s → P (f s)) → Keeps P (modify f)
  unfolding modify
  Keeps-modify f h = record { at = h }

  pub Keeps-if :
      {A : Type 0} (b : Bool) (m n : M A) → Keeps P m → Keeps P n → Keeps P (if b then m else n)
  Keeps-if true m n km kn = km
  Keeps-if false m n km kn = kn

  pub Keeps-when : (b : Bool) (m : Void) → Keeps P m → Keeps P (when b m)
  unfolding when
  Keeps-when true m km = km
  Keeps-when false m km = Keeps-skip

module _ {A B : Type 0} {P : Daemon → Type 0} where
  pub Keeps->>= :
      (m : M A) (f : A → M B) → Keeps P m → ((a : A) → Keeps P (f a)) → Keeps P (m >>= f)
  Keeps->>= m f km kf = Leads->>= P P P m f km kf

  pub Keeps->> : (m : M A) (k : M B) → Keeps P m → Keeps P k → Keeps P (m >> k)
  Keeps->> m k km kk = Leads->> P P P m k km kk

pub ruleset keeps_rules =
    (Keeps-pure, Keeps-skip, Keeps-stop, Keeps-gets, Keeps-if, Keeps-when, Keeps->>=, Keeps->>)
