-- ===== src/World/Yields.antt =====
-- Code that, where it returns, ends in a condition. Nothing is said of the runs that exit or fault.
use cwdaemon.Base.{ℕ, ◌≡◌, refl, sym, subst, Bool, true, false, ◌∷◌, if◌then◌else◌}
use cwdaemon.World.Calls.{Env, Call}
use cwdaemon.World.State.{Daemon}
use cwdaemon.World.Run.{
  Outcome, ret, exit, fault, M, Void, pure, ◌>>=◌, ◌>>◌, skip, stop, require, gets, modify, when,
  perform, call,
}
use cwdaemon.World.Keeps.{Kept, Keeps, Returns}

abbrev pub Yields : {A : Type 0} → (Daemon → Type 0) → Outcome A → Type 0
Yields P (ret a s) = P s
Yields P (exit n s) = Unit
Yields P (fault s) = Unit

-- From every state in `P`, `m` yields `Q`.
pub record Takes (P Q : Daemon → Type 0) {A : Type 0} (m : M A) : Type 0 where
  pub at : (s : Daemon) → P s → Yields Q (m s)

abbrev pub Holds : (Daemon → Type 0) → {A : Type 0} → M A → Type 0
Holds P m = Takes P P m

pub Yields->>= :
    {A B : Type 0} {P Q : Daemon → Type 0} (o : Outcome A) (f : A → M B)
    → Yields P o
    → ((a : A) → Takes P Q (f a))
    → Yields Q (elim o [ ret a t ↦ f a t | exit n t ↦ exit n t | fault t ↦ fault t ])
Yields->>= (ret a s) f h k = (k a).at s h
Yields->>= (exit n s) f h k = tt
Yields->>= (fault s) f h k = tt

pub Takes->>= :
    {A B : Type 0} (P R Q : Daemon → Type 0) (m : M A) (f : A → M B)
    → Takes P R m
    → ((a : A) → Takes R Q (f a))
    → Takes P Q (m >>= f)
unfolding ◌>>=◌
Takes->>= P R Q m f km kf = record { at = λ s h. Yields->>= (m s) f (km.at s h) kf }

pub Takes->> :
    {A B : Type 0} (P R Q : Daemon → Type 0) (m : M A) (k : M B)
    → Takes P R m
    → Takes R Q k
    → Takes P Q (m >> k)
unfolding ◌>>◌
Takes->> P R Q m k km kk = Takes->>= P R Q m (λ _. k) km (λ _. kk)

-- A stronger condition at the start.
pub Takes-first :
    {A : Type 0} {P R Q : Daemon → Type 0} {m : M A}
    → ((s : Daemon) → P s → R s)
    → Takes R Q m
    → Takes P Q m
Takes-first f h = record { at = λ s i. h.at s (f s i) }

pub Yields-map :
    {A : Type 0} (P Q : Daemon → Type 0) (o : Outcome A)
    → ((s : Daemon) → P s → Q s)
    → Yields P o
    → Yields Q o
Yields-map P Q (ret a s) f h = f s h
Yields-map P Q (exit n s) f h = tt
Yields-map P Q (fault s) f h = tt

-- A weaker condition at the end.
pub Takes-last :
    {A : Type 0} {P R Q : Daemon → Type 0} {m : M A}
    → ((s : Daemon) → R s → Q s)
    → Takes P R m
    → Takes P Q m
Takes-last {A = A} {P = P} {R = R} {Q = Q} {m = m} f h = record {
  at = λ s i. Yields-map R Q (m s) f (h.at s i);
}

-- A branch may use its test.
pub Takes-if :
    {A : Type 0} {P Q : Daemon → Type 0} (b : Bool) (m n : M A)
    → (b ≡ true → Takes P Q m)
    → (b ≡ false → Takes P Q n)
    → Takes P Q (if b then m else n)
Takes-if true m n km kn = km refl
Takes-if false m n km kn = kn refl

pub Takes-when :
    {P Q : Daemon → Type 0} (b : Bool) (m : Void)
    → (b ≡ true → Takes P Q m)
    → (b ≡ false → (s : Daemon) → P s → Q s)
    → Takes P Q (when b m)
unfolding when skip
Takes-when true m h k = h refl
Takes-when false m h k = record { at = λ s i. k refl s i }

-- What was read of the state may be used.
pub Takes-gets :
    {A B : Type 0} {P Q : Daemon → Type 0} (f : Daemon → A) (m : A → M B)
    → ((a : A) → Takes (λ s. P s × (f s ≡ a)) Q (m a))
    → Takes P Q (gets f >>= m)
unfolding ◌>>=◌ gets
Takes-gets f m h = record { at = λ s i. (h (f s)).at s (i, refl) }

-- So may what the condition says of it.
pub Takes-read :
    {A B : Type 0} {P Q : Daemon → Type 0} (f : Daemon → A) (m : A → M B) (a : A)
    → ((s : Daemon) → P s → f s ≡ a)
    → Takes P Q (m a)
    → Takes P Q (gets f >>= m)
unfolding ◌>>=◌ gets
Takes-read {Q = Q} f m a h k = record {
  at = λ s i. subst (λ x. Yields Q (m x s)) (sym (h s i)) (k.at s i);
}

-- Two conditions that the same code yields.
pub Yields-both :
    {A : Type 0} (P Q R : Daemon → Type 0) (o : Outcome A)
    → ((s : Daemon) → P s → Q s → R s)
    → Yields P o
    → Yields Q o
    → Yields R o
Yields-both P Q R (ret a s) f h k = f s h k
Yields-both P Q R (exit n s) f h k = tt
Yields-both P Q R (fault s) f h k = tt

module _ {P Q : Daemon → Type 0} where
  pub Takes-stop : {A : Type 0} (n : ℕ) → Takes P Q (stop {A = A} n)
  unfolding stop
  Takes-stop n = record { at = λ s h. tt }

  pub Takes-modify : (f : Daemon → Daemon) → ((s : Daemon) → P s → Q (f s)) → Takes P Q (modify f)
  unfolding modify
  Takes-modify f h = record { at = h }

module _ {P : Daemon → Type 0} where
  pub Holds-pure : {A : Type 0} (a : A) → Holds P (pure a)
  unfolding pure
  Holds-pure a = record { at = λ s h. h }

  pub Holds-skip : Holds P skip
  unfolding skip
  Holds-skip = record { at = λ s h. h }

  pub Holds-gets : {A : Type 0} (f : Daemon → A) → Holds P (gets f)
  unfolding gets
  Holds-gets f = record { at = λ s h. h }

  pub Holds-require : (b : Bool) → Holds P (require b)
  unfolding require
  Holds-require true = record { at = λ s h. h }
  Holds-require false = record { at = λ s h. tt }

  pub Holds-if :
      {A : Type 0} (b : Bool) (m n : M A) → Holds P m → Holds P n → Holds P (if b then m else n)
  Holds-if true m n km kn = km
  Holds-if false m n km kn = kn

  pub Holds-when : (b : Bool) (m : Void) → Holds P m → Holds P (when b m)
  unfolding when
  Holds-when true m km = km
  Holds-when false m km = Holds-skip

module _ {A B : Type 0} {P : Daemon → Type 0} where
  pub Holds->>= :
      (m : M A) (f : A → M B) → Holds P m → ((a : A) → Holds P (f a)) → Holds P (m >>= f)
  Holds->>= m f km kf = Takes->>= P P P m f km kf

  pub Holds->> : (m : M A) (k : M B) → Holds P m → Holds P k → Holds P (m >> k)
  Holds->> m k km kk = Takes->> P P P m k km kk

pub ruleset holds_rules = (
  Holds-pure, Holds-skip, Takes-stop, Holds-gets, Holds-require, Holds-if, Holds-when, Holds->>=,
  Holds->>,
)

-- A change of the state, and a call, that the condition does not notice.
pub modify-Holds :
    {P : Daemon → Type 0} (f : Daemon → Daemon)
    → ((s : Daemon) → P s → P (f s))
    → Holds P (modify f)
unfolding modify
modify-Holds f h = record { at = h }

pub perform-Holds :
    {P : Daemon → Type 0} (c : Call)
    → ((s : Daemon) → P s → P (record s { trace = c ∷ s.trace }))
    → Holds P (perform c)
unfolding perform
perform-Holds c h = record { at = h }

pub call-Holds :
    {P : Daemon → Type 0} (e : Env) (c : Call)
    → ((s : Daemon) → P s → P (record s { trace = c ∷ s.trace }))
    → Holds P (call e c)
unfolding call
call-Holds e c h = record { at = h }

pub ruleset state_rules = (holds_rules, modify-Holds, perform-Holds)

Yields-all : {A : Type 0} (o : Outcome A) → Yields (λ _. Unit) o
Yields-all (ret a s) = tt
Yields-all (exit n s) = tt
Yields-all (fault s) = tt

-- Every run yields the condition that always holds.
pub anything : {A : Type 0} {P : Daemon → Type 0} (m : M A) → Takes P (λ _. Unit) m
anything m = record { at = λ s _. Yields-all (m s) }

-- Code that comes first, of which nothing is known.
pub after->> :
    {A B : Type 0} {Q : Daemon → Type 0} (m : M A) (k : M B)
    → Takes (λ _. Unit) Q k
    → Takes (λ _. Unit) Q (m >> k)
after->> m k h = Takes->> _ _ _ m k (anything m) h

pub after->>= :
    {A B : Type 0} {Q : Daemon → Type 0} (m : M A) (f : A → M B)
    → ((a : A) → Takes (λ _. Unit) Q (f a))
    → Takes (λ _. Unit) Q (m >>= f)
after->>= m f h = Takes->>= _ _ _ m f (anything m) h

pub Kept-Yields : {A : Type 0} (P : Daemon → Type 0) (o : Outcome A) → Kept P o → Yields P o
Kept-Yields P (ret a s) h = h
Kept-Yields P (exit n s) h = tt
Kept-Yields P (fault s) h = tt

-- Code that keeps a condition and does not fault holds it.
pub Keeps-Holds : {A : Type 0} {P : Daemon → Type 0} {m : M A} → Keeps P m → Holds P m
Keeps-Holds {P = P} {m = m} h = record { at = λ s i. Kept-Yields P (m s) (h.at s i) }

-- A run that returns in one condition, and yields another, returns in the other.
pub Yields-Returns :
    {A : Type 0} (P Q : Daemon → Type 0) (o : Outcome A) → Returns P o → Yields Q o → Returns Q o
Yields-Returns P Q (ret a t) h k = k
Yields-Returns P Q (exit n t) h k = elim h [ ]
Yields-Returns P Q (fault t) h k = elim h [ ]

pub Yields-ret :
    {A : Type 0} (P : Daemon → Type 0) (o : Outcome A) (a : A) (s : Daemon)
    → Yields P o
    → o ≡ ret a s
    → P s
Yields-ret P o a s h q = rw q at h

-- A run that returns in one condition, and yields another, returns in both.
pub Returns-both :
    {A : Type 0} (P Q : Daemon → Type 0) (o : Outcome A)
    → Returns P o
    → Yields Q o
    → Returns (λ s. P s × Q s) o
Returns-both P Q (ret a t) h k = (h, k)
Returns-both P Q (exit n t) h k = elim h [ ]
Returns-both P Q (fault t) h k = elim h [ ]
