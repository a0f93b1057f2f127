-- ===== src/World/Gives.antt =====
-- Code whose result tells more of the state that it ends in.
use cwdaemon.Base.{◌≡◌, refl, Bool, true, false, if◌then◌else◌}
use cwdaemon.World.State.{Daemon}
use cwdaemon.World.Run.{Outcome, ret, exit, fault, M, pure, ◌>>=◌, ◌>>◌, gets}
use cwdaemon.World.Succeeds.{Succeeds, IsTrue}
use cwdaemon.World.Yields.{Yields, Takes}

-- Where the code returns `a`, it ends in `Q a`.
abbrev pub Answers : {A : Type 0} → (A → Daemon → Type 0) → Outcome A → Type 0
Answers Q (ret a s) = Q a s
Answers Q (exit n s) = Unit
Answers Q (fault s) = Unit

pub record Gives (P : Daemon → Type 0) {A : Type 0} (Q : A → Daemon → Type 0) (m : M A)
    : Type 0 where
  pub at : (s : Daemon) → P s → Answers Q (m s)

Answers->>= :
    {A B : Type 0} {P : Daemon → Type 0} {Q : B → Daemon → Type 0} (o : Outcome A) (f : A → M B)
    → Yields P o
    → ((a : A) → Gives P Q (f a))
    → Answers Q (elim o [ ret a t ↦ f a t | exit n t ↦ exit n t | fault t ↦ fault t ])
Answers->>= (ret a s) f h k = (k a).at s h
Answers->>= (exit n s) f h k = tt
Answers->>= (fault s) f h k = tt

pub Gives->>= :
    {A B : Type 0} (P R : Daemon → Type 0) (Q : B → Daemon → Type 0) (m : M A) (f : A → M B)
    → Takes P R m
    → ((a : A) → Gives R Q (f a))
    → Gives P Q (m >>= f)
unfolding ◌>>=◌
Gives->>= P R Q m f km kf = record { at = λ s h. Answers->>= (m s) f (km.at s h) kf }

pub Gives->> :
    {A B : Type 0} (P R : Daemon → Type 0) (Q : B → Daemon → Type 0) (m : M A) (k : M B)
    → Takes P R m
    → Gives R Q k
    → Gives P Q (m >> k)
unfolding ◌>>◌
Gives->> P R Q m k km kk = Gives->>= P R Q m (λ _. k) km (λ _. kk)

pub Gives-if :
    {A : Type 0} {P : Daemon → Type 0} {Q : A → Daemon → Type 0} (b : Bool) (m n : M A)
    → (b ≡ true → Gives P Q m)
    → (b ≡ false → Gives P Q n)
    → Gives P Q (if b then m else n)
Gives-if true m n km kn = km refl
Gives-if false m n km kn = kn refl

pub Gives-pure :
    {A : Type 0} {P : Daemon → Type 0} {Q : A → Daemon → Type 0} (a : A)
    → ((s : Daemon) → P s → Q a s)
    → Gives P Q (pure a)
unfolding pure
Gives-pure a h = record { at = h }

pub Gives-gets :
    {A B : Type 0} {P : Daemon → Type 0} {Q : B → Daemon → Type 0} (f : Daemon → A) (m : A → M B)
    → ((a : A) → Gives (λ s. P s × (f s ≡ a)) Q (m a))
    → Gives P Q (gets f >>= m)
unfolding ◌>>=◌ gets
Gives-gets f m h = record { at = λ s i. (h (f s)).at s (i, refl) }

Yields-Answers :
    {A B : Type 0} {P : A → Daemon → Type 0} {Q : Daemon → Type 0} (o : Outcome A) (f : A → M B)
    → Answers P o
    → ((a : A) → Takes (P a) Q (f a))
    → Yields Q (elim o [ ret a t ↦ f a t | exit n t ↦ exit n t | fault t ↦ fault t ])
Yields-Answers (ret a s) f h k = (k a).at s h
Yields-Answers (exit n s) f h k = tt
Yields-Answers (fault s) f h k = tt

-- The rest of the code may use what the result says.
pub Takes-Gives :
    {A B : Type 0} (P : Daemon → Type 0) (R : A → Daemon → Type 0) (Q : Daemon → Type 0) (m : M A)
    (f : A → M B)
    → Gives P R m
    → ((a : A) → Takes (R a) Q (f a))
    → Takes P Q (m >>= f)
unfolding ◌>>=◌
Takes-Gives P R Q m f km kf = record { at = λ s h. Yields-Answers (m s) f (km.at s h) kf }

Yields-true :
    {A : Type 0} {R Q : Daemon → Type 0} (o : Outcome Bool) (f : Bool → M A)
    → IsTrue o
    → Yields R o
    → Takes R Q (f true)
    → Yields Q (elim o [ ret a t ↦ f a t | exit n t ↦ exit n t | fault t ↦ fault t ])
Yields-true (ret true t) f h i k = k.at t i
Yields-true (ret false t) f h i k = elim h [ ]
Yields-true (exit n t) f h i k = elim h [ ]
Yields-true (fault t) f h i k = elim h [ ]

-- What comes behind a function that succeeds gets true.
pub Takes-true :
    {A : Type 0} {P : Daemon → Type 0} (R Q : Daemon → Type 0) (m : M Bool) (f : Bool → M A)
    → Succeeds m
    → Takes P R m
    → Takes R Q (f true)
    → Takes P Q (m >>= f)
unfolding ◌>>=◌
Takes-true R Q m f h i k = record { at = λ s p. Yields-true (m s) f (h.at s) (i.at s p) k }

Answers->> :
    {A B : Type 0} {P : A → Daemon → Type 0} {Q : B → Daemon → Type 0} (o : Outcome A) (f : A → M B)
    → Answers P o
    → ((a : A) → Gives (P a) Q (f a))
    → Answers Q (elim o [ ret a t ↦ f a t | exit n t ↦ exit n t | fault t ↦ fault t ])
Answers->> (ret a s) f h k = (k a).at s h
Answers->> (exit n s) f h k = tt
Answers->> (fault s) f h k = tt

-- The rest of the code gives a result too.
pub Gives-Gives :
    {A B : Type 0} (P : Daemon → Type 0) (R : A → Daemon → Type 0) (Q : B → Daemon → Type 0)
    (m : M A) (f : A → M B)
    → Gives P R m
    → ((a : A) → Gives (R a) Q (f a))
    → Gives P Q (m >>= f)
unfolding ◌>>=◌
Gives-Gives P R Q m f km kf = record { at = λ s h. Answers->> (m s) f (km.at s h) kf }

-- A stronger condition at the start.
pub Gives-first :
    {A : Type 0} {P R : Daemon → Type 0} {Q : A → Daemon → Type 0} {m : M A}
    → ((s : Daemon) → P s → R s)
    → Gives R Q m
    → Gives P Q m
Gives-first f h = record { at = λ s i. h.at s (f s i) }

Answers-map :
    {A : Type 0} {P Q : A → Daemon → Type 0} (o : Outcome A)
    → ((a : A) (s : Daemon) → P a s → Q a s)
    → Answers P o
    → Answers Q o
Answers-map (ret a s) f h = f a s h
Answers-map (exit n s) f h = tt
Answers-map (fault s) f h = tt

-- A weaker condition at the end.
pub Gives-last :
    {A : Type 0} {P : Daemon → Type 0} {R Q : A → Daemon → Type 0} {m : M A}
    → ((a : A) (s : Daemon) → R a s → Q a s)
    → Gives P R m
    → Gives P Q m
Gives-last {m = m} f h = record { at = λ s i. Answers-map (m s) f (h.at s i) }
