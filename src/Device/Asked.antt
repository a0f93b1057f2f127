-- ===== src/Device/Asked.antt =====
-- What the outside was asked since a given state, and what it answered.
use cwdaemon.Base.{◌≡◌, refl, true, List, [], ◌∷◌, ◌++◌, ℤ, ap, ◌∙◌, sym, append_assoc}
use cwdaemon.World.Calls.{Env, Call}
use cwdaemon.World.State.{Daemon}
use cwdaemon.World.Run.{M, ◌>>=◌, ◌>>◌, call, perform}
use cwdaemon.World.Gives.{Gives, Gives->>}
use cwdaemon.World.Yields.{perform-Holds}
use cwdaemon.Frame.{IsFrame, is_silent}

-- Calls were added since `s`, and none is forgotten.
pub record Since (s t : Daemon) : Type 0 where
  pub calls : List Call
  pub added : t.trace ≡ calls ++ s.trace

-- Since `s`, the call was made, and its answer is as it says.
pub record Asked (e : Env) (s : Daemon) (c : Call) (ok : ℤ → Type 0) (t : Daemon) : Type 0 where
  pub later : List Call
  pub earlier : List Call
  pub calls : List Call
  pub made : t.trace ≡ later ++ c ∷ earlier
  pub answered : ok (e.returns earlier c)
  pub added : earlier ≡ calls ++ s.trace

-- A condition on the calls alone, that more calls do not change.
pub record IsHistory (P : Daemon → Type 0) : Type 0 where
  pub grows : (t u : Daemon) (more : List Call) → u.trace ≡ more ++ t.trace → P t → P u

pub IsHistory-IsFrame : {P : Daemon → Type 0} → IsHistory P → IsFrame P
IsHistory-IsFrame h = record {
  call_ok = λ c t q i. h.grows t _ (c ∷ []) refl i;
  ttys_ok = λ d t i. h.grows t _ [] refl i;
  lp_ok = λ d t i. h.grows t _ [] refl i;
  null_ok = λ d t i. h.grows t _ [] refl i;
}

pub both-IsHistory :
    {P Q : Daemon → Type 0} → IsHistory P → IsHistory Q → IsHistory (λ t. P t × Q t)
both-IsHistory f g = record {
  grows = λ t u more q (i, j). (f.grows t u more q i, g.grows t u more q j);
}

pub Since-IsHistory : (s : Daemon) → IsHistory (Since s)
Since-IsHistory s = record {
  grows = λ t u more q i. record {
    calls = more ++ i.calls;
    added = q ∙ ap (λ l. more ++ l) i.added ∙ sym (append_assoc more i.calls s.trace);
  };
}

-- What was asked does not depend on anything but the calls.
pub Asked-more :
    {e : Env} {s : Daemon} {c : Call} {ok : ℤ → Type 0} (t u : Daemon) (more : List Call)
    → u.trace ≡ more ++ t.trace
    → Asked e s c ok t
    → Asked e s c ok u
Asked-more {c = c} t u more q i = record {
  later = more ++ i.later;
  earlier = i.earlier;
  calls = i.calls;
  made = q ∙ ap (λ l. more ++ l) i.made ∙ sym (append_assoc more i.later (c ∷ i.earlier));
  answered = i.answered;
  added = i.added;
}

pub Asked-IsHistory :
    (e : Env) (s : Daemon) (c : Call) (ok : ℤ → Type 0) → IsHistory (Asked e s c ok)
Asked-IsHistory e s c ok = record { grows = λ t u more q i. Asked-more t u more q i }

pub Asked-IsFrame : (e : Env) (s : Daemon) (c : Call) (ok : ℤ → Type 0) → IsFrame (Asked e s c ok)
Asked-IsFrame e s c ok = IsHistory-IsFrame (Asked-IsHistory e s c ok)

pub both-IsFrame : {P Q : Daemon → Type 0} → IsFrame P → IsFrame Q → IsFrame (λ t. P t × Q t)
both-IsFrame f g = record {
  call_ok = λ c t h (i, j). (f.call_ok c t h i, g.call_ok c t h j);
  ttys_ok = λ d t (i, j). (f.ttys_ok d t i, g.ttys_ok d t j);
  lp_ok = λ d t (i, j). (f.lp_ok d t i, g.lp_ok d t j);
  null_ok = λ d t (i, j). (f.null_ok d t i, g.null_ok d t j);
}

-- A call whose answer the rest of the code may use.
pub Gives-call :
    {A : Type 0} {P : Daemon → Type 0} {Q : A → Daemon → Type 0} (e : Env) (s : Daemon) (c : Call)
    (m : ℤ → M A)
    → IsFrame P
    → ((t : Daemon) → P t → Since s t)
    → is_silent c ≡ true
    → ((z : ℤ) → Gives (λ t. P t × Asked e s c (λ v. v ≡ z) t) Q (m z))
    → Gives P Q (call e c >>= m)
unfolding ◌>>=◌ call
Gives-call e s c m f since h k = record {
  at = λ t i.
      (k (e.returns t.trace c)).at (record t { trace = c ∷ t.trace })
        (
          f.call_ok c t h i,
          record {
            later = [];
            earlier = t.trace;
            calls = (since t i).calls;
            made = refl;
            answered = refl;
            added = (since t i).added;
          },
        );
}

pub Gives-perform :
    {A : Type 0} {P : Daemon → Type 0} {Q : A → Daemon → Type 0} (c : Call) (m : M A)
    → IsFrame P
    → is_silent c ≡ true
    → Gives P Q m
    → Gives P Q (perform c >> m)
Gives-perform c m f h k = Gives->> _ _ _ _ _ (perform-Holds c (λ t i. f.call_ok c t h i)) k
