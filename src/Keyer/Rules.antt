-- ===== src/Keyer/Rules.antt =====
-- How changes of the daemon's globals show in its keyer.
use cwdaemon.Base.{
  ◌≡◌, refl, Bool, true, false, not, Option, none, some, List, ◌∷◌, arith, ap, ◌∙◌, if◌then◌else◌,
}
use cwdaemon.World.Calls.{Call}
use cwdaemon.World.State.{Daemon, PttFlag}
use cwdaemon.World.Run.{M, Void, ◌>>=◌, gets, modify, when}
use cwdaemon.Escape.{if_some}
use cwdaemon.World.Yields.{Holds-skip, Takes}
use cwdaemon.Ptt.{change_ptt}
use cwdaemon.Frame.{IsFrame, IsRemote, is_silent}
use cwdaemon.Callback.Echo.{sent}
use cwdaemon.Keyer.{Keyer, view, with_flag, provided}

abbrev pub Seen : Keyer → Daemon → Type 0
Seen k s = view s ≡ k

sent-silent : (c : Call) (t : List Call) → is_silent c ≡ true → sent (c ∷ t) ≡ sent t
sent-silent c t h = ground arith

view-silent :
    (c : Call) (s : Daemon) → is_silent c ≡ true → view (record s { trace = c ∷ s.trace }) ≡ view s
view-silent c s h = ap (λ o. record (view s) { outbox = o }) (sent-silent c s.trace h)

pub Seen-IsFrame : (k : Keyer) → IsFrame (Seen k)
Seen-IsFrame k = record {
  call_ok = λ c s h i. view-silent c s h ∙ i;
  ttys_ok = λ d s i. i;
  lp_ok = λ d s i. i;
  null_ok = λ d s i. i;
}

pub Seen-IsRemote : (k : Keyer) → IsRemote (Seen k)
Seen-IsRemote k = record { kind_ok = λ d s i. i; register_ok = λ d s i. i; idle_ok = λ n s i. i }

-- What is read of the globals is known of the keyer.
pub Takes-known :
    {A B : Type 0} {Q : Daemon → Type 0} {k : Keyer} (f : Daemon → A) (g : Keyer → A) (m : A → M B)
    → ((s : Daemon) → f s ≡ g (view s))
    → Takes (Seen k) Q (m (g k))
    → Takes (Seen k) Q (gets f >>= m)
unfolding ◌>>=◌ gets
Takes-known {Q = Q} f g m same h = record { at = λ s i. rw (same s ∙ ap g i) (h.at s i) }

-- A change of the globals that is a change of the keyer.
pub modify-Seen :
    {k : Keyer} (f : Daemon → Daemon) (g : Keyer → Keyer)
    → ((s : Daemon) → view (f s) ≡ g (view s))
    → Takes (Seen k) (Seen (g k)) (modify f)
unfolding modify
modify-Seen f g same = record { at = λ s i. same s ∙ ap g i }

pub change_ptt-Seen :
    {k : Keyer} (f : PttFlag → PttFlag) → Takes (Seen k) (Seen (with_flag f k)) (change_ptt f)
unfolding change_ptt
change_ptt-Seen f = modify-Seen _ (with_flag f) (λ s. refl)

pub provided-Seen :
    {A : Type 0} (o : Option A) (m : A → Void) (f : A → Keyer → Keyer) (k : Keyer)
    → ((x : A) → Takes (Seen k) (Seen (f x k)) (m x))
    → Takes (Seen k) (Seen (provided o f k)) (if_some o m)
unfolding if_some
provided-Seen none m f k h = Holds-skip
provided-Seen (some x) m f k h = h x

pub when-Seen :
    (b : Bool) (m : Void) (k l : Keyer)
    → Takes (Seen k) (Seen l) m
    → Takes (Seen k) (Seen (if b then l else k)) (when b m)
unfolding when
when-Seen true m k l h = h
when-Seen false m k l h = Holds-skip

pub unless-Seen :
    (b : Bool) (m : Void) (k l : Keyer)
    → Takes (Seen k) (Seen l) m
    → Takes (Seen k) (Seen (if b then k else l)) (when (not b) m)
unfolding when
unless-Seen true m k l h = Holds-skip
unless-Seen false m k l h = h
