-- ===== src/Traffic/Rules.antt =====
-- How the parts of the daemon change the number of datagrams that were sent to an address or are
-- due to it.
use cwdaemon.Base.{ℕ, ◌+◌, ◌≤◌, ◌≡◌, true, List, ◌∷◌, arith}
use cwdaemon.World.Calls.{Call, Address}
use cwdaemon.World.State.{Daemon}
use cwdaemon.Frame.{IsFrame, IsRemote, IsFlagFree, is_silent}
use cwdaemon.Traffic.{sent_to, due_to}

-- At most `n` datagrams were sent to `a` or are due to it.
abbrev pub Count : Address → ℕ → Daemon → Type 0
Count a n s = sent_to a s.trace + due_to a s ≤ n

-- At most `n` were sent.
abbrev pub Spent : Address → ℕ → Daemon → Type 0
Spent a n s = sent_to a s.trace ≤ n

-- The same as `Count`, while a datagram from `addr` is served.
abbrev pub Fresh : Address → Address → ℕ → Daemon → Type 0
Fresh a addr n s = Count a n s × (s.request_addr ≡ addr)

sent_to-silent :
    (a : Address) (c : Call) (t : List Call) → is_silent c ≡ true → sent_to a (c ∷ t) ≡ sent_to a t
sent_to-silent a c t h = ground arith

module _ (a : Address) (n : ℕ) where
  pub Count-IsFrame : IsFrame (Count a n)
  Count-IsFrame = record {
    call_ok = λ c s h i. ground (arith, sent_to-silent a c s.trace h);
    ttys_ok = λ d s i. i;
    lp_ok = λ d s i. i;
    null_ok = λ d s i. i;
  }

  pub Count-IsRemote : IsRemote (Count a n)
  Count-IsRemote = record { kind_ok = λ k s i. i; register_ok = λ d s i. i; idle_ok = λ k s i. i }

  pub Count-IsFlagFree : IsFlagFree (Count a n)
  Count-IsFlagFree = record { flag_ok = λ g s h i. ground arith }

  pub Spent-IsFrame : IsFrame (Spent a n)
  Spent-IsFrame = record {
    call_ok = λ c s h i. ground (arith, sent_to-silent a c s.trace h);
    ttys_ok = λ d s i. i;
    lp_ok = λ d s i. i;
    null_ok = λ d s i. i;
  }

  pub Spent-IsFlagFree : IsFlagFree (Spent a n)
  Spent-IsFlagFree = record { flag_ok = λ g s h i. i }

module _ (a addr : Address) (n : ℕ) where
  pub Fresh-IsFrame : IsFrame (Fresh a addr n)
  Fresh-IsFrame = record {
    call_ok = λ c s h i. ((Count-IsFrame a n).call_ok c s h i.0, i.1);
    ttys_ok = λ d s i. i;
    lp_ok = λ d s i. i;
    null_ok = λ d s i. i;
  }

  pub Fresh-IsRemote : IsRemote (Fresh a addr n)
  Fresh-IsRemote = record { kind_ok = λ k s i. i; register_ok = λ d s i. i; idle_ok = λ k s i. i }

  pub Fresh-IsFlagFree : IsFlagFree (Fresh a addr n)
  Fresh-IsFlagFree = record { flag_ok = λ g s h i. ((Count-IsFlagFree a n).flag_ok g s h i.0, i.1) }
