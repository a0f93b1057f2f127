-- ===== src/Settings/Rules.antt =====
-- What leaves the values of libcw, and the daemon's own, as they are.
use cwdaemon.Base.{◌≡◌, true, List, ◌∷◌, arith}
use cwdaemon.World.Calls.{Call}
use cwdaemon.World.State.{Params}
use cwdaemon.Frame.{IsFrame, IsRemote, IsFlagFree, is_silent}
use cwdaemon.Settings.{AreTold, IsTold, Agrees}

pub AreTold-silent :
    (p : Params) (c : Call) (t : List Call) → is_silent c ≡ true → AreTold p t → AreTold p (c ∷ t)
AreTold-silent p c t h i = ground arith

pub IsTold-silent :
    (p : Params) (c : Call) (t : List Call) → is_silent c ≡ true → IsTold p t → IsTold p (c ∷ t)
IsTold-silent p c t h i = ground arith

pub Agrees-IsFrame : IsFrame Agrees
Agrees-IsFrame = record {
  call_ok = λ c s h i o. IsTold-silent s.current c s.trace h (i o);
  ttys_ok = λ d s i. i;
  lp_ok = λ d s i. i;
  null_ok = λ d s i. i;
}

pub Agrees-IsRemote : IsRemote Agrees
Agrees-IsRemote = record { kind_ok = λ k s i. i; register_ok = λ d s i. i; idle_ok = λ k s i. i }

pub Agrees-IsFlagFree : IsFlagFree Agrees
Agrees-IsFlagFree = record { flag_ok = λ g s h i. i }
