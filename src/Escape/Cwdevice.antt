-- ===== src/Escape/Cwdevice.antt =====
-- The request `<ESC>8` (src/cwdaemon.c, `cwdaemon_handle_escaped_request`): the keying device and
-- the keying callback.
use cwdaemon.Base.{
  ℕ, ◌≡◌, refl, Bool, true, false, none, some, List, [], ◌∷◌, ◌⊎◌, inl, inr, arith, subst, sym,
}
use cwdaemon.World.Calls.{Env, Call, cw_register_keying_callback}
use cwdaemon.World.State.{Daemon}
use cwdaemon.World.Run.{Outcome, ret, exit, fault, ◌>>=◌, ◌>>◌, pure, gets, perform, when, skip}
use cwdaemon.World.Keeps.{Kept}
use cwdaemon.Device.{cwdaemon_option_cwdevice}
use cwdaemon.Device.Chosen.{device-trace}
use cwdaemon.Device.Choice.{IsSame-refl, IsSame, IsCurrent, Settles, cwdevice_set-Settles}
use cwdaemon.Escape.{esc_cwdevice}
use cwdaemon.Invariant.{IsIdle, IsSound, idle, keying_target}
use cwdaemon.Invariant.Replace.{unhook-IsSound, cwdaemon_option_cwdevice-IsSound}

-- What two predicates say of one outcome.
Settles-Kept :
    (P Q R : Daemon → Type 0) (o : Outcome Bool)
    → Settles P Q o
    → Kept R o
    → Settles (λ t. P t × R t) (λ t. Q t × R t) o
Settles-Kept P Q R (ret true t) h k = (h, k)
Settles-Kept P Q R (ret false t) h k = (h, k)
Settles-Kept P Q R (exit n t) h k = tt
Settles-Kept P Q R (fault t) h k = h

Settles-same :
    (P Q R : Daemon → Type 0) (o : Outcome Bool)
    → ((t : Daemon) → Q t → R t)
    → Settles P Q o
    → Settles P R o
Settles-same P Q R (ret true t) f h = h
Settles-same P Q R (ret false t) f h = f t h
Settles-same P Q R (exit n t) f h = tt
Settles-same P Q R (fault t) f h = h

option_cwdevice-Settles :
    (e : Env) (name : List ℕ) (s : Daemon)
    → Settles (IsCurrent name) (IsSame s) (cwdaemon_option_cwdevice e (some name) s)
unfolding cwdaemon_option_cwdevice pure
option_cwdevice-Settles e [] s = IsSame-refl s
option_cwdevice-Settles e (c ∷ name) s = cwdevice_set-Settles e (c ∷ name) s

-- Keying reaches the device that was asked for, or the old device is left without keying.
abbrev pub IsRehooked : List ℕ → Daemon → Daemon → Type 0
IsRehooked name s t =
    (IsCurrent name t × (keying_target t.trace ≡ some t.global_cwdevice))
    ⊎ (IsSame s t × (keying_target t.trace ≡ none))

rehook-Kept :
    (name : List ℕ) (s : Daemon) (P : Daemon → Type 0) (o : Outcome Bool)
    → ((t : Daemon) → P t → keying_target t.trace ≡ none)
    → Settles (λ t. IsCurrent name t × P t) (λ t. IsSame s t × P t) o
    → Kept (IsRehooked name s) (elim o [
      | ret changed t ↦
          (gets (λ s. s.global_cwdevice) >>= λ device.
          when changed (perform (cw_register_keying_callback (some device))))
            t
      | exit n t ↦ exit n t
      | fault t ↦ fault t
    ])
unfolding ◌>>=◌ gets when perform skip
rehook-Kept name s P (ret true t) f (h, k) =
    let calls : List Call = cw_register_keying_callback (some t.global_cwdevice) ∷ t.trace in
    inl (subst (λ d. d.desc ≡ some name) (sym (device-trace t.global_cwdevice t calls)) h, refl)
rehook-Kept name s P (ret false t) f (h, k) = inr (h, f t k)
rehook-Kept name s P (exit n t) f h = tt
rehook-Kept name s P (fault t) f h = h

unhooked : (e : Env) (t : Daemon) → IsSound e idle true t → keying_target t.trace ≡ none
unhooked e t i = ground arith

like_quiet :
    (s t : Daemon)
    → IsSame (record s { trace = cw_register_keying_callback none ∷ s.trace }) t
    → IsSame s t
like_quiet s t h = record {
  choice_same = h.choice_same;
  ttys_same = h.ttys_same;
  lp_same = h.lp_same;
  null_same = h.null_same;
}

-- A request for a keying device does not fault between two events. If it returns, either the
-- current device has the name that was asked for, and the key of libcw drives it; or the devices
-- and the choice among them are as they were, and the key of libcw drives none.
pub esc_cwdevice_lem :
    (e : Env) (name : List ℕ) (s : Daemon)
    → IsIdle e s
    → Kept (IsRehooked name s) (esc_cwdevice e name s)
unfolding esc_cwdevice ◌>>=◌ ◌>>◌ perform
esc_cwdevice_lem e name s i =
    let quiet : Daemon = record s { trace = cw_register_keying_callback none ∷ s.trace } in
    let o = cwdaemon_option_cwdevice e (some name) quiet in
    rehook-Kept name s (IsSound e idle true) o (unhooked e) (
      Settles-Kept (IsCurrent name) (IsSame s) (IsSound e idle true) o
        (Settles-same (IsCurrent name) (IsSame quiet) (IsSame s) o (λ t h. like_quiet s t h)
          (option_cwdevice-Settles e name quiet))
        ((cwdaemon_option_cwdevice-IsSound (some name)).at quiet (unhook-IsSound.at s i)))
