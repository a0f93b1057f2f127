-- ===== src/Device/Choice.antt =====
-- The choice of the keying device by its name: `cwdaemon_cwdevice_set` of src/cwdaemon.c.
use cwdaemon.Base.{
  ℕ, ◌≡◌, refl, Bool, true, false, none, some, List, ℤ, arith, sym, subst, if◌then◌else◌,
}
use cwdaemon.Utils.{PathResult, built, einval, enametoolong}
use cwdaemon.World.Calls.{Env, Call, Kind}
use cwdaemon.World.State.{Daemon}
use cwdaemon.World.Run.{
  Outcome, ret, exit, fault, M, pure, ◌>>=◌, ◌>>◌, gets, modify, call, perform,
}
use cwdaemon.World.Keeps.{Kept, Keeps, keeps_rules, Keeps-pure}
use cwdaemon.Device.{
  device, set_desc, clear_desc, dev_init, dev_free, replace_device, take_over,
  cwdaemon_cwdevice_set,
}
use cwdaemon.Device.Ttys.{give_up, tty_check, open_tty, tty_probe_cwdevice}
use cwdaemon.Device.Lp.{lp_check, open_lp, lp_probe_cwdevice}
use cwdaemon.Device.Chosen.{
  IsChosen, dev_init-IsChosen, dev_free-IsChosen, clear_desc-IsChosen, set_desc-IsChosen,
}

-- The devices and the choice among them are as they were.
pub record IsSame (s t : Daemon) : Type 0 where
  pub choice_same : t.global_cwdevice ≡ s.global_cwdevice
  pub ttys_same : t.cwdevice_ttys ≡ s.cwdevice_ttys
  pub lp_same : t.cwdevice_lp ≡ s.cwdevice_lp
  pub null_same : t.cwdevice_null ≡ s.cwdevice_null

-- What the function's result says of the state that it leaves.
abbrev pub Settles : (Daemon → Type 0) → (Daemon → Type 0) → Outcome Bool → Type 0
Settles P Q (ret true t) = P t
Settles P Q (ret false t) = Q t
Settles P Q (exit n t) = Unit
Settles P Q (fault t) = ⊥

module _ {s : Daemon} where
  call-IsSame : (e : Env) (c : Call) → Keeps (IsSame s) (call e c)
  unfolding call
  call-IsSame e c = record { at = λ t h. ground arith }

  perform-IsSame : (c : Call) → Keeps (IsSame s) (perform c)
  unfolding perform
  perform-IsSame c = record { at = λ t h. ground arith }

  ruleset same_rules = (keeps_rules, call-IsSame, perform-IsSame)

  tty_probe-IsSame : (e : Env) (r : PathResult) → Keeps (IsSame s) (open_tty e r)
  unfolding open_tty tty_check give_up
  tty_probe-IsSame e (built nm) = search same_rules depth 14
  tty_probe-IsSame e einval = Keeps-pure _
  tty_probe-IsSame e enametoolong = Keeps-pure _

  lp_probe-IsSame : (e : Env) (r : PathResult) → Keeps (IsSame s) (open_lp e r)
  unfolding open_lp lp_check give_up
  lp_probe-IsSame e (built nm) = search same_rules depth 14
  lp_probe-IsSame e einval = Keeps-pure _
  lp_probe-IsSame e enametoolong = Keeps-pure _

Settles->>= :
    {A : Type 0} (P Q R : Daemon → Type 0) (o : Outcome A) (f : A → M Bool)
    → Kept R o
    → ((a : A) (t : Daemon) → R t → Settles P Q (f a t))
    → Settles P Q (elim o [ ret a t ↦ f a t | exit n t ↦ exit n t | fault t ↦ fault t ])
Settles->>= P Q R (ret a t) f h k = k a t h
Settles->>= P Q R (exit n t) f h k = tt
Settles->>= P Q R (fault t) f h k = h

-- The current device has the name.
abbrev pub IsCurrent : List ℕ → Daemon → Type 0
IsCurrent desc t = (device t.global_cwdevice t).desc ≡ some desc

module _ (e : Env) (desc : List ℕ) (Q : Daemon → Type 0) where
  replace_device-Settles :
      (old k : Kind) (fd : ℤ) (t : Daemon)
      → IsChosen k none t
      → Settles (IsCurrent desc) Q (replace_device e old k fd desc t)
  unfolding replace_device ◌>>=◌ ◌>>◌ pure
  replace_device-Settles old k fd t h =
      Settles->>= _ Q (IsChosen k none) (dev_free e old t) _ ((dev_free-IsChosen e old).at t h)
        (λ _ u freed.
          Settles->>= _ Q (IsChosen k none) (modify (clear_desc old) u) _
            ((clear_desc-IsChosen old).at u freed)
            (λ _ v cleared.
              Settles->>= _ Q (IsChosen k (some desc)) (modify (set_desc k desc) v) _
                ((set_desc-IsChosen k desc).at v cleared)
                (λ _ x set.
                  Settles->>= _ Q (IsChosen k (some desc)) (dev_init e k fd x) _
                    ((dev_init-IsChosen e k fd).at x set)
                    (λ _ y ready.
                      subst (λ l. (device l y).desc ≡ some desc) (sym ready.chosen) ready.named))))

  take_over-Settles :
      (k : Kind) (fd : ℤ) (t : Daemon) → Settles (IsCurrent desc) Q (take_over e k fd desc t)
  unfolding take_over ◌>>=◌ ◌>>◌ gets modify
  take_over-Settles k fd t =
      replace_device-Settles t.global_cwdevice k fd (record t { global_cwdevice = k })
        (record { chosen = refl; named = tt })

-- From every state like `s`, `m` picks a device with the name, or returns false in one like `s`.
record Picks (desc : List ℕ) (s : Daemon) (m : M Bool) : Type 0 where
  at : (t : Daemon) → IsSame s t → Settles (IsCurrent desc) (IsSame s) (m t)

module _ {desc : List ℕ} {s : Daemon} where
  Picks-false : Picks desc s (pure false)
  unfolding pure
  Picks-false = record { at = λ t h. h }

  Picks-if :
      (b : Bool) (m n : M Bool)
      → Picks desc s m
      → Picks desc s n
      → Picks desc s (if b then m else n)
  Picks-if true m n h k = h
  Picks-if false m n h k = k

  Picks->>= :
      {A : Type 0} (m : M A) (f : A → M Bool)
      → Keeps (IsSame s) m
      → ((a : A) → Picks desc s (f a))
      → Picks desc s (m >>= f)
  unfolding ◌>>=◌
  Picks->>= m f h k = record {
    at = λ t i. Settles->>= _ (IsSame s) (IsSame s) (m t) f (h.at t i) (λ a u j. (k a).at u j);
  }

  take_over-Picks : (e : Env) (k : Kind) (fd : ℤ) → Picks desc s (take_over e k fd desc)
  take_over-Picks e k fd = record { at = λ t i. take_over-Settles e desc (IsSame s) k fd t }

  cwdevice_set-Picks : (e : Env) → Picks desc s (cwdaemon_cwdevice_set e desc)
  unfolding cwdaemon_cwdevice_set tty_probe_cwdevice lp_probe_cwdevice
  cwdevice_set-Picks e =
      search
        (
          Picks-false, Picks-if, Picks->>=, take_over-Picks, tty_probe-IsSame, lp_probe-IsSame,
          call-IsSame,
        )
        depth 12

pub IsSame-refl : (s : Daemon) → IsSame s s
IsSame-refl s = record { choice_same = refl; ttys_same = refl; lp_same = refl; null_same = refl }

-- The setting of the keying device does not fault. If it succeeds, the current device has the name
-- that was asked for; if it does not, the choice and all the devices are as they were.
pub cwdevice_set-Settles :
    (e : Env) (desc : List ℕ) (s : Daemon)
    → Settles (IsCurrent desc) (IsSame s) (cwdaemon_cwdevice_set e desc s)
cwdevice_set-Settles e desc s = (cwdevice_set-Picks e).at s (IsSame-refl s)
