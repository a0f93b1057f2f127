-- ===== src/Device/Picked.antt =====
-- Which keying device `cwdaemon_cwdevice_set` of src/cwdaemon.c picks.
use cwdaemon.Base.{
  [], ◌≡◌, refl, Bool, true, false, not, List, ℕ, ℤ, pos, eqb_ℤ, ◌⊎◌, inl, inr, subst, sym,
  if◌then◌else◌, arith,
}
use cwdaemon.Utils.{PathResult}
use cwdaemon.World.Calls.{Env, ttys, lp, null, geteuid}
use cwdaemon.World.State.{Daemon}
use cwdaemon.World.Run.{call, Outcome, ret, exit, fault, pure, ◌>>=◌}
use cwdaemon.World.Gives.{
  Gives, Gives-if, Gives-pure, Answers, Gives-Gives, Gives-first, Gives-last,
}
use cwdaemon.Device.{take_over, cwdaemon_cwdevice_set}
use cwdaemon.Device.Ttys.{failed}
use cwdaemon.Device.Asked.{
  Since, Asked, Asked-IsHistory, Since-IsHistory, IsHistory-IsFrame, both-IsHistory, Gives-call,
}
use cwdaemon.Device.Probe.{
  tty_probe, lp_probe, path_of, Found, Missing, Found-IsHistory, Missing-IsHistory, Asked-as,
  tty-Verdict, lp-Verdict,
}
use cwdaemon.Device.Choice.{IsSame, IsCurrent, Settles, cwdevice_set-Settles}
use cwdaemon.Device.Taken.{IsKind, take_over-Gives}

-- The serial port, if it is found; else the parallel port, if it is found and the process is root's;
-- and the null device if neither is found. The device is open at the descriptor that was found.
abbrev pub IsPicked : Env → List ℕ → Daemon → Daemon → Type 0
IsPicked e desc s t =
    (IsKind ttys t × Found e s tty_probe (path_of desc) t.cwdevice_ttys.fd t)
    ⊎ ((IsKind lp t
          × Missing e s tty_probe (path_of desc) t
          × Found e s lp_probe (path_of desc) t.cwdevice_lp.fd t
          × Asked e s geteuid (λ v. eqb_ℤ v (pos 0) ≡ true) t)
        ⊎ (IsKind null t
            × Missing e s tty_probe (path_of desc) t
            × Missing e s lp_probe (path_of desc) t))

-- A parallel port was found instead of a serial one, but the process is not root's.
abbrev pub IsBarred : Env → List ℕ → Daemon → Daemon → Type 0
IsBarred e desc s t =
    Missing e s tty_probe (path_of desc) t
    × ((fd : ℤ) × Found e s lp_probe (path_of desc) fd t)
    × Asked e s geteuid (λ v. eqb_ℤ v (pos 0) ≡ false) t

abbrev Decides : Env → List ℕ → Daemon → Bool → Daemon → Type 0
Decides e desc s true = IsPicked e desc s
Decides e desc s false = IsBarred e desc s

decided :
    (e : Env) (desc : List ℕ) (s t : Daemon) (b : Bool)
    → b ≡ true
    → IsPicked e desc s t
    → Decides e desc s b t
decided e desc s t true q i = i
decided e desc s t false q i = cc

found : {M F : Type 0} (b : Bool) → not b ≡ true → ((b ≡ false) × F) ⊎ ((b ≡ true) × M) → F
found b h i = elim i [ inl f ↦ f.1 | inr m ↦ absurd (ground arith) ]

missing : {M F : Type 0} (b : Bool) → not b ≡ false → ((b ≡ false) × F) ⊎ ((b ≡ true) × M) → M
missing b h i = elim i [ inl f ↦ absurd (ground arith) | inr m ↦ m.1 ]

module _ (e : Env) (desc : List ℕ) (s : Daemon) where
  abbrev r : PathResult
  r = path_of desc

  ttys-Decides :
      (fd : ℤ)
      → Gives
          (λ t. Since s t × Found e s tty_probe r fd t)
          (Decides e desc s)
          (take_over e ttys fd desc)
  ttys-Decides fd =
      Gives-last
        (λ b t (q, i, g, d).
          decided e desc s t b q (inl (g, subst (λ z. Found e s tty_probe r z t) (sym d) i.1)))
        (take_over-Gives e ttys fd desc
          (both-IsHistory (Since-IsHistory s) (Found-IsHistory e s tty_probe r fd)))

  null-Decides :
      (fd : ℤ)
      → Gives
          (λ t. Missing e s tty_probe r t × Missing e s lp_probe r t)
          (Decides e desc s)
          (take_over e null fd desc)
  null-Decides fd =
      Gives-last (λ b t (q, i, g, d). decided e desc s t b q (inr (inr (g, i.0, i.1))))
        (take_over-Gives e null fd desc
          (both-IsHistory (Missing-IsHistory e s tty_probe r) (Missing-IsHistory e s lp_probe r)))

  lp-Decides :
      (fd : ℤ)
      → Gives
          (λ t. (Since s t × Missing e s tty_probe r t) × Found e s lp_probe r fd t)
          (Decides e desc s)
          (do
            euid ← call e geteuid
            if not (eqb_ℤ euid (pos 0)) then pure false else take_over e lp fd desc)
  lp-Decides fd =
      let h =
        both-IsHistory (both-IsHistory (Since-IsHistory s) (Missing-IsHistory e s tty_probe r))
          (Found-IsHistory e s lp_probe r fd) in
      Gives-call e s geteuid _ (IsHistory-IsFrame h) (λ t i. i.0.0) refl
        (λ euid.
          Gives-if (not (eqb_ℤ euid (pos 0))) _ _
            (λ b. Gives-pure false (λ t (((i, m), f), a).
              (m, (fd, f), Asked-as (λ v. eqb_ℤ v (pos 0)) euid false t (ground arith) a)))
            (λ b.
              Gives-last
                (λ c t (q, ((i, f), a), g, d). decided e desc s t c q (
                  inr (
                    inl (
                      g,
                      i.1,
                      subst (λ z. Found e s lp_probe r z t) (sym d) f,
                      Asked-as (λ v. eqb_ℤ v (pos 0)) euid true t (ground arith) a,
                    ))))
                (take_over-Gives e lp fd desc (both-IsHistory h (Asked-IsHistory e s geteuid _)))))

  set-Decides : Gives (Since s) (Decides e desc s) (cwdaemon_cwdevice_set e desc)
  unfolding cwdaemon_cwdevice_set
  set-Decides =
      Gives-Gives _ _ _ _ _
        (tty-Verdict e s (IsHistory-IsFrame (Since-IsHistory s)) (λ t i. i) desc)
        (λ tty_fd.
          Gives-if (not (failed tty_fd)) _ _
            (λ b. Gives-first (λ t (i, v). (i, found (failed tty_fd) b v)) (ttys-Decides tty_fd))
            (λ b.
              let h = both-IsHistory (Since-IsHistory s) (Missing-IsHistory e s tty_probe r) in
              Gives-first (λ t (i, v). (i, missing (failed tty_fd) b v))
                (Gives-Gives _ _ _ _ _ (lp-Verdict e s (IsHistory-IsFrame h) (λ t i. i.0) desc)
                  (λ lp_fd.
                    Gives-if (not (failed lp_fd)) _ _
                      (λ c.
                        Gives-first (λ t (i, v). (i, found (failed lp_fd) c v)) (lp-Decides lp_fd))
                      (λ c.
                        Gives-first (λ t (i, v). (i.1, missing (failed lp_fd) c v))
                          (null-Decides _))))))

Settles-Decides :
    (e : Env) (desc : List ℕ) (s : Daemon) (P Q : Daemon → Type 0) (o : Outcome Bool)
    → Settles P Q o
    → Answers (Decides e desc s) o
    → Settles (λ t. P t × IsPicked e desc s t) (λ t. Q t × IsBarred e desc s t) o
Settles-Decides e desc s P Q (ret true t) h k = (h, k)
Settles-Decides e desc s P Q (ret false t) h k = (h, k)
Settles-Decides e desc s P Q (exit n t) h k = tt
Settles-Decides e desc s P Q (fault t) h k = h

-- The setting of the keying device does not fault. If it succeeds, the current device has the name
-- that was asked for, and is the serial port of this name if there is one, else the parallel port,
-- for root alone, and the null device if there is neither; there is one if it could be opened and
-- passed each test. If it does not succeed, the choice and all the devices are as they were, and
-- there is a parallel port, but the process is not root's. A device whose calls fail ends the
-- process instead.
pub cwdevice_set_lem :
    (e : Env) (desc : List ℕ) (s : Daemon)
    → Settles
        (λ t. IsCurrent desc t × IsPicked e desc s t)
        (λ t. IsSame s t × IsBarred e desc s t)
        (cwdaemon_cwdevice_set e desc s)
cwdevice_set_lem e desc s =
    Settles-Decides e desc s (IsCurrent desc) (IsSame s) (cwdaemon_cwdevice_set e desc s)
      (cwdevice_set-Settles e desc s)
      ((set-Decides e desc s).at s (record { calls = []; added = refl }))
