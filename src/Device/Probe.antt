-- ===== src/Device/Probe.antt =====
-- What `tty_probe_cwdevice` (src/ttys.c) and `lp_probe_cwdevice` (src/lp.c) find, by the answers that
-- they get.
use cwdaemon.Base.{
  ◌≡◌, refl, Bool, true, false, some, List, ℕ, ℤ, pos, negsuc, ap, ◌∙◌, eqb_ℤ, ◌⊎◌, inl, inr,
  if◌then◌else◌,
}
use cwdaemon.Utils.{PathResult, built, einval, enametoolong, build_full_device_path}
use cwdaemon.World.Calls.{Env, Call, open_file, fstat, st_is_char, tiocmget, ppgetmode, close}
use cwdaemon.World.State.{Daemon}
use cwdaemon.World.Run.{call, M, pure, ◌>>=◌}
use cwdaemon.World.Gives.{Gives, Gives-if, Gives-pure}
use cwdaemon.Frame.{IsFrame, is_silent}
use cwdaemon.Device.Ttys.{failed, give_up, maxpathlen, tty_check, open_tty, tty_probe_cwdevice}
use cwdaemon.Device.Lp.{lp_check, open_lp, lp_probe_cwdevice}
use cwdaemon.Device.Asked.{
  Since, Asked, Asked-more, IsHistory, Asked-IsFrame, both-IsFrame, Gives-call, Gives-perform,
}

-- The two kinds of port: how they are opened, and the request that only such a port answers.
pub data Probe : Type 0 where
  tty_probe lp_probe : Probe

abbrev pub noctty : Probe → Bool
noctty tty_probe = true
noctty lp_probe = false

abbrev pub last_test : Probe → ℤ → Call
last_test tty_probe fd = tiocmget fd
last_test lp_probe fd = ppgetmode fd

abbrev pub path_of : List ℕ → PathResult
path_of desc = build_full_device_path true maxpathlen (some desc)

module _ (e : Env) (s : Daemon) (k : Probe) where
  abbrev pub Opened : List ℕ → ℤ → Daemon → Type 0
  Opened nm fd = Asked e s (open_file nm (noctty k)) (λ v. v ≡ fd)

  -- The device was opened, and passed every test.
  abbrev pub Found : PathResult → ℤ → Daemon → Type 0
  Found (built nm) fd t =
      Opened nm fd t
      × (failed fd ≡ false)
      × Asked e s (fstat fd) (λ v. failed v ≡ false) t
      × Asked e s (st_is_char fd) (λ v. eqb_ℤ v (pos 0) ≡ false) t
      × Asked e s (last_test k fd) (λ v. failed v ≡ false) t
  Found _ fd t = ⊥

  -- It has no path, could not be opened, or failed a test.
  abbrev pub Missing : PathResult → Daemon → Type 0
  Missing (built nm) t =
      Asked e s (open_file nm (noctty k)) (λ v. failed v ≡ true) t
      ⊎ ((fd : ℤ) × Opened nm fd t
          × (Asked e s (fstat fd) (λ v. failed v ≡ true) t
              ⊎ (Asked e s (st_is_char fd) (λ v. eqb_ℤ v (pos 0) ≡ true) t
                  ⊎ Asked e s (last_test k fd) (λ v. failed v ≡ true) t)))
  Missing _ t = Unit

  -- A descriptor is given for a device that was found, and else -1.
  abbrev pub Verdict : PathResult → ℤ → Daemon → Type 0
  Verdict r fd t = ((failed fd ≡ false) × Found r fd t) ⊎ ((failed fd ≡ true) × Missing r t)

  pub Found-IsHistory : (r : PathResult) (fd : ℤ) → IsHistory (Found r fd)
  Found-IsHistory (built nm) fd = record {
    grows = λ t u more q (o, works, a, x, y). (
      Asked-more t u more q o,
      works,
      Asked-more t u more q a,
      Asked-more t u more q x,
      Asked-more t u more q y,
    );
  }
  Found-IsHistory einval fd = record { grows = λ t u more q i. i }
  Found-IsHistory enametoolong fd = record { grows = λ t u more q i. i }

  pub Missing-IsHistory : (r : PathResult) → IsHistory (Missing r)
  Missing-IsHistory (built nm) = record {
    grows = λ t u more q i. elim i [
      | inl o ↦ inl (Asked-more t u more q o)
      | inr m ↦ inr (
        m.0,
        Asked-more t u more q m.1,
        elim m.2 [
          | inl a ↦ inl (Asked-more t u more q a)
          | inr n ↦ inr (elim n [
            | inl x ↦ inl (Asked-more t u more q x)
            | inr y ↦ inr (Asked-more t u more q y)
          ])
        ],
      )
    ];
  }
  Missing-IsHistory einval = record { grows = λ t u more q i. i }
  Missing-IsHistory enametoolong = record { grows = λ t u more q i. i }

-- The checks of both probes, up to their last test.
abbrev checks : Env → Probe → ℤ → M ℤ
checks e k fd = do
  stat ← call e (fstat fd)
  if failed stat then give_up fd else (do
    char ← call e (st_is_char fd)
    if eqb_ℤ char (pos 0)
        then give_up fd
        else (do m ← call e (last_test k fd); if failed m then give_up fd else pure fd))

last-is_silent : (k : Probe) (fd : ℤ) → is_silent (last_test k fd) ≡ true
last-is_silent tty_probe fd = refl
last-is_silent lp_probe fd = refl

pub Asked-as :
    {e : Env} {s : Daemon} {c : Call} (f : ℤ → Bool) (z : ℤ) (b : Bool) (t : Daemon)
    → f z ≡ b
    → Asked e s c (λ v. v ≡ z) t
    → Asked e s c (λ v. f v ≡ b) t
Asked-as f z b t q i = record {
  later = i.later;
  earlier = i.earlier;
  calls = i.calls;
  made = i.made;
  answered = ap f i.answered ∙ q;
  added = i.added;
}

module _ (e : Env) (s : Daemon) (k : Probe) {P : Daemon → Type 0} (f : IsFrame P)
    (since : (t : Daemon) → P t → Since s t) where
  give_up-Verdict :
      {R : Daemon → Type 0} (r : PathResult) (fd : ℤ)
      → IsFrame R
      → ((t : Daemon) → R t → P t × Missing e s k r t)
      → Gives R (λ z t. P t × Verdict e s k r z t) (give_up fd)
  unfolding give_up
  give_up-Verdict r fd g h =
      Gives-perform (close fd) _ g refl
        (Gives-pure (negsuc 0) (λ t i. let (p, m) = h t i in (p, inr (refl, m))))

  checks-Verdict :
      (nm : List ℕ) (fd : ℤ)
      → failed fd ≡ false
      → Gives
          (λ t. P t × Opened e s k nm fd t)
          (λ z t. P t × Verdict e s k (built nm) z t)
          (checks e k fd)
  checks-Verdict nm fd works =
      let g0 = both-IsFrame f (Asked-IsFrame e s (open_file nm (noctty k)) (λ v. v ≡ fd)) in
      Gives-call e s (fstat fd) _ g0 (λ t i. since t i.0) refl
        (λ stat.
          let g1 = both-IsFrame g0 (Asked-IsFrame e s (fstat fd) (λ v. v ≡ stat)) in
          Gives-if (failed stat) _ _
            (λ b.
              give_up-Verdict (built nm) fd g1
                (λ t ((p, o), a). (p, inr (fd, o, inl (Asked-as failed stat true t b a)))))
            (λ b.
              Gives-call e s (st_is_char fd) _ g1 (λ t i. since t i.0.0) refl
                (λ char.
                  let g2 = both-IsFrame g1 (Asked-IsFrame e s (st_is_char fd) (λ v. v ≡ char)) in
                  Gives-if (eqb_ℤ char (pos 0)) _ _
                    (λ c. give_up-Verdict (built nm) fd g2 (λ t (((p, o), a), x). (
                      p,
                      inr (fd, o, inr (inl (Asked-as (λ v. eqb_ℤ v (pos 0)) char true t c x))),
                    )))
                    (λ c.
                      Gives-call e s (last_test k fd) _ g2 (λ t i. since t i.0.0.0)
                        (last-is_silent k fd)
                        (λ m.
                          let g3 =
                            both-IsFrame g2 (Asked-IsFrame e s (last_test k fd) (λ v. v ≡ m)) in
                          Gives-if (failed m) _ _
                            (λ d. give_up-Verdict (built nm) fd g3 (λ t ((((p, o), a), x), y).
                              (p, inr (fd, o, inr (inr (Asked-as failed m true t d y))))))
                            (λ d. Gives-pure fd (λ t ((((p, o), a), x), y). (
                              p,
                              inl (
                                works,
                                (
                                  o,
                                  works,
                                  Asked-as failed stat false t b a,
                                  Asked-as (λ v. eqb_ℤ v (pos 0)) char false t c x,
                                  Asked-as failed m false t d y,
                                ),
                              ),
                            ))))))))

  -- The open of the path that was built.
  opens-Verdict :
      (nm : List ℕ)
      → Gives P
          (λ z t. P t × Verdict e s k (built nm) z t)
          (do
            fd ← call e (open_file nm (noctty k))
            if failed fd then pure (negsuc 0) else checks e k fd)
  opens-Verdict nm = Gives-call e s (open_file nm (noctty k)) _ f since refl (λ fd.
      Gives-if (failed fd) _ _
        (λ b.
          Gives-pure (negsuc 0) (λ t (p, o). (p, inr (refl, inl (Asked-as failed fd true t b o)))))
        (λ b. checks-Verdict nm fd b))

module _ (e : Env) (s : Daemon) {P : Daemon → Type 0} (f : IsFrame P)
    (since : (t : Daemon) → P t → Since s t) where
  open_tty-Verdict :
      (r : PathResult) → Gives P (λ z t. P t × Verdict e s tty_probe r z t) (open_tty e r)
  unfolding open_tty tty_check
  open_tty-Verdict (built nm) = opens-Verdict e s tty_probe f since nm
  open_tty-Verdict einval = Gives-pure (negsuc 0) (λ t p. (p, inr (refl, tt)))
  open_tty-Verdict enametoolong = Gives-pure (negsuc 0) (λ t p. (p, inr (refl, tt)))

  open_lp-Verdict :
      (r : PathResult) → Gives P (λ z t. P t × Verdict e s lp_probe r z t) (open_lp e r)
  unfolding open_lp lp_check
  open_lp-Verdict (built nm) = opens-Verdict e s lp_probe f since nm
  open_lp-Verdict einval = Gives-pure (negsuc 0) (λ t p. (p, inr (refl, tt)))
  open_lp-Verdict enametoolong = Gives-pure (negsuc 0) (λ t p. (p, inr (refl, tt)))

  pub tty-Verdict :
      (desc : List ℕ)
      → Gives P (λ z t. P t × Verdict e s tty_probe (path_of desc) z t) (tty_probe_cwdevice e desc)
  unfolding tty_probe_cwdevice
  tty-Verdict desc = open_tty-Verdict (path_of desc)

  pub lp-Verdict :
      (desc : List ℕ)
      → Gives P (λ z t. P t × Verdict e s lp_probe (path_of desc) z t) (lp_probe_cwdevice e desc)
  unfolding lp_probe_cwdevice
  lp-Verdict desc = open_lp-Verdict (path_of desc)
