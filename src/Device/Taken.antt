-- ===== src/Device/Taken.antt =====
-- What `replace_device`, the end of `cwdaemon_cwdevice_set` of src/cwdaemon.c, makes of the device
-- that takes over.
use cwdaemon.Base.{[], ◌∷◌, ap, ◌∙◌, ◌≡◌, refl, true, List, ℕ, ℤ}
use cwdaemon.World.Calls.{Env, Call, Kind, ttys, lp, null}
use cwdaemon.World.State.{Daemon}
use cwdaemon.World.Run.{call, modify}
use cwdaemon.World.Gives.{Gives, Gives->>=, Gives-pure, Gives->>}
use cwdaemon.World.Yields.{
  Takes, Holds, Keeps-Holds, holds_rules, Takes->>, Takes-modify, after->>, after->>=, Yields-both,
  Holds-gets,
}
use cwdaemon.Frame.{IsFrame}
use cwdaemon.Frame.Devices.{dev_init-Keeps, dev_free-Keeps}
use cwdaemon.Device.{device, set_desc, clear_desc, dev_init, replace_device, take_over}
use cwdaemon.Device.Null.{null_init}
use cwdaemon.Device.Ttys.{
  set_ttys, tty_set_pin, ttys_cw, ttys_ptt, ttys_reset_pins_state, ttys_init,
}
use cwdaemon.Device.Lp.{
  parport_control, parport_write_data, lp_cw, lp_ptt, lp_ssbway, lp_switchband, lp_reset_pins_state,
  lp_init,
}
use cwdaemon.Device.Asked.{IsHistory, IsHistory-IsFrame, both-IsFrame}
use cwdaemon.Device.Chosen.{device-trace}

-- The device of the kind is open at the descriptor.
abbrev pub HasFd : Kind → ℤ → Daemon → Type 0
HasFd k fd t = (device k t).fd ≡ fd

module _ (k : Kind) (fd : ℤ) where
  call-HasFd : (e : Env) (c : Call) → Holds (HasFd k fd) (call e c)
  unfolding call
  call-HasFd e c = record { at = λ t h. ap (λ d. d.fd) (device-trace k t (c ∷ t.trace)) ∙ h }

module _ (e : Env) where
  ttys_pins-HasFd : (fd : ℤ) → Holds (HasFd ttys fd) (ttys_reset_pins_state e)
  unfolding ttys_reset_pins_state ttys_cw ttys_ptt tty_set_pin
  ttys_pins-HasFd fd = search (holds_rules, call-HasFd ttys fd) depth 12

  lp_pins-HasFd : (fd : ℤ) → Holds (HasFd lp fd) (lp_reset_pins_state e)
  unfolding lp_reset_pins_state lp_cw lp_ptt lp_ssbway lp_switchband parport_control
      parport_write_data
  lp_pins-HasFd fd = search (holds_rules, call-HasFd lp fd) depth 14

  init-HasFd : (k : Kind) (fd : ℤ) → Takes (λ _. Unit) (HasFd k fd) (dev_init e k fd)
  unfolding dev_init ttys_init lp_init null_init set_ttys
  init-HasFd ttys fd =
      Takes->> _ (HasFd ttys fd) _ _ _ (Takes-modify _ (λ s i. refl)) (ttys_pins-HasFd fd)
  init-HasFd lp fd = after->>= _ _ (λ mode. after->> _ _ (
      after->>= _ _ (λ excl. after->> _ _ (
        after->>= _ _ (λ claim. after->> _ _ (
          after->> _ _
            (Takes->> _ (HasFd lp fd) _ _ _ (Takes-modify _ (λ s i. refl)) (lp_pins-HasFd fd))))))))
  init-HasFd null fd = Takes-modify _ (λ s i. refl)

-- The kind is the current one.
abbrev pub IsKind : Kind → Daemon → Type 0
IsKind k t = t.global_cwdevice ≡ k

IsKind-IsFrame : (k : Kind) → IsFrame (IsKind k)
IsKind-IsFrame k = record {
  call_ok = λ c t h i. i;
  ttys_ok = λ d t i. i;
  lp_ok = λ d t i. i;
  null_ok = λ d t i. i;
}

module _ {P : Daemon → Type 0} (f : IsFrame P) where
  set_desc-Holds : (k : Kind) (d : List ℕ) → Holds P (modify (set_desc k d))
  unfolding modify
  set_desc-Holds ttys d = record { at = λ t i. f.ttys_ok _ t i }
  set_desc-Holds lp d = record { at = λ t i. f.lp_ok _ t i }
  set_desc-Holds null d = record { at = λ t i. f.null_ok _ t i }

  clear_desc-Holds : (k : Kind) → Holds P (modify (clear_desc k))
  unfolding modify
  clear_desc-Holds ttys = record { at = λ t i. f.ttys_ok _ t i }
  clear_desc-Holds lp = record { at = λ t i. f.lp_ok _ t i }
  clear_desc-Holds null = record { at = λ t i. f.null_ok _ t i }

-- A device takes over: it is the current one, and open at the descriptor.
pub take_over-Gives :
    (e : Env) {P : Daemon → Type 0} (k : Kind) (fd : ℤ) (desc : List ℕ)
    → IsHistory P
    → Gives P (λ b t. (b ≡ true) × P t × IsKind k t × HasFd k fd t) (take_over e k fd desc)
unfolding take_over replace_device
take_over-Gives e {P = P} k fd desc h =
    let f = both-IsFrame (IsHistory-IsFrame h) (IsKind-IsFrame k) in
    Gives->>= _ P _ _ _ (Holds-gets _) (λ old.
      Gives->> _ (λ t. P t × IsKind k t) _ _ _
        (Takes-modify _ (λ t i. (h.grows t _ [] refl i, refl)))
        (Gives->> _ (λ t. P t × IsKind k t) _ _ _ (Keeps-Holds (dev_free-Keeps e f old))
          (Gives->> _ (λ t. P t × IsKind k t) _ _ _ (clear_desc-Holds f old)
            (Gives->> _ (λ t. P t × IsKind k t) _ _ _ (set_desc-Holds f k desc)
              (Gives->> _ (λ t. (P t × IsKind k t) × HasFd k fd t) _ _ _
                (record {
                  at = λ t i.
                      Yields-both _ _ (λ t. (P t × IsKind k t) × HasFd k fd t) (dev_init e k fd t)
                        (λ u a b. (a, b)) ((Keeps-Holds (dev_init-Keeps e f k fd)).at t i)
                        ((init-HasFd e k fd).at t tt);
                })
                (Gives-pure true (λ t ((p, g), d). (refl, p, g, d))))))))
