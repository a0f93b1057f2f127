-- ===== src/Liveness/Devices.antt =====
-- The keying devices do not end the process if no call of theirs returns a negative number:
-- src/ttys.c, src/lp.c, src/null.c, and `cwdaemon_cwdevice_set` of src/cwdaemon.c.
use cwdaemon.Base.{
  ℕ, ◌≡◌, Bool, false, Option, none, some, List, [], ◌∷◌, ℤ, pos, arith, ltb_ℤ, if◌then◌else◌,
}
use cwdaemon.Utils.{PathResult, built, einval, enametoolong}
use cwdaemon.World.Calls.{
  Env, Call, CallsSucceed, Kind, ttys, lp, null, tiocmbis, tiocmbic, ppfcontrol, ppwdata, pprstatus,
}
use cwdaemon.World.Run.{M, Void, ◌>>=◌, ◌>>◌, call, skip, stop}
use cwdaemon.World.Stays.{
  Stays, stays_rules, Stays-answered, Stays->>, Stays-modify, Stays-pure, Stays-skip,
}
use cwdaemon.Device.{
  dev_init, dev_free, dev_reset_pins_state, dev_cw, dev_ptt, replace_device, take_over,
  cwdaemon_cwdevice_set, cwdaemon_option_cwdevice,
}
use cwdaemon.Device.Null.{null_init, null_free, null_reset_pins_state, null_cw, null_ptt}
use cwdaemon.Device.Ttys.{
  failed, set_ttys, give_up, tty_check, open_tty, tty_probe_cwdevice, tty_set_pin, ttys_cw,
  ttys_ptt, ttys_reset_pins_state, ttys_init, ttys_close,
}
use cwdaemon.Device.Lp.{
  lp_check, open_lp, lp_probe_cwdevice, parport_control, parport_write_data, parport_read_data,
  lp_cw, lp_ptt, lp_ssbway, lp_switchband, lp_footswitch, lp_reset_pins_state, lp_init, lp_free,
}

-- An answer that is not negative is no failure.
pub answered : (rc : ℤ) → ltb_ℤ rc (pos 0) ≡ false → failed rc ≡ false
answered rc h = ground arith

module _ (e : Env) (w : CallsSucceed e) where
  -- The branch for a call that failed is not taken.
  checked-Stays :
      {A : Type 0} (c : Call) (bad : M A) (f : ℤ → M A)
      → ((rc : ℤ) → Stays (f rc))
      → Stays (call e c >>= λ rc. if failed rc then bad else f rc)
  checked-Stays c bad f h =
      Stays-answered e c (λ rc. if failed rc then bad else f rc) w
        (λ rc k. rw (answered rc k) (h rc))

  checked_then-Stays :
      {A : Type 0} (c : Call) (bad : Void) (f : M A)
      → Stays f
      → Stays (call e c >>= λ rc. (if failed rc then bad else skip) >> f)
  checked_then-Stays c bad f h =
      Stays-answered e c (λ rc. (if failed rc then bad else skip) >> f) w
        (λ rc k. rw (answered rc k) (Stays->> _ _ Stays-skip h))

  tty_set_pin-Stays : (fd : ℤ) (pin : ℕ) (b : Bool) → Stays (tty_set_pin e fd pin b)
  unfolding tty_set_pin
  tty_set_pin-Stays fd pin b =
      Stays-answered e (if b then tiocmbis fd pin else tiocmbic fd pin) _ w
        (λ rc k. rw k Stays-skip)

  ttys_cw-Stays : (b : Bool) → Stays (ttys_cw e b)
  unfolding ttys_cw
  ttys_cw-Stays b = search (stays_rules, tty_set_pin-Stays) depth 7

  ttys_ptt-Stays : (b : Bool) → Stays (ttys_ptt e b)
  unfolding ttys_ptt
  ttys_ptt-Stays b = search (stays_rules, tty_set_pin-Stays) depth 7

  ttys_pins-Stays : Stays (ttys_reset_pins_state e)
  unfolding ttys_reset_pins_state
  ttys_pins-Stays = Stays->> _ _ (ttys_cw-Stays false) (ttys_ptt-Stays false)

  ttys_init-Stays : (fd : ℤ) → Stays (ttys_init e fd)
  unfolding ttys_init set_ttys
  ttys_init-Stays fd = search (stays_rules, ttys_pins-Stays)

  ttys_close-Stays : Stays (ttys_close e)
  unfolding ttys_close set_ttys
  ttys_close-Stays = search (stays_rules, ttys_pins-Stays) depth 9

  control-Stays : (fd : ℤ) (m v : ℕ) → Stays (parport_control e fd m v)
  unfolding parport_control
  control-Stays fd m v = checked-Stays (ppfcontrol fd m v) (stop 1) (λ _. skip) (λ _. Stays-skip)

  write_data-Stays : (fd : ℤ) (v : ℕ) → Stays (parport_write_data e fd v)
  unfolding parport_write_data
  write_data-Stays fd v = checked-Stays (ppwdata fd v) (stop 1) (λ _. skip) (λ _. Stays-skip)

  read_data-Stays : (fd : ℤ) → Stays (parport_read_data e fd)
  unfolding parport_read_data
  read_data-Stays fd = checked-Stays (pprstatus fd) (stop 1) _ (λ _. search stays_rules)

  lp_cw-Stays : (b : Bool) → Stays (lp_cw e b)
  unfolding lp_cw
  lp_cw-Stays b = search (stays_rules, control-Stays)

  lp_ptt-Stays : (b : Bool) → Stays (lp_ptt e b)
  unfolding lp_ptt
  lp_ptt-Stays b = search (stays_rules, control-Stays)

  pub lp_ssbway-Stays : (b : Bool) → Stays (lp_ssbway e b)
  unfolding lp_ssbway
  lp_ssbway-Stays b = search (stays_rules, control-Stays)

  pub lp_switchband-Stays : (v : ℕ) → Stays (lp_switchband e v)
  unfolding lp_switchband
  lp_switchband-Stays v = search (stays_rules, write_data-Stays)

  pub lp_footswitch-Stays : Stays (lp_footswitch e)
  unfolding lp_footswitch
  lp_footswitch-Stays = search (stays_rules, read_data-Stays) depth 7

  lp_pins-Stays : Stays (lp_reset_pins_state e)
  unfolding lp_reset_pins_state
  lp_pins-Stays =
      search (stays_rules, lp_cw-Stays, lp_ptt-Stays, lp_ssbway-Stays, lp_switchband-Stays) depth 7

  lp_init-Stays : (fd : ℤ) → Stays (lp_init e fd)
  unfolding lp_init
  lp_init-Stays fd = checked_then-Stays _ _ _ (
      checked_then-Stays _ _ _
        (checked_then-Stays _ _ _ (search (stays_rules, control-Stays, lp_pins-Stays) depth 9)))

  lp_free-Stays : Stays (lp_free e)
  unfolding lp_free
  lp_free-Stays = search (stays_rules, control-Stays, lp_pins-Stays) depth 12

  pub dev_reset_pins_state-Stays : (k : Kind) → Stays (dev_reset_pins_state e k)
  unfolding dev_reset_pins_state null_reset_pins_state
  dev_reset_pins_state-Stays ttys = ttys_pins-Stays
  dev_reset_pins_state-Stays lp = lp_pins-Stays
  dev_reset_pins_state-Stays null = Stays-skip

  pub dev_cw-Stays : (k : Kind) (b : Bool) → Stays (dev_cw e k b)
  unfolding dev_cw null_cw
  dev_cw-Stays ttys b = ttys_cw-Stays b
  dev_cw-Stays lp b = lp_cw-Stays b
  dev_cw-Stays null b = Stays-skip

  pub dev_ptt-Stays : (k : Kind) (b : Bool) → Stays (dev_ptt e k b)
  unfolding dev_ptt null_ptt
  dev_ptt-Stays ttys b = ttys_ptt-Stays b
  dev_ptt-Stays lp b = lp_ptt-Stays b
  dev_ptt-Stays null b = Stays-skip

  dev_init-Stays : (k : Kind) (fd : ℤ) → Stays (dev_init e k fd)
  unfolding dev_init null_init
  dev_init-Stays ttys fd = ttys_init-Stays fd
  dev_init-Stays lp fd = lp_init-Stays fd
  dev_init-Stays null fd = Stays-modify _

  dev_free-Stays : (k : Kind) → Stays (dev_free e k)
  unfolding dev_free null_free
  dev_free-Stays ttys = ttys_close-Stays
  dev_free-Stays lp = lp_free-Stays
  dev_free-Stays null = Stays-skip

  tty_check-Stays : (fd : ℤ) → Stays (tty_check e fd)
  unfolding tty_check give_up
  tty_check-Stays fd = search stays_rules depth 9

  lp_check-Stays : (fd : ℤ) → Stays (lp_check e fd)
  unfolding lp_check give_up
  lp_check-Stays fd = search stays_rules depth 9

  open_tty-Stays : (r : PathResult) → Stays (open_tty e r)
  unfolding open_tty
  open_tty-Stays (built nm) = search (stays_rules, tty_check-Stays)
  open_tty-Stays einval = Stays-pure _
  open_tty-Stays enametoolong = Stays-pure _

  open_lp-Stays : (r : PathResult) → Stays (open_lp e r)
  unfolding open_lp
  open_lp-Stays (built nm) = search (stays_rules, lp_check-Stays)
  open_lp-Stays einval = Stays-pure _
  open_lp-Stays enametoolong = Stays-pure _

  take_over-Stays : (k : Kind) (fd : ℤ) (desc : List ℕ) → Stays (take_over e k fd desc)
  unfolding take_over replace_device
  take_over-Stays k fd desc = search (stays_rules, dev_init-Stays, dev_free-Stays) depth 12

  cwdevice_set-Stays : (desc : List ℕ) → Stays (cwdaemon_cwdevice_set e desc)
  unfolding cwdaemon_cwdevice_set tty_probe_cwdevice lp_probe_cwdevice
  cwdevice_set-Stays desc =
      search (stays_rules, open_tty-Stays, open_lp-Stays, take_over-Stays) depth 12

  pub option_cwdevice-Stays : (o : Option (List ℕ)) → Stays (cwdaemon_option_cwdevice e o)
  unfolding cwdaemon_option_cwdevice
  option_cwdevice-Stays none = Stays-pure _
  option_cwdevice-Stays (some []) = Stays-pure _
  option_cwdevice-Stays (some (c ∷ s)) = cwdevice_set-Stays (c ∷ s)
