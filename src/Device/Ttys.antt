-- ===== src/Device/Ttys.antt =====
-- src/ttys.c: the keying device on a serial port. The methods work on `cwdevice_ttys`, the only
-- device of this kind.
use cwdaemon.Base.{
  ℕ, Bool, true, false, not, ◌&&◌, Option, none, some, List, ℤ, pos, negsuc, ltb_ℤ, eqb_ℤ, ◌==◌,
  if◌then◌else◌,
}
use cwdaemon.Utils.CString.{codes, case_eq}
use cwdaemon.Utils.{
  PathResult, built, einval, enametoolong, build_full_device_path, OptT, opt_success,
  find_opt_value,
}
use cwdaemon.World.Calls.{Env, open_file, close, fstat, st_is_char, tiocmget, tiocmbis, tiocmbic}
use cwdaemon.World.State.{Device}
use cwdaemon.World.Run.{M, Void, ◌>>=◌, ◌>>◌, pure, skip, stop, gets, modify, call, perform}

-- MAXPATHLEN, the size of the buffer for a path
abbrev pub maxpathlen : ℕ
maxpathlen = 4096

-- TIOCM_DTR and TIOCM_RTS of the kernel
abbrev pub tiocm_dtr : ℕ
tiocm_dtr = 2

abbrev pub tiocm_rts : ℕ
tiocm_rts = 4

-- the call failed: it returned -1
abbrev pub failed : ℤ → Bool
failed rc = eqb_ℤ rc (negsuc 0)

unfoldable pub set_ttys : (Device → Device) → Void
set_ttys f = modify (λ s. record s { cwdevice_ttys = f s.cwdevice_ttys })

-- `goto out`
unfoldable pub give_up : ℤ → M ℤ
give_up fd = perform (close fd) >> pure (negsuc 0)

module _ (e : Env) where
  -- the checks of an open file, up to `return (fd)`
  unfoldable pub tty_check : ℤ → M ℤ
  tty_check fd = do
    stat ← call e (fstat fd)
    if failed stat then give_up fd else (do
      char ← call e (st_is_char fd)
      if eqb_ℤ char (pos 0)
          then give_up fd
          else (do m ← call e (tiocmget fd); if failed m then give_up fd else pure fd))

  -- the path that was built is opened
  unfoldable pub open_tty : PathResult → M ℤ
  unfolding tty_check
  open_tty (built nm) = do
    fd ← call e (open_file nm true)
    if failed fd then pure (negsuc 0) else tty_check fd
  open_tty einval = pure (negsuc 0)
  open_tty enametoolong = pure (negsuc 0)

  unfoldable pub tty_probe_cwdevice : List ℕ → M ℤ
  unfolding open_tty build_full_device_path
  tty_probe_cwdevice fname = open_tty (build_full_device_path true maxpathlen (some fname))

  -- `ioctl(dev->fd, onoff ? TIOCMBIS : TIOCMBIC, &pin)`, and its check
  unfoldable pub tty_set_pin : ℤ → ℕ → Bool → Void
  tty_set_pin fd pin onoff = do
    result ← call e (if onoff then tiocmbis fd pin else tiocmbic fd pin)
    if ltb_ℤ result (pos 0) then stop 1 else skip

  unfoldable pub ttys_cw : Bool → Void
  unfolding tty_set_pin
  ttys_cw onoff = do
    dev ← gets (λ s. s.cwdevice_ttys)
    if dev.key_pin == 0 then skip else tty_set_pin dev.fd dev.key_pin onoff

  unfoldable pub ttys_ptt : Bool → Void
  unfolding tty_set_pin
  ttys_ptt onoff = do
    dev ← gets (λ s. s.cwdevice_ttys)
    if dev.ptt_pin == 0 then skip else tty_set_pin dev.fd dev.ptt_pin onoff

  unfoldable pub ttys_reset_pins_state : Void
  unfolding ttys_cw ttys_ptt
  ttys_reset_pins_state = do ttys_cw false; ttys_ptt false

  unfoldable pub ttys_init : ℤ → Void
  unfolding ttys_reset_pins_state
  ttys_init fd = do set_ttys (λ d. record d { fd = fd }); ttys_reset_pins_state

  unfoldable pub ttys_close : Void
  unfolding ttys_reset_pins_state
  ttys_close = do
    ttys_reset_pins_state
    dev ← gets (λ s. s.cwdevice_ttys)
    perform (close dev.fd)
    set_ttys (λ d. record d { fd = negsuc 0 })

  -- the pin that a value of an option names
  unfoldable pub pin_of : List ℕ → Option ℕ
  unfolding case_eq
  pin_of value =
      if case_eq value (codes "dtr")
      then some tiocm_dtr
      else if case_eq value (codes "rts")
      then some tiocm_rts
      else if case_eq value (codes "none")
      then some 0
      else none

  -- The two branches of `ttys_optparse`, at the pin that the value names; the result is whether the
  -- option was parsed.
  unfoldable pub set_key_pin : Option ℕ → M Bool
  unfolding ttys_cw
  set_key_pin none = pure false
  set_key_pin (some pin) = do set_ttys (λ d. record d { key_pin = pin }); ttys_cw false; pure true

  unfoldable pub set_ptt_pin : Option ℕ → M Bool
  unfolding ttys_ptt
  set_ptt_pin none = pure false
  set_ptt_pin (some pin) = do set_ttys (λ d. record d { ptt_pin = pin }); ttys_ptt false; pure true

  -- the `else if` behind `find_opt_value(option, "key", &value)`
  unfoldable pub ptt_option : OptT → M Bool
  unfolding set_ptt_pin pin_of
  ptt_option (opt_success value) = set_ptt_pin (pin_of value)
  ptt_option _ = pure false

  unfoldable pub key_option : OptT → List ℕ → M Bool
  unfolding set_key_pin pin_of ptt_option find_opt_value
  key_option (opt_success value) option = set_key_pin (pin_of value)
  key_option _ option = ptt_option (find_opt_value option (codes "ptt"))

  unfoldable pub ttys_optparse : List ℕ → M Bool
  unfolding key_option find_opt_value
  ttys_optparse option = key_option (find_opt_value option (codes "key")) option

-- Whether `ttys_optvalidate` returns 0.
unfoldable pub ttys_optvalidate : Device → Bool
ttys_optvalidate dev =
    not (not (dev.key_pin == 0) && not (dev.ptt_pin == 0) && dev.key_pin == dev.ptt_pin)

-- `tty_init_cwdevice`: the whole structure is cleared, and the pins get their default functions.
unfoldable pub tty_init_cwdevice : Void
tty_init_cwdevice = set_ttys λ d. record {
  fd = pos 0;
  desc = some (codes "ttyS0");
  key_pin = tiocm_dtr;
  ptt_pin = tiocm_rts;
}
