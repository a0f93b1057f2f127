-- ===== src/Frame/Devices.antt =====
-- No method of a keying device touches the rest of the globals, nor ends outside of its calls.
use cwdaemon.Base.{ℕ, Bool, List, ℤ}
use cwdaemon.World.Calls.{Env, Kind, ttys, lp, null}
use cwdaemon.World.Keeps.{Keeps}
use cwdaemon.Utils.{PathResult, built, einval, enametoolong}
use cwdaemon.Device.{dev_init, dev_free, dev_reset_pins_state, dev_cw, dev_ptt}
use cwdaemon.Device.Null.{null_init, null_free, null_reset_pins_state, null_cw, null_ptt}
use cwdaemon.Device.Ttys.{
  give_up, tty_check, open_tty, tty_probe_cwdevice, tty_set_pin, ttys_cw, ttys_ptt,
  ttys_reset_pins_state, ttys_init, ttys_close,
}
use cwdaemon.Device.Lp.{
  lp_check, open_lp, lp_probe_cwdevice, parport_control, parport_write_data, parport_read_data,
  lp_cw, lp_ptt, lp_ssbway, lp_switchband, lp_footswitch, lp_reset_pins_state, lp_init, lp_free,
}
use cwdaemon.World.State.{Daemon}
use cwdaemon.Frame.{IsFrame, frame_rules}

module _ {P : Daemon → Type 0} (f : IsFrame P) where
  give_up-Keeps : (fd : ℤ) → Keeps P (give_up fd)
  unfolding give_up
  give_up-Keeps fd = search frame_rules

module _ (e : Env) {P : Daemon → Type 0} (f : IsFrame P) where
  tty_check-Keeps : (fd : ℤ) → Keeps P (tty_check e fd)
  unfolding tty_check
  tty_check-Keeps fd = search (frame_rules, give_up-Keeps) depth 9

  tty_set_pin-Keeps : (fd : ℤ) (pin : ℕ) (b : Bool) → Keeps P (tty_set_pin e fd pin b)
  unfolding tty_set_pin
  tty_set_pin-Keeps fd pin b = search frame_rules

  pub ttys_cw-Keeps : (b : Bool) → Keeps P (ttys_cw e b)
  unfolding ttys_cw
  ttys_cw-Keeps b = search (frame_rules, tty_set_pin-Keeps) depth 7

  pub ttys_ptt-Keeps : (b : Bool) → Keeps P (ttys_ptt e b)
  unfolding ttys_ptt
  ttys_ptt-Keeps b = search (frame_rules, tty_set_pin-Keeps) depth 7

  pub ttys_reset_pins_state-Keeps : Keeps P (ttys_reset_pins_state e)
  unfolding ttys_reset_pins_state
  ttys_reset_pins_state-Keeps = search (frame_rules, ttys_cw-Keeps, ttys_ptt-Keeps)

  pub ttys_init-Keeps : (fd : ℤ) → Keeps P (ttys_init e fd)
  unfolding ttys_init
  ttys_init-Keeps fd = search (frame_rules, ttys_reset_pins_state-Keeps)

  pub ttys_close-Keeps : Keeps P (ttys_close e)
  unfolding ttys_close
  ttys_close-Keeps = search (frame_rules, ttys_reset_pins_state-Keeps) depth 9

  pub lp_check-Keeps : (fd : ℤ) → Keeps P (lp_check e fd)
  unfolding lp_check
  lp_check-Keeps fd = search (frame_rules, give_up-Keeps) depth 9

  pub parport_control-Keeps : (fd : ℤ) (m v : ℕ) → Keeps P (parport_control e fd m v)
  unfolding parport_control
  parport_control-Keeps fd m v = search (frame_rules)

  pub parport_write_data-Keeps : (fd : ℤ) (v : ℕ) → Keeps P (parport_write_data e fd v)
  unfolding parport_write_data
  parport_write_data-Keeps fd v = search (frame_rules)

  pub parport_read_data-Keeps : (fd : ℤ) → Keeps P (parport_read_data e fd)
  unfolding parport_read_data
  parport_read_data-Keeps fd = search (frame_rules) depth 7

  pub lp_cw-Keeps : (b : Bool) → Keeps P (lp_cw e b)
  unfolding lp_cw
  lp_cw-Keeps b = search (frame_rules, parport_control-Keeps)

  pub lp_ptt-Keeps : (b : Bool) → Keeps P (lp_ptt e b)
  unfolding lp_ptt
  lp_ptt-Keeps b = search (frame_rules, parport_control-Keeps)

  pub lp_ssbway-Keeps : (b : Bool) → Keeps P (lp_ssbway e b)
  unfolding lp_ssbway
  lp_ssbway-Keeps b = search (frame_rules, parport_control-Keeps)

  pub lp_switchband-Keeps : (v : ℕ) → Keeps P (lp_switchband e v)
  unfolding lp_switchband
  lp_switchband-Keeps v = search (frame_rules, parport_write_data-Keeps)

  pub lp_footswitch-Keeps : Keeps P (lp_footswitch e)
  unfolding lp_footswitch
  lp_footswitch-Keeps = search (frame_rules, parport_read_data-Keeps) depth 7

  pub lp_reset_pins_state-Keeps : Keeps P (lp_reset_pins_state e)
  unfolding lp_reset_pins_state
  lp_reset_pins_state-Keeps =
      search (frame_rules, lp_cw-Keeps, lp_ptt-Keeps, lp_ssbway-Keeps, lp_switchband-Keeps) depth 7

  pub lp_init-Keeps : (fd : ℤ) → Keeps P (lp_init e fd)
  unfolding lp_init
  lp_init-Keeps fd = search (frame_rules, parport_control-Keeps, lp_reset_pins_state-Keeps) depth 16

  pub lp_free-Keeps : Keeps P (lp_free e)
  unfolding lp_free
  lp_free-Keeps = search (frame_rules, parport_control-Keeps, lp_reset_pins_state-Keeps) depth 12

  open_tty-Keeps : (r : PathResult) → Keeps P (open_tty e r)
  unfolding open_tty
  open_tty-Keeps (built nm) = search (frame_rules, tty_check-Keeps)
  open_tty-Keeps einval = search frame_rules
  open_tty-Keeps enametoolong = search frame_rules

  pub tty_probe_cwdevice-Keeps : (fname : List ℕ) → Keeps P (tty_probe_cwdevice e fname)
  unfolding tty_probe_cwdevice
  tty_probe_cwdevice-Keeps fname = open_tty-Keeps _

  open_lp-Keeps : (r : PathResult) → Keeps P (open_lp e r)
  unfolding open_lp
  open_lp-Keeps (built nm) = search (frame_rules, lp_check-Keeps)
  open_lp-Keeps einval = search frame_rules
  open_lp-Keeps enametoolong = search frame_rules

  pub lp_probe_cwdevice-Keeps : (fname : List ℕ) → Keeps P (lp_probe_cwdevice e fname)
  unfolding lp_probe_cwdevice
  lp_probe_cwdevice-Keeps fname = open_lp-Keeps _

  pub dev_init-Keeps : (k : Kind) (fd : ℤ) → Keeps P (dev_init e k fd)
  unfolding dev_init null_init
  dev_init-Keeps ttys fd = ttys_init-Keeps fd
  dev_init-Keeps lp fd = lp_init-Keeps fd
  dev_init-Keeps null fd = search (frame_rules)

  pub dev_free-Keeps : (k : Kind) → Keeps P (dev_free e k)
  unfolding dev_free null_free
  dev_free-Keeps ttys = ttys_close-Keeps
  dev_free-Keeps lp = lp_free-Keeps
  dev_free-Keeps null = search (frame_rules)

  pub dev_reset_pins_state-Keeps : (k : Kind) → Keeps P (dev_reset_pins_state e k)
  unfolding dev_reset_pins_state null_reset_pins_state
  dev_reset_pins_state-Keeps ttys = ttys_reset_pins_state-Keeps
  dev_reset_pins_state-Keeps lp = lp_reset_pins_state-Keeps
  dev_reset_pins_state-Keeps null = search (frame_rules)

  pub dev_cw-Keeps : (k : Kind) (b : Bool) → Keeps P (dev_cw e k b)
  unfolding dev_cw null_cw
  dev_cw-Keeps ttys b = ttys_cw-Keeps b
  dev_cw-Keeps lp b = lp_cw-Keeps b
  dev_cw-Keeps null b = search (frame_rules)

  pub dev_ptt-Keeps : (k : Kind) (b : Bool) → Keeps P (dev_ptt e k b)
  unfolding dev_ptt null_ptt
  dev_ptt-Keeps ttys b = ttys_ptt-Keeps b
  dev_ptt-Keeps lp b = lp_ptt-Keeps b
  dev_ptt-Keeps null b = search (frame_rules)
