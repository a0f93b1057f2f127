-- ===== src/Invariant/Devices.antt =====
-- The keying devices keep the invariant: it is a condition that they cannot change.
use cwdaemon.Base.{ℕ, Bool, List, ℤ, arith}
use cwdaemon.World.Calls.{Env, Kind}
use cwdaemon.World.Keeps.{Keeps}
use cwdaemon.Device.{dev_init, dev_free, dev_reset_pins_state, dev_cw, dev_ptt}
use cwdaemon.Device.Ttys.{tty_probe_cwdevice, ttys_cw, ttys_ptt}
use cwdaemon.Device.Lp.{lp_probe_cwdevice, lp_ssbway, lp_switchband, lp_footswitch}
use cwdaemon.Frame.{IsFrame}
use cwdaemon.Frame.Devices.{
  dev_init-Keeps, dev_free-Keeps, dev_reset_pins_state-Keeps, dev_cw-Keeps, dev_ptt-Keeps,
  ttys_cw-Keeps, ttys_ptt-Keeps, tty_probe_cwdevice-Keeps, lp_probe_cwdevice-Keeps, lp_ssbway-Keeps,
  lp_switchband-Keeps, lp_footswitch-Keeps,
}
use cwdaemon.Invariant.{Phase, IsSound}

module _ {e : Env} {mid : Phase} {unhooked : Bool} where
  IsSound-IsFrame : IsFrame (IsSound e mid unhooked)
  IsSound-IsFrame = record {
    call_ok = λ c s h i. ground arith;
    ttys_ok = λ d s i. ground arith;
    lp_ok = λ d s i. ground arith;
    null_ok = λ d s i. ground arith;
  }

  pub ttys_cw-IsSound : (b : Bool) → Keeps (IsSound e mid unhooked) (ttys_cw e b)
  ttys_cw-IsSound = ttys_cw-Keeps e IsSound-IsFrame

  pub ttys_ptt-IsSound : (b : Bool) → Keeps (IsSound e mid unhooked) (ttys_ptt e b)
  ttys_ptt-IsSound = ttys_ptt-Keeps e IsSound-IsFrame

  pub lp_ssbway-IsSound : (b : Bool) → Keeps (IsSound e mid unhooked) (lp_ssbway e b)
  lp_ssbway-IsSound = lp_ssbway-Keeps e IsSound-IsFrame

  pub lp_switchband-IsSound : (v : ℕ) → Keeps (IsSound e mid unhooked) (lp_switchband e v)
  lp_switchband-IsSound = lp_switchband-Keeps e IsSound-IsFrame

  pub lp_footswitch-IsSound : Keeps (IsSound e mid unhooked) (lp_footswitch e)
  lp_footswitch-IsSound = lp_footswitch-Keeps e IsSound-IsFrame

  pub tty_probe_cwdevice-IsSound :
      (fname : List ℕ) → Keeps (IsSound e mid unhooked) (tty_probe_cwdevice e fname)
  tty_probe_cwdevice-IsSound = tty_probe_cwdevice-Keeps e IsSound-IsFrame

  pub lp_probe_cwdevice-IsSound :
      (fname : List ℕ) → Keeps (IsSound e mid unhooked) (lp_probe_cwdevice e fname)
  lp_probe_cwdevice-IsSound = lp_probe_cwdevice-Keeps e IsSound-IsFrame

  pub dev_init-IsSound : (k : Kind) (fd : ℤ) → Keeps (IsSound e mid unhooked) (dev_init e k fd)
  dev_init-IsSound = dev_init-Keeps e IsSound-IsFrame

  pub dev_free-IsSound : (k : Kind) → Keeps (IsSound e mid unhooked) (dev_free e k)
  dev_free-IsSound = dev_free-Keeps e IsSound-IsFrame

  pub dev_reset_pins_state-IsSound :
      (k : Kind) → Keeps (IsSound e mid unhooked) (dev_reset_pins_state e k)
  dev_reset_pins_state-IsSound = dev_reset_pins_state-Keeps e IsSound-IsFrame

  pub dev_cw-IsSound : (k : Kind) (b : Bool) → Keeps (IsSound e mid unhooked) (dev_cw e k b)
  dev_cw-IsSound = dev_cw-Keeps e IsSound-IsFrame

  pub dev_ptt-IsSound : (k : Kind) (b : Bool) → Keeps (IsSound e mid unhooked) (dev_ptt e k b)
  dev_ptt-IsSound = dev_ptt-Keeps e IsSound-IsFrame
