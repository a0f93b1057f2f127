-- ===== src/Device.antt =====
-- The methods of a `cwdevice` by its kind (src/cwdaemon.h, and the initialisers in src/cwdaemon.c
-- and src/ttys.c), and the choice of the keying device (`cwdaemon_cwdevice_set`).
pub mod Null
pub mod Ttys
pub mod Lp
pub mod Lines
pub mod Port
pub mod Ppi
pub mod Register
pub mod Builds
pub mod Chosen
pub mod Choice
pub mod Asked
pub mod Probe
pub mod Taken
pub mod Picked
use cwdaemon.Base.{
  ℕ, Bool, true, false, not, Option, none, some, List, [], ◌∷◌, ℤ, pos, negsuc, eqb_ℤ,
  if◌then◌else◌,
}
use cwdaemon.Utils.CString.{codes}
use cwdaemon.World.Calls.{Kind, ttys, lp, null, Call, Env, geteuid}
use cwdaemon.World.State.{Daemon, Device}
use cwdaemon.World.Run.{M, Void, ◌>>=◌, ◌>>◌, pure, skip, gets, modify, call}
use Null.{null_probe_cwdevice, null_init, null_free, null_reset_pins_state, null_cw, null_ptt}
use Ttys.{
  failed, tty_probe_cwdevice, tty_init_cwdevice, ttys_init, ttys_close, ttys_reset_pins_state,
  ttys_cw, ttys_ptt, ttys_optparse, ttys_optvalidate,
}
use Lp.{
  lp_probe_cwdevice, lp_init, lp_free, lp_reset_pins_state, lp_cw, lp_ptt, lp_ssbway, lp_switchband,
  lp_footswitch,
}

abbrev pub device : Kind → Daemon → Device
device ttys s = s.cwdevice_ttys
device lp s = s.cwdevice_lp
device null s = s.cwdevice_null

abbrev pub set_desc : Kind → List ℕ → Daemon → Daemon
set_desc ttys d s = record s { cwdevice_ttys = record s.cwdevice_ttys { desc = some d } }
set_desc lp d s = record s { cwdevice_lp = record s.cwdevice_lp { desc = some d } }
set_desc null d s = record s { cwdevice_null = record s.cwdevice_null { desc = some d } }

abbrev pub clear_desc : Kind → Daemon → Daemon
clear_desc ttys s = record s { cwdevice_ttys = record s.cwdevice_ttys { desc = none } }
clear_desc lp s = record s { cwdevice_lp = record s.cwdevice_lp { desc = none } }
clear_desc null s = record s { cwdevice_null = record s.cwdevice_null { desc = none } }

module _ (e : Env) where
  unfoldable pub dev_init : Kind → ℤ → Void
  unfolding ttys_init lp_init null_init
  dev_init ttys fd = ttys_init e fd
  dev_init lp fd = lp_init e fd
  dev_init null fd = null_init fd

  unfoldable pub dev_free : Kind → Void
  unfolding ttys_close lp_free null_free
  dev_free ttys = ttys_close e
  dev_free lp = lp_free e
  dev_free null = null_free

  unfoldable pub dev_reset_pins_state : Kind → Void
  unfolding ttys_reset_pins_state lp_reset_pins_state null_reset_pins_state
  dev_reset_pins_state ttys = ttys_reset_pins_state e
  dev_reset_pins_state lp = lp_reset_pins_state e
  dev_reset_pins_state null = null_reset_pins_state

  unfoldable pub dev_cw : Kind → Bool → Void
  unfolding ttys_cw lp_cw null_cw
  dev_cw ttys onoff = ttys_cw e onoff
  dev_cw lp onoff = lp_cw e onoff
  dev_cw null onoff = null_cw onoff

  unfoldable pub dev_ptt : Kind → Bool → Void
  unfolding ttys_ptt lp_ptt null_ptt
  dev_ptt ttys onoff = ttys_ptt e onoff
  dev_ptt lp onoff = lp_ptt e onoff
  dev_ptt null onoff = null_ptt onoff

  unfoldable pub dev_ssbway : Kind → Option (Bool → Void)
  unfolding lp_ssbway
  dev_ssbway lp = some (lp_ssbway e)
  dev_ssbway _ = none

  unfoldable pub dev_switchband : Kind → Option (ℕ → Void)
  unfolding lp_switchband
  dev_switchband lp = some (lp_switchband e)
  dev_switchband _ = none

  unfoldable pub dev_footswitch : Kind → Option (M ℕ)
  unfolding lp_footswitch
  dev_footswitch lp = some (lp_footswitch e)
  dev_footswitch _ = none

  unfoldable pub dev_optparse : Kind → Option (List ℕ → M Bool)
  unfolding ttys_optparse
  dev_optparse ttys = some (ttys_optparse e)
  dev_optparse _ = none

  -- From `old_device->free` on: the device `kind` takes over from `old`. `strdup` is taken to
  -- succeed.
  unfoldable pub replace_device : Kind → Kind → ℤ → List ℕ → M Bool
  unfolding dev_free dev_init
  replace_device old kind fd desc = do
    dev_free old
    modify (clear_desc old)
    modify (set_desc kind desc)
    dev_init kind fd
    pure true

  -- `*device = &cwdevice_…`, where `device` is `&global_cwdevice`, and the rest of the function
  unfoldable pub take_over : Kind → ℤ → List ℕ → M Bool
  unfolding replace_device
  take_over kind fd desc = do
    old_device ← gets (λ s. s.global_cwdevice)
    modify (λ s. record s { global_cwdevice = kind })
    replace_device old_device kind fd desc

  -- `cwdaemon_cwdevice_set`
  unfoldable pub cwdaemon_cwdevice_set : List ℕ → M Bool
  unfolding take_over tty_probe_cwdevice lp_probe_cwdevice null_probe_cwdevice
  cwdaemon_cwdevice_set desc = do
    tty_fd ← tty_probe_cwdevice e desc
    if not (failed tty_fd) then take_over ttys tty_fd desc else (do
      lp_fd ← lp_probe_cwdevice e desc
      if not (failed lp_fd)
          then (do
            euid ← call e geteuid
            if not (eqb_ℤ euid (pos 0)) then pure false else take_over lp lp_fd desc)
          else take_over null (null_probe_cwdevice desc) desc)

  -- `cwdaemon_option_cwdevice` of src/options.c; the result is whether it returns 0
  unfoldable pub cwdaemon_option_cwdevice : Option (List ℕ) → M Bool
  unfolding cwdaemon_cwdevice_set
  cwdaemon_option_cwdevice none = pure false
  cwdaemon_option_cwdevice (some []) = pure false
  cwdaemon_option_cwdevice (some (c ∷ s)) = cwdaemon_cwdevice_set (c ∷ s)

  -- `cwdaemon_cwdevice_free`
  unfoldable pub cwdaemon_cwdevice_free : Void
  unfolding dev_free
  cwdaemon_cwdevice_free = do k ← gets (λ s. s.global_cwdevice); dev_free k

-- Whether `options.optvalidate` is NULL or returns 0.
unfoldable pub dev_optvalidate : Kind → Daemon → Bool
unfolding ttys_optvalidate
dev_optvalidate ttys s = ttys_optvalidate s.cwdevice_ttys
dev_optvalidate _ s = true

-- `cwdaemon_cwdevices_init`, on Linux with ppdev; it does not fail if `strdup` does not.
unfoldable pub cwdaemon_cwdevices_init : Void
unfolding tty_init_cwdevice
cwdaemon_cwdevices_init = do
  modify (set_desc lp (codes "parport0"))
  tty_init_cwdevice
  modify (set_desc null (codes "null"))

-- `cwdaemon_cwdevices_free`
unfoldable pub cwdaemon_cwdevices_free : Void
cwdaemon_cwdevices_free = modify (λ s. clear_desc lp (clear_desc null (clear_desc ttys s)))

-- `cwdaemon_cwdevice_init`
unfoldable pub cwdaemon_cwdevice_init : Void
cwdaemon_cwdevice_init = modify (λ s. record s { global_cwdevice = null })
