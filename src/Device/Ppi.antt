-- ===== src/Device/Ppi.antt =====
-- src/lp.c, as it is built with dev/ppbus/ppi.h of FreeBSD: what differs there from Device/Lp.
use Prim.Native.Nat.{bit_and, bit_or}
use cwdaemon.Base.{
  ℕ, ◌/◌, ◌%◌, ◌-◌, ◌^◌, Bool, true, false, some, List, ℤ, pos, negsuc, eqb_ℤ, if◌then◌else◌,
  pos_part,
}
use cwdaemon.Utils.{PathResult, built, einval, enametoolong, build_full_device_path}
use cwdaemon.World.Calls.{
  Env, open_file, close, fstat, st_is_char, ppigctrl, ppigctrl_data, ppisctrl, ppisdata, ppisstatus,
}
use cwdaemon.World.Run.{M, Void, ◌>>=◌, ◌>>◌, pure, skip, stop, gets, modify, call, perform}
use cwdaemon.Device.Ttys.{maxpathlen, failed, give_up}

-- the bits of the control register in dev/ppbus/ppbconf.h
abbrev pub strobe : ℕ
strobe = 1

abbrev pub autofeed : ℕ
autofeed = 2

abbrev pub ninit : ℕ
ninit = 4

abbrev pub selectin : ℕ
selectin = 8

-- `val &= ~controlbits; val |= values;`, where `val` is an `unsigned char`
abbrev pub put_bits : ℕ → ℕ → ℕ → ℕ
put_bits controlbits values val = bit_or (bit_and val (255 - controlbits)) values % 2 ^ 8

abbrev lp_fd : M ℤ
lp_fd = gets (λ s. s.cwdevice_lp.fd)

module _ (e : Env) where
  -- the checks of an open file, up to `return (fd)`
  unfoldable pub lp_check : ℤ → M ℤ
  lp_check fd = do
    stat ← call e (fstat fd)
    if failed stat then give_up fd else (do
      char ← call e (st_is_char fd)
      if eqb_ℤ char (pos 0)
          then give_up fd
          else (do c ← call e (ppisstatus fd 0); if failed c then give_up fd else pure fd))

  -- the path that was built is opened
  unfoldable pub open_lp : PathResult → M ℤ
  unfolding lp_check
  open_lp (built nm) = do
    fd ← call e (open_file nm false)
    if failed fd then pure (negsuc 0) else lp_check fd
  open_lp einval = pure (negsuc 0)
  open_lp enametoolong = pure (negsuc 0)

  unfoldable pub lp_probe_cwdevice : List ℕ → M ℤ
  unfolding open_lp build_full_device_path
  lp_probe_cwdevice fname = open_lp (build_full_device_path true maxpathlen (some fname))

  unfoldable pub parport_control : ℤ → ℕ → ℕ → Void
  parport_control fd controlbits values = do
    got ← call e (ppigctrl fd)
    if failed got then stop 1 else skip
    val ← call e (ppigctrl_data fd)
    rc ← call e (ppisctrl fd (put_bits controlbits values (pos_part val)))
    if failed rc then stop 1 else skip

  unfoldable pub parport_write_data : ℤ → ℕ → Void
  parport_write_data fd data_byte = do
    rc ← call e (ppisdata fd data_byte)
    if failed rc then stop 1 else skip

  -- PPISSTATUS reads `data`, and leaves it
  unfoldable pub parport_read_data : ℤ → M ℕ
  parport_read_data fd = do rc ← call e (ppisstatus fd 0); if failed rc then stop 1 else pure 0

  unfoldable pub lp_cw : Bool → Void
  unfolding parport_control
  lp_cw onoff = do fd ← lp_fd; parport_control fd selectin (if onoff then 0 else selectin)

  unfoldable pub lp_ptt : Bool → Void
  unfolding parport_control
  lp_ptt onoff = do fd ← lp_fd; parport_control fd ninit (if onoff then ninit else 0)

  -- true is SOUNDCARD, false is MICROPHONE
  unfoldable pub lp_ssbway : Bool → Void
  unfolding parport_control
  lp_ssbway onoff = do fd ← lp_fd; parport_control fd autofeed (if onoff then autofeed else 0)

  unfoldable pub lp_switchband : ℕ → Void
  unfolding parport_write_data
  lp_switchband bitpattern = do fd ← lp_fd; parport_write_data fd bitpattern

  unfoldable pub lp_footswitch : M ℕ
  unfolding parport_read_data
  lp_footswitch = do
    fd ← lp_fd
    footswitch ← parport_read_data fd
    pure (bit_and footswitch 0x08 / 8)

  unfoldable pub lp_reset_pins_state : Void
  unfolding lp_cw lp_ptt lp_ssbway lp_switchband
  lp_reset_pins_state = do lp_cw false; lp_ptt false; lp_ssbway false; lp_switchband 0

  unfoldable pub lp_init : ℤ → Void
  unfolding parport_control lp_reset_pins_state
  lp_init fd = do
    parport_control fd strobe strobe
    modify (λ s. record s { cwdevice_lp = record s.cwdevice_lp { fd = fd } })
    lp_reset_pins_state

  unfoldable pub lp_free : Void
  unfolding parport_control
  lp_free = do fd ← lp_fd; parport_control fd strobe 0; perform (close fd)
