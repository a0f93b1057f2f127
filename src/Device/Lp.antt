-- ===== src/Device/Lp.antt =====
-- src/lp.c, as it is built with linux/ppdev.h: the keying device on a parallel port. The methods
-- work on `cwdevice_lp`, the only device of this kind.
use Prim.Native.Nat.{bit_and}
use cwdaemon.Base.{
  ℕ, ◌/◌, Bool, true, false, some, List, ℤ, pos, negsuc, eqb_ℤ, if◌then◌else◌, pos_part,
}
use cwdaemon.Utils.{PathResult, built, einval, enametoolong, build_full_device_path}
use cwdaemon.World.Calls.{
  Env, open_file, close, fstat, st_is_char, ppgetmode, ppsetmode, ppexcl, ppclaim, pprelease,
  ppfcontrol, ppwdata, pprstatus, pprstatus_data,
}
use cwdaemon.World.Run.{M, Void, ◌>>=◌, ◌>>◌, pure, skip, stop, gets, modify, call, perform}
use cwdaemon.Device.Ttys.{maxpathlen, failed, give_up}

-- PARPORT_CONTROL_* of the kernel
abbrev pub control_strobe : ℕ
control_strobe = 1

abbrev pub control_autofd : ℕ
control_autofd = 2

abbrev pub control_init : ℕ
control_init = 4

abbrev pub control_select : ℕ
control_select = 8

abbrev lp_fd : M ℤ
lp_fd = gets (λ s. s.cwdevice_lp.fd)

module _ (e : Env) where
  -- the checks of an open file, up to `return (fd)`
  unfoldable pub lp_check : ℤ → M ℤ
  lp_check fd = do
    stat ← call e (fstat fd)
    if failed stat then give_up fd else (do
      char ← call e (st_is_char fd)
      if eqb_ℤ char (pos 0)
          then give_up fd
          else (do m ← call e (ppgetmode fd); if failed m then give_up fd else pure fd))

  -- the path that was built is opened
  unfoldable pub open_lp : PathResult → M ℤ
  unfolding lp_check
  open_lp (built nm) = do
    fd ← call e (open_file nm false)
    if failed fd then pure (negsuc 0) else lp_check fd
  open_lp einval = pure (negsuc 0)
  open_lp enametoolong = pure (negsuc 0)

  unfoldable pub lp_probe_cwdevice : List ℕ → M ℤ
  unfolding open_lp build_full_device_path
  lp_probe_cwdevice fname = open_lp (build_full_device_path true maxpathlen (some fname))

  unfoldable pub parport_control : ℤ → ℕ → ℕ → Void
  parport_control fd controlbits values = do
    rc ← call e (ppfcontrol fd controlbits values)
    if failed rc then stop 1 else skip

  unfoldable pub parport_write_data : ℤ → ℕ → Void
  parport_write_data fd data_byte = do
    rc ← call e (ppwdata fd data_byte)
    if failed rc then stop 1 else skip

  -- the byte that was read; `PPRSTATUS` fills one byte
  unfoldable pub parport_read_data : ℤ → M ℕ
  parport_read_data fd = do
    rc ← call e (pprstatus fd)
    if failed rc then stop 1 else (do v ← call e (pprstatus_data fd); pure (pos_part v))

  unfoldable pub lp_cw : Bool → Void
  unfolding parport_control
  lp_cw onoff = do
    fd ← lp_fd
    parport_control fd control_select (if onoff then 0 else control_select)

  unfoldable pub lp_ptt : Bool → Void
  unfolding parport_control
  lp_ptt onoff = do fd ← lp_fd; parport_control fd control_init (if onoff then control_init else 0)

  -- true is SOUNDCARD, false is MICROPHONE
  unfoldable pub lp_ssbway : Bool → Void
  unfolding parport_control
  lp_ssbway onoff = do
    fd ← lp_fd
    parport_control fd control_autofd (if onoff then control_autofd else 0)

  unfoldable pub lp_switchband : ℕ → Void
  unfolding parport_write_data
  lp_switchband bitpattern = do fd ← lp_fd; parport_write_data fd bitpattern

  unfoldable pub lp_footswitch : M ℕ
  unfolding parport_read_data
  lp_footswitch = do
    fd ← lp_fd
    footswitch ← parport_read_data fd
    pure (bit_and footswitch 0x08 / 8)

  unfoldable pub lp_reset_pins_state : Void
  unfolding lp_cw lp_ptt lp_ssbway lp_switchband
  lp_reset_pins_state = do lp_cw false; lp_ptt false; lp_ssbway false; lp_switchband 0

  -- close(fd); exit(1)
  abbrev close_and_exit : ℤ → Void
  close_and_exit fd = perform (close fd) >> stop 1

  unfoldable pub lp_init : ℤ → Void
  unfolding parport_control lp_reset_pins_state
  lp_init fd = do
    mode ← call e (ppsetmode fd)
    if failed mode then close_and_exit fd else skip
    excl ← call e (ppexcl fd)
    if failed excl then close_and_exit fd else skip
    claim ← call e (ppclaim fd)
    if failed claim then close_and_exit fd else skip
    parport_control fd control_strobe control_strobe
    modify (λ s. record s { cwdevice_lp = record s.cwdevice_lp { fd = fd } })
    lp_reset_pins_state

  unfoldable pub lp_free : Void
  unfolding parport_control lp_reset_pins_state
  lp_free = do
    lp_reset_pins_state
    fd ← lp_fd
    parport_control fd control_strobe 0
    perform (pprelease fd)
    perform (close fd)
