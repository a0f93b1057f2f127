-- ===== src/World/Calls.antt =====
-- What the daemon asks of libcw, of the kernel and of the network: the calls, and the answers as a
-- parameter. None of that code is in the repository.
use cwdaemon.Base.{ℕ, ◌≡◌, Bool, false, Option, List, ℤ, pos, ltb_ℤ, InRange}

-- CW_AUDIO_* of libcw.h
pub data AudioSystem : Type 0 where
  audio_null audio_console audio_oss audio_alsa audio_pa audio_soundcard : AudioSystem

-- CW_DEBUG_* of libcw.h
pub data DebugLevel : Type 0 where
  debug_none debug_error debug_warning debug_info debug_debug : DebugLevel

-- The three keying devices, `cwdevice_ttys`, `cwdevice_lp` and `cwdevice_null`.
pub data Kind : Type 0 where
  ttys lp null : Kind

-- A client's address, as `struct sockaddr_in` holds it.
abbrev pub Address : Type 0
Address = ℕ

pub data Call : Type 0 where
  cw_generator_new : AudioSystem → Call
  cw_generator_start cw_generator_stop cw_generator_delete : Call
  -- the callback is always `cwdaemon_tone_queue_low_callback`; the number is the watermark
  cw_register_tone_queue_low_callback : ℕ → Call
  -- `cwdaemon_keyingevent` with its device, or NULL
  cw_register_keying_callback : Option Kind → Call
  cw_set_frequency cw_set_send_speed cw_set_volume cw_set_weighting : ℤ → Call
  cw_set_gap : ℕ → Call
  cw_get_gap cw_get_tone_queue_length cw_flush_tone_queue cw_wait_for_tone_queue : Call
  -- length in microseconds, and frequency
  cw_queue_tone : ℕ → ℤ → Call
  cw_send_character : ℕ → Call
  -- open(path, flags): whether O_NOCTTY is among the flags
  open_file : List ℕ → Bool → Call
  close : ℤ → Call
  fstat : ℤ → Call
  -- ioctl(fd, TIOCMGET), and ioctl(fd, TIOCMBIS/TIOCMBIC, &pins)
  tiocmget : ℤ → Call
  tiocmbis tiocmbic : ℤ → ℕ → Call
  ppgetmode ppsetmode ppexcl ppclaim pprelease : ℤ → Call
  -- ioctl(fd, PPFCONTROL): mask and value
  ppfcontrol : ℤ → ℕ → ℕ → Call
  ppwdata : ℤ → ℕ → Call
  -- ioctl(fd, PPRSTATUS): its result, and the byte that it reads
  pprstatus pprstatus_data : ℤ → Call
  -- on FreeBSD: ioctl(fd, PPIGCTRL) and the byte that it stores; ioctl(fd, PPISCTRL, PPISDATA or
  -- PPISSTATUS) with the byte that is handed over, which these three do not change
  ppigctrl ppigctrl_data : ℤ → Call
  ppisctrl ppisdata ppisstatus : ℤ → ℕ → Call
  geteuid : Call
  -- the file type that `fstat` found: 0 if it is not a character device
  st_is_char : ℤ → Call
  sendto : ℤ → Address → List ℕ → Call
  socket bind_socket : Call
  fcntl_getfl fcntl_setfl : ℤ → Call
  setpriority : ℤ → Call
  -- fopen(path, "w+"), where 0 is NULL, and fclose of that file
  fopen : List ℕ → Call
  fclose : Call
  -- what the process does to run in the background; umask(0), openlog
  fork setsid umask openlog : Call
  chdir : List ℕ → Call
  -- dup2(fd, fileno)
  dup2 : ℤ → ℕ → Call
  -- cw_debug_set_flags of libcw, and the level that is stored in its debug object
  cw_debug_set_flags : ℕ → Call
  cw_debug_level : DebugLevel → Call
  -- signal(SIGINT, cwdaemon_catch_sigint)
  signal_sigint : Call
  -- milliseconds, by `millisleep_nonintr`; seconds, by `sleep`
  millisleep : ℕ → Call
  sleep : ℕ → Call

-- The answers. What a call returns may depend on every call made before it (the newest first), so
-- the parameter stands for any deterministic world, the passing of time between two calls included.
pub record Env : Type 0 where
  pub returns : List Call → Call → ℤ
  -- CW_SPEED_MIN … CW_VOLUME_MAX of libcw.h
  pub speed_min : ℤ
  pub speed_max : ℤ
  pub frequency_min : ℤ
  pub frequency_max : ℤ
  pub volume_min : ℤ
  pub volume_max : ℤ

-- No call returns a negative number.
abbrev pub CallsSucceed : Env → Type 0
CallsSucceed e = (t : List Call) (c : Call) → ltb_ℤ (e.returns t c) (pos 0) ≡ false

-- What the daemon relies on of libcw's limits: it asserts the first, and its own defaults are
-- within them.
pub record IsLibcw (e : Env) : Type 0 where
  pub frequency_min_zero : e.frequency_min ≡ pos 0
  pub speed_default : InRange e.speed_min e.speed_max (pos 24)
  pub frequency_default : InRange e.frequency_min e.frequency_max (pos 800)
  pub volume_default : InRange e.volume_min e.volume_max (pos 70)
  pub volume_zero : e.volume_min ≡ pos 0
