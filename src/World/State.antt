-- ===== src/World/State.antt =====
-- The global variables of src/cwdaemon.c, src/log.c and src/ttys.c as one record.
use cwdaemon.Base.{ℕ, Bool, true, false, Option, none, List, [], ℤ, pos, negsuc, ◌+◌}
use cwdaemon.World.Calls.{AudioSystem, audio_console, Kind, null, Address, Call}

-- The `default_*` variables, and again the `current_*` ones.
pub record Params : Type 0 where
  pub morse_speed : ℤ
  pub morse_tone : ℤ
  pub morse_volume : ℤ
  pub ptt_delay_ms : ℕ
  pub audio_system : AudioSystem
  pub weighting : ℤ
  pub log_threshold : ℕ

-- The three bits of `ptt_flag`: PTT_ACTIVE_AUTO, PTT_ACTIVE_MANUAL and PTT_ACTIVE_ECHO.
pub record PttFlag : Type 0 where
  pub auto : Bool
  pub manual : Bool
  pub echo : Bool

abbrev pub no_ptt : PttFlag
no_ptt = record { auto = false; manual = false; echo = false }

-- The value of the flag as an `unsigned char`.
abbrev bit : Bool → ℕ → ℕ
bit true n = n
bit false n = 0

abbrev pub ptt_byte : PttFlag → ℕ
ptt_byte f = bit f.auto 1 + bit f.manual 2 + bit f.echo 4

-- The fields of a `cwdevice` that change; its methods are given by its kind.
pub record Device : Type 0 where
  pub fd : ℤ
  pub desc : Option (List ℕ)
  -- options.u.tty_options, used by the tty device alone
  pub key_pin : ℕ
  pub ptt_pin : ℕ

-- A `FILE *` that messages are printed to; a file is known by its path.
pub data Stream : Type 0 where
  stdout stderr : Stream
  disc_file : List ℕ → Stream

pub record Daemon : Type 0 where
  pub defaults : Params
  pub current : Params
  pub has_audio_output : Bool
  -- the bytes before the NUL
  pub reply_buffer : List ℕ
  pub request_queue : List ℕ
  pub socket_descriptor : ℤ
  pub network_port : ℕ
  pub request_addr : Address
  pub reply_addr : Address
  pub libcw_debug_flags : ℕ
  -- cwdaemon_debug_f and cwdaemon_debug_f_path
  pub debug_f : Option Stream
  pub debug_f_path : Option (List ℕ)
  pub wordmode : Bool
  pub forking : Bool
  pub process_priority : ℤ
  pub async_abort : ℕ
  pub inactivity_seconds : ℕ
  pub ptt_flag : PttFlag
  pub cwdevice_ttys : Device
  pub cwdevice_lp : Device
  pub cwdevice_null : Device
  pub global_cwdevice : Kind
  -- the calls made so far, newest first
  pub trace : List Call

-- CWDAEMON_MORSE_*_DEFAULT, CWDAEMON_PTT_DELAY_DEFAULT, LOG_WARNING
abbrev pub initial_params : Params
initial_params = record {
  morse_speed = pos 24;
  morse_tone = pos 800;
  morse_volume = pos 70;
  ptt_delay_ms = 0;
  audio_system = audio_console;
  weighting = pos 0;
  log_threshold = 4;
}

abbrev blank_device : Device
blank_device = record { fd = pos 0; desc = none; key_pin = 0; ptt_pin = 0 }

-- The static initialisers.
abbrev pub initial_daemon : Daemon
initial_daemon = record {
  defaults = initial_params;
  current = initial_params;
  has_audio_output = false;
  reply_buffer = [];
  request_queue = [];
  socket_descriptor = negsuc 0;
  network_port = 6789;
  request_addr = 0;
  reply_addr = 0;
  libcw_debug_flags = 0;
  debug_f = none;
  debug_f_path = none;
  wordmode = false;
  forking = true;
  process_priority = pos 0;
  async_abort = 0;
  inactivity_seconds = 9999;
  ptt_flag = no_ptt;
  cwdevice_ttys = blank_device;
  cwdevice_lp = blank_device;
  cwdevice_null = blank_device;
  global_cwdevice = null;
  trace = [];
}
