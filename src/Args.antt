-- ===== src/Args.antt =====
-- The command line of src/cwdaemon.c: `cwdaemon_args_process_long`, `cwdaemon_args_process_short`
-- and `cwdaemon_args_parse`. What `getopt_long` returns, one option after another, is the input.
pub mod Names
pub mod Spelling
use Prim.Native.String.{String}
use cwdaemon.Base.{
  ℕ, Bool, true, false, ◌||◌, Option, none, some, List, [], ◌∷◌, ◌==◌, if◌then◌else◌, ℤ,
}
use cwdaemon.Utils.CString.{codes, str_eq}
use cwdaemon.World.Calls.{Env, AudioSystem}
use cwdaemon.World.State.{Daemon, Params}
use cwdaemon.World.Run.{M, Void, ◌>>=◌, ◌>>◌, pure, skip, gets, modify, stop}
use cwdaemon.Device.{cwdaemon_option_cwdevice, dev_optparse, dev_optvalidate}
use cwdaemon.Params.{
  cwdaemon_params_priority, cwdaemon_params_wpm, cwdaemon_params_volume, cwdaemon_params_tone,
  cwdaemon_params_weighting, cwdaemon_params_pttdelay, PttDelay, refused, accepted, clipped,
  cwdaemon_params_system, cwdaemon_params_debugfile, cwdaemon_option_network_port,
  cwdaemon_option_libcwflags, cwdaemon_option_inc_verbosity, cwdaemon_option_set_verbosity,
}

-- One result of `getopt_long`: a long option with no short form (0), by its name, or a character.
-- The text is `optarg`, empty for an option that takes no argument.
pub data Arg : Type 0 where
  long : List ℕ → List ℕ → Arg
  short : ℕ → List ℕ → Arg

abbrev pub set_defaults : (Params → Params) → Daemon → Daemon
set_defaults f s = record s { defaults = f s.defaults }

-- `if (!cwdaemon_params_…(&variable, optarg)) exit(EXIT_FAILURE);`
unfoldable pub store_or_exit : {A : Type 0} → Option A → (A → Daemon → Daemon) → Void
store_or_exit none f = stop 1
store_or_exit (some a) f = modify (f a)

-- The command line takes a delay only if it is in range.
unfoldable pub strict_delay : PttDelay → Option ℕ
strict_delay refused = none
strict_delay (accepted n) = some n
strict_delay (clipped n) = none

abbrev is : List ℕ → String → Bool
is name s = str_eq name (codes s)

abbrev pub put_priority : ℤ → Daemon → Daemon
put_priority z s = record s { process_priority = z }

abbrev pub put_speed : ℤ → Daemon → Daemon
put_speed z = set_defaults (λ p. record p { morse_speed = z })

abbrev pub put_delay : ℕ → Daemon → Daemon
put_delay n = set_defaults (λ p. record p { ptt_delay_ms = n })

abbrev pub put_volume : ℤ → Daemon → Daemon
put_volume z = set_defaults (λ p. record p { morse_volume = z })

abbrev pub put_weighting : ℤ → Daemon → Daemon
put_weighting z = set_defaults (λ p. record p { weighting = z })

abbrev pub put_tone : ℤ → Daemon → Daemon
put_tone z = set_defaults (λ p. record p { morse_tone = z })

abbrev pub put_system : AudioSystem → Daemon → Daemon
put_system a = set_defaults (λ p. record p { audio_system = a })

abbrev pub put_threshold : ℕ → Daemon → Daemon
put_threshold n = set_defaults (λ p. record p { log_threshold = n })

abbrev pub put_debugfile : List ℕ → Daemon → Daemon
put_debugfile path s = record s { debug_f_path = some path }

abbrev pub put_port : ℕ → Daemon → Daemon
put_port n s = record s { network_port = n }

abbrev pub put_flags : ℕ → Daemon → Daemon
put_flags n s = record s { libcw_debug_flags = n }

module _ (e : Env) where
  unfoldable pub option_cwdevice_or_exit : List ℕ → Void
  unfolding cwdaemon_option_cwdevice
  option_cwdevice_or_exit optarg = do
    done ← cwdaemon_option_cwdevice e (some optarg)
    if done then skip else stop 1

  -- `cwdaemon_params_nofork`
  unfoldable pub cwdaemon_params_nofork : Void
  cwdaemon_params_nofork = modify (λ s. record s { forking = false })

  -- the result of the driver's parser
  unfoldable pub params_options_of : Option (List ℕ → M Bool) → List ℕ → M Bool
  params_options_of none optarg = pure false
  params_options_of (some optparse) optarg = optparse optarg

  -- `cwdaemon_params_options`; the device is never NULL
  unfoldable pub cwdaemon_params_options : List ℕ → M Bool
  unfolding params_options_of dev_optparse
  cwdaemon_params_options optarg = do
    dev ← gets (λ s. s.global_cwdevice)
    params_options_of (dev_optparse e dev) optarg

  unfoldable pub cwdaemon_args_process_short : ℕ → List ℕ → Void
  unfolding option_cwdevice_or_exit cwdaemon_params_nofork store_or_exit cwdaemon_params_options
  cwdaemon_args_process_short c optarg =
      if c == b':' || c == b'?' || c == b'h'
      then stop 0
      else if c == b'd'
      then option_cwdevice_or_exit optarg
      else if c == b'n'
      then cwdaemon_params_nofork
      else if c == b'p'
      then store_or_exit (cwdaemon_option_network_port optarg) put_port
      else if c == b'P'
      then store_or_exit (cwdaemon_params_priority optarg) put_priority
      else if c == b's'
      then store_or_exit (cwdaemon_params_wpm e optarg) put_speed
      else if c == b't'
      then store_or_exit (strict_delay (cwdaemon_params_pttdelay optarg)) put_delay
      else if c == b'v'
      then store_or_exit (cwdaemon_params_volume e optarg) put_volume
      else if c == b'V'
      then stop 0
      else if c == b'w'
      then store_or_exit (cwdaemon_params_weighting optarg) put_weighting
      else if c == b'T'
      then store_or_exit (cwdaemon_params_tone e optarg) put_tone
      else if c == b'i'
      then modify (λ s. put_threshold (cwdaemon_option_inc_verbosity s.defaults.log_threshold) s)
      else if c == b'y'
      then store_or_exit (cwdaemon_option_set_verbosity (some optarg)) put_threshold
      else if c == b'I'
      then store_or_exit (cwdaemon_option_libcwflags optarg) put_flags
      else if c == b'f'
      then store_or_exit (cwdaemon_params_debugfile (some optarg)) put_debugfile
      else if c == b'x'
      then store_or_exit (cwdaemon_params_system optarg) put_system
      else if c == b'o'
      then (do done ← cwdaemon_params_options optarg; if done then skip else stop 1)
      else skip

  -- the body of the loop for a long option
  unfoldable pub process_long_name : List ℕ → List ℕ → Void
  unfolding option_cwdevice_or_exit cwdaemon_params_nofork store_or_exit
  process_long_name optname optarg =
      if is optname "cwdevice"
      then option_cwdevice_or_exit optarg
      else if is optname "nofork"
      then cwdaemon_params_nofork
      else if is optname "priority"
      then store_or_exit (cwdaemon_params_priority optarg) put_priority
      else if is optname "wpm"
      then store_or_exit (cwdaemon_params_wpm e optarg) put_speed
      else if is optname "pttdelay"
      then store_or_exit (strict_delay (cwdaemon_params_pttdelay optarg)) put_delay
      else if is optname "volume"
      then store_or_exit (cwdaemon_params_volume e optarg) put_volume
      else if is optname "version"
      then stop 0
      else if is optname "weighting"
      then store_or_exit (cwdaemon_params_weighting optarg) put_weighting
      else if is optname "tone"
      then store_or_exit (cwdaemon_params_tone e optarg) put_tone
      else if is optname "debugfile"
      then store_or_exit (cwdaemon_params_debugfile (some optarg)) put_debugfile
      else if is optname "system"
      then store_or_exit (cwdaemon_params_system optarg) put_system
      else skip

  -- The loop over the options; the flag says whether a token is left behind them.
  unfoldable pub cwdaemon_args_process_long : List Arg → Bool → Void
  unfolding process_long_name cwdaemon_args_process_short
  cwdaemon_args_process_long [] true = stop 1
  cwdaemon_args_process_long [] false = skip
  cwdaemon_args_process_long (long name optarg ∷ args) left =
      process_long_name name optarg >> cwdaemon_args_process_long args left
  cwdaemon_args_process_long (short c optarg ∷ args) left =
      cwdaemon_args_process_short c optarg >> cwdaemon_args_process_long args left

  unfoldable pub cwdaemon_args_parse : List Arg → Bool → Void
  unfolding cwdaemon_args_process_long dev_optvalidate
  cwdaemon_args_parse args left = do
    cwdaemon_args_process_long args left
    valid ← gets (λ s. dev_optvalidate s.global_cwdevice s)
    if valid then skip else stop 1
