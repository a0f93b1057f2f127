-- ===== src/Params.antt =====
-- The `cwdaemon_params_*` functions of src/cwdaemon.c and the parsers of src/options.c that turn
-- the text of a request or an option into a value. `none` is the failure, which leaves the variable
-- behind the pointer as it was.
pub mod Bounds
use cwdaemon.Base.{
  ℕ, ◌+◌, ◌-◌, ◌%◌, ◌^◌, ◌||◌, Option, none, some, List, [], ◌∷◌, ltb, ◌==◌, if◌then◌else◌, ℤ, pos,
  negsuc, ltb_ℤ, pos_part,
}
use cwdaemon.Utils.CString.{tolower, codes, str_eq}
use cwdaemon.Utils.{cwdaemon_get_long}
use cwdaemon.World.Calls.{
  AudioSystem, audio_null, audio_console, audio_oss, audio_alsa, audio_pa, audio_soundcard, Env,
}

-- `!cwdaemon_get_long(optarg, &lv) || lv < lo || lv > hi`, negated
abbrev pub in_range : ℤ → ℤ → Option ℤ → Option ℤ
in_range lo hi none = none
in_range lo hi (some lv) = if ltb_ℤ lv lo || ltb_ℤ hi lv then none else some lv

abbrev pub ptt_delay_max : ℕ
ptt_delay_max = 50

unfoldable pub cwdaemon_params_priority : List ℕ → Option ℤ
cwdaemon_params_priority optarg = in_range (negsuc 19) (pos 20) (cwdaemon_get_long (some optarg))

module _ (e : Env) where
  unfoldable pub cwdaemon_params_wpm : List ℕ → Option ℤ
  cwdaemon_params_wpm optarg = in_range e.speed_min e.speed_max (cwdaemon_get_long (some optarg))

  unfoldable pub cwdaemon_params_volume : List ℕ → Option ℤ
  cwdaemon_params_volume optarg =
      in_range e.volume_min e.volume_max (cwdaemon_get_long (some optarg))

  unfoldable pub cwdaemon_params_tone : List ℕ → Option ℤ
  cwdaemon_params_tone optarg =
      in_range e.frequency_min e.frequency_max (cwdaemon_get_long (some optarg))

-- CWDAEMON_TUNE_SECONDS_MAX is 10; the value fits `uint32_t`.
unfoldable pub cwdaemon_params_tune : List ℕ → Option ℕ
cwdaemon_params_tune optarg = elim (in_range (pos 0) (pos 10) (cwdaemon_get_long (some optarg))) [
  | none ↦ none
  | some lv ↦ some (pos_part lv)
]

unfoldable pub cwdaemon_params_weighting : List ℕ → Option ℤ
cwdaemon_params_weighting optarg = in_range (negsuc 49) (pos 50) (cwdaemon_get_long (some optarg))

-- The results 0, 1 and 2 of `cwdaemon_params_pttdelay`, with the delay that is stored.
pub data PttDelay : Type 0 where
  refused : PttDelay
  accepted : ℕ → PttDelay
  clipped : ℕ → PttDelay

abbrev ptt_delay_of : Option ℤ → PttDelay
ptt_delay_of none = refused
ptt_delay_of (some lv) =
    if ltb_ℤ (pos ptt_delay_max) lv
    then clipped ptt_delay_max
    else if ltb_ℤ lv (pos 0)
    then refused
    else accepted (pos_part lv)

unfoldable pub cwdaemon_params_pttdelay : List ℕ → PttDelay
cwdaemon_params_pttdelay optarg = ptt_delay_of (cwdaemon_get_long (some optarg))

-- `strncmp(optarg, "x", 1)` looks at the first byte alone.
abbrev audio_of : ℕ → Option AudioSystem
audio_of c =
    if c == b'n'
    then some audio_null
    else if c == b'c'
    then some audio_console
    else if c == b's'
    then some audio_soundcard
    else if c == b'a'
    then some audio_alsa
    else if c == b'p'
    then some audio_pa
    else if c == b'o'
    then some audio_oss
    else none

unfoldable pub cwdaemon_params_system : List ℕ → Option AudioSystem
cwdaemon_params_system [] = none
cwdaemon_params_system (c ∷ s) = audio_of c

-- The path to the debug file; `syslog` is not implemented. `strdup` is taken to succeed.
unfoldable pub cwdaemon_params_debugfile : Option (List ℕ) → Option (List ℕ)
unfolding str_eq
cwdaemon_params_debugfile none = none
cwdaemon_params_debugfile (some path) = if str_eq path (codes "syslog") then none else some path

-- src/options.c; CWDAEMON_NETWORK_PORT_MIN is 1024, CWDAEMON_NETWORK_PORT_MAX is 65535, so the
-- conversion to `in_port_t` keeps the value.
unfoldable pub cwdaemon_option_network_port : List ℕ → Option ℕ
cwdaemon_option_network_port opt_value =
    elim (in_range (pos 1024) (pos 65535) (cwdaemon_get_long (some opt_value))) [
      | none ↦ none
      | some lv ↦ some (pos_part lv)
    ]

-- `(uint32_t) lv`, of any `long`
abbrev pub to_uint32 : ℤ → ℕ
to_uint32 (pos n) = n % 2 ^ 32
to_uint32 (negsuc n) = (2 ^ 64 - (n + 1)) % 2 ^ 32

unfoldable pub cwdaemon_option_libcwflags : List ℕ → Option ℕ
cwdaemon_option_libcwflags opt_value = elim (cwdaemon_get_long (some opt_value)) [
  | none ↦ none
  | some lv ↦ some (to_uint32 lv)
]

-- LOG_CRIT … LOG_DEBUG of syslog.h
abbrev pub log_crit : ℕ
log_crit = 2

abbrev pub log_err : ℕ
log_err = 3

abbrev pub log_warning : ℕ
log_warning = 4

abbrev pub log_notice : ℕ
log_notice = 5

abbrev pub log_info : ℕ
log_info = 6

abbrev pub log_debug : ℕ
log_debug = 7

unfoldable pub cwdaemon_option_inc_verbosity : ℕ → ℕ
cwdaemon_option_inc_verbosity threshold =
    if ltb threshold log_debug then threshold + 1 else threshold

abbrev threshold_of : ℕ → Option ℕ
threshold_of c =
    if c == b'n'
    then some log_crit
    else if c == b'e'
    then some log_err
    else if c == b'w'
    then some log_warning
    else if c == b'i'
    then some log_info
    else if c == b'd'
    then some log_debug
    else none

unfoldable pub cwdaemon_option_set_verbosity : Option (List ℕ) → Option ℕ
cwdaemon_option_set_verbosity none = none
cwdaemon_option_set_verbosity (some []) = none
cwdaemon_option_set_verbosity (some (c ∷ s)) = threshold_of (tolower c)
