-- ===== src/Invariant.antt =====
-- What holds of the daemon's globals between two requests and two callbacks.
pub mod Rules
pub mod Devices
pub mod Replace
pub mod Handlers
pub mod Reset
pub mod Escapes
pub mod Playing
pub mod Requests
pub mod Receive
pub mod Callbacks
pub mod Options
pub mod Start
pub mod Runs
use cwdaemon.Base.{
  ℕ, ◌≡◌, refl, ◌≤◌, Bool, true, false, ◌⊎◌, Option, none, some, List, [], ◌∷◌, ℤ, pos, negsuc,
  InRange, length, pos_part, neg_part, ◌≤ℤ◌, ◌+◌,
}
use cwdaemon.World.Calls.{Call, Env, Kind, cw_register_keying_callback}
use cwdaemon.World.State.{Daemon, Params, PttFlag}

-- What a call makes of the registration of the keying callback.
abbrev pub registers : Call → Option (Option Kind)
registers (cw_register_keying_callback d) = some d
registers _ = none

-- The device that `cwdaemon_keyingevent` was last registered with.
abbrev pub keying_target : List Call → Option Kind
keying_target [] = none
keying_target (c ∷ t) = elim (registers c) [ none ↦ keying_target t | some d ↦ d ]

-- The values but for the speed are within their limits.
pub record AreInRange (e : Env) (p : Params) : Type 0 where
  pub tone_ok : InRange e.frequency_min e.frequency_max p.morse_tone
  pub volume_ok : InRange e.volume_min e.volume_max p.morse_volume
  pub delay_ok : p.ptt_delay_ms ≤ 50
  pub weighting_ok : InRange (negsuc 49) (pos 50) p.weighting

-- Between two requests; while a text is played; and among several '+' and '-' of a text.
pub data Phase : Type 0 where
  idle playing running : Phase

abbrev pub is_idle : Phase → Bool
is_idle idle = true
is_idle _ = false

-- The speed may be out of range while `running`, and a text is queued unless `idle`. With
-- `unhooked` no keying callback is registered, as it is while the keying device is replaced.
pub record IsSound (e : Env) (phase : Phase) (unhooked : Bool) (s : Daemon) : Type 0 where
  pub current_ok : AreInRange e s.current
  pub defaults_ok : AreInRange e s.defaults
  pub default_speed_ok : InRange e.speed_min e.speed_max s.defaults.morse_speed
  pub speed_ok : (phase ≡ running) ⊎ InRange e.speed_min e.speed_max s.current.morse_speed
  -- a reply fits its buffer, and a reply that is due has room for its CR and LF
  pub reply_ok : length s.reply_buffer ≤ 257
  pub due_ok : s.ptt_flag.echo ≡ true → length s.reply_buffer ≤ 255
  pub keying_ok :
      (keying_target s.trace ≡ none)
      ⊎ ((unhooked ≡ false) × (keying_target s.trace ≡ some s.global_cwdevice))
  pub queue_ok : (is_idle phase ≡ false) ⊎ (s.request_queue ≡ [])

-- What holds between two requests.
abbrev pub IsIdle : Env → Daemon → Type 0
IsIdle e = IsSound e idle false
