-- ===== src/Frame.antt =====
-- Conditions that the keying devices cannot change: they speak neither of the devices nor of the
-- calls that drive them.
pub mod Devices
pub mod Handlers
pub mod Flags
use cwdaemon.Base.{ℕ, ◌≡◌, refl, Bool, true, false, Option, ℤ, ◌∷◌, if◌then◌else◌}
use cwdaemon.World.Calls.{
  Call, Env, cw_set_frequency, cw_set_send_speed, cw_set_volume, cw_set_weighting,
  cw_register_keying_callback, sendto, Kind,
}
use cwdaemon.World.State.{Daemon, Device, PttFlag}
use cwdaemon.World.Run.{modify, call, perform}
use cwdaemon.World.Keeps.{Keeps, keeps_rules}
use cwdaemon.Device.Ttys.{set_ttys}
use cwdaemon.Device.Null.{null_init}

-- A call that sets no value of libcw, registers no keying callback and sends no datagram.
abbrev pub is_silent : Call → Bool
is_silent (cw_set_frequency z) = false
is_silent (cw_set_send_speed z) = false
is_silent (cw_set_volume z) = false
is_silent (cw_set_weighting z) = false
is_silent (cw_register_keying_callback d) = false
is_silent (sendto fd addr bytes) = false
is_silent _ = true

pub record IsFrame (P : Daemon → Type 0) : Type 0 where
  pub call_ok :
      (c : Call) (s : Daemon) → is_silent c ≡ true → P s → P (record s { trace = c ∷ s.trace })
  pub ttys_ok : (d : Device) (s : Daemon) → P s → P (record s { cwdevice_ttys = d })
  pub lp_ok : (d : Device) (s : Daemon) → P s → P (record s { cwdevice_lp = d })
  pub null_ok : (d : Device) (s : Daemon) → P s → P (record s { cwdevice_null = d })

-- Nor do they speak of the choice of the device, of its registration, or of the inactivity counter.
pub record IsRemote (P : Daemon → Type 0) : Type 0 where
  pub kind_ok : (k : Kind) (s : Daemon) → P s → P (record s { global_cwdevice = k })
  pub register_ok :
      (d : Option Kind) (s : Daemon)
      → P s
      → P (record s { trace = cw_register_keying_callback d ∷ s.trace })
  pub idle_ok : (n : ℕ) (s : Daemon) → P s → P (record s { inactivity_seconds = n })

-- Of the PTT flag they speak of no more than that a reply is not due.
pub record IsFlagFree (P : Daemon → Type 0) : Type 0 where
  pub flag_ok :
      (g : PttFlag) (s : Daemon)
      → (g.echo ≡ true → s.ptt_flag.echo ≡ true)
      → P s
      → P (record s { ptt_flag = g })

module _ {P : Daemon → Type 0} where
  pub call-Keeps : (e : Env) (c : Call) → IsFrame P → is_silent c ≡ true → Keeps P (call e c)
  unfolding call
  call-Keeps e c f h = record { at = λ s i. f.call_ok c s h i }

  pub perform-Keeps : (c : Call) → IsFrame P → is_silent c ≡ true → Keeps P (perform c)
  unfolding perform
  perform-Keeps c f h = record { at = λ s i. f.call_ok c s h i }

  pub set_ttys-Keeps : (g : Device → Device) → IsFrame P → Keeps P (set_ttys g)
  unfolding set_ttys modify
  set_ttys-Keeps g f = record { at = λ s i. f.ttys_ok _ s i }

  pub lp_fd-Keeps :
      (fd : ℤ)
      → IsFrame P
      → Keeps P (modify (λ s. record s { cwdevice_lp = record s.cwdevice_lp { fd = fd } }))
  unfolding modify
  lp_fd-Keeps fd f = record { at = λ s i. f.lp_ok _ s i }

  pub null_init-Keeps : (fd : ℤ) → IsFrame P → Keeps P (null_init fd)
  unfolding null_init modify
  null_init-Keeps fd f = record { at = λ s i. f.null_ok _ s i }

  -- Either branch of a conditional call.
  pub call_if-Keeps :
      (e : Env) (b : Bool) (c d : Call)
      → IsFrame P
      → is_silent c ≡ true
      → is_silent d ≡ true
      → Keeps P (call e (if b then c else d))
  call_if-Keeps e true c d f h k = call-Keeps e c f h
  call_if-Keeps e false c d f h k = call-Keeps e d f k

pub ruleset frame_rules = (
  keeps_rules, call-Keeps, perform-Keeps, call_if-Keeps, set_ttys-Keeps, lp_fd-Keeps,
  null_init-Keeps,
)
