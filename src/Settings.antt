-- ===== src/Settings.antt =====
-- What libcw was last told of the speed, tone, volume and weighting, by the calls that
-- src/cwdaemon.c makes.
pub mod Rules
pub mod Requests
pub mod Playing
pub mod Runs
use cwdaemon.Base.{◌≡◌, Bool, true, false, ◌⊎◌, Option, none, some, List, [], ◌∷◌, ℤ, pos, ltb_ℤ}
use cwdaemon.World.Calls.{
  Call, cw_set_frequency, cw_set_send_speed, cw_set_volume, cw_set_weighting,
}
use cwdaemon.World.State.{Daemon, Params}
use cwdaemon.Sound.{libcw_weighting}

abbrev pub speed_of : Call → Option ℤ
speed_of (cw_set_send_speed z) = some z
speed_of _ = none

abbrev pub frequency_of : Call → Option ℤ
frequency_of (cw_set_frequency z) = some z
frequency_of _ = none

abbrev pub volume_of : Call → Option ℤ
volume_of (cw_set_volume z) = some z
volume_of _ = none

abbrev pub weighting_of : Call → Option ℤ
weighting_of (cw_set_weighting z) = some z
weighting_of _ = none

-- The newest value among the calls.
abbrev pub last_told : (Call → Option ℤ) → List Call → Option ℤ
last_told f [] = none
last_told f (c ∷ t) = elim (f c) [ none ↦ last_told f t | some z ↦ some z ]

-- The tone, the volume and the weighting are those that libcw was told. With a tone of 0 the
-- frequency is an older one, and the volume may be 0.
abbrev pub AreTold : Params → List Call → Type 0
AreTold p t =
    ((ltb_ℤ (pos 0) p.morse_tone ≡ false) ⊎ (last_told frequency_of t ≡ some p.morse_tone))
    × ((last_told volume_of t ≡ some p.morse_volume)
        ⊎ ((ltb_ℤ (pos 0) p.morse_tone ≡ false) × (last_told volume_of t ≡ some (pos 0))))
    × (last_told weighting_of t ≡ some (libcw_weighting p.weighting))

-- So is the speed.
abbrev pub IsTold : Params → List Call → Type 0
IsTold p t = (last_told speed_of t ≡ some p.morse_speed) × AreTold p t

-- A daemon that has a sound output has told libcw its values.
abbrev pub Agrees : Daemon → Type 0
Agrees s = s.has_audio_output ≡ true → IsTold s.current s.trace

-- The same but for the speed, as it is among several '+' and '-' of a text.
abbrev pub AgreesNearly : Daemon → Type 0
AgreesNearly s = s.has_audio_output ≡ true → AreTold s.current s.trace
