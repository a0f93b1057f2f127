-- ===== src/Params/Bounds.antt =====
-- The values that requests and options set are within their limits; a text that is not a number, or
-- a number outside, is refused.
use cwdaemon.Base.{ℕ, ◌≤◌, ◌≡◌, Option, none, some, List, arith, ℤ, pos, negsuc, InRange, ◌↔◌}
use cwdaemon.Utils.{cwdaemon_get_long}
use cwdaemon.World.Calls.{Env}
use cwdaemon.Params.{
  in_range, cwdaemon_params_wpm, cwdaemon_params_volume, cwdaemon_params_tone,
  cwdaemon_params_weighting, cwdaemon_params_pttdelay, PttDelay, refused, accepted, clipped,
}

-- `in_range` passes on exactly the numbers within the limits.
pub in_range_iff :
    (lo hi z : ℤ) (o : Option ℤ) → (in_range lo hi o ≡ some z) ↔ ((o ≡ some z) × InRange lo hi z)
in_range_iff lo hi z none = (λ h. cc, λ h. cc h.0)
in_range_iff lo hi z (some v) = (λ h. (ground arith, ground arith), λ h. ground arith)

module _ (e : Env) where
  pub wpm-InRange :
      (text : List ℕ) (z : ℤ)
      → cwdaemon_params_wpm e text ≡ some z
      → InRange e.speed_min e.speed_max z
  unfolding cwdaemon_params_wpm
  wpm-InRange text z h = ((in_range_iff _ _ z (cwdaemon_get_long (some text))).0 h).1

  pub volume-InRange :
      (text : List ℕ) (z : ℤ)
      → cwdaemon_params_volume e text ≡ some z
      → InRange e.volume_min e.volume_max z
  unfolding cwdaemon_params_volume
  volume-InRange text z h = ((in_range_iff _ _ z (cwdaemon_get_long (some text))).0 h).1

  pub tone-InRange :
      (text : List ℕ) (z : ℤ)
      → cwdaemon_params_tone e text ≡ some z
      → InRange e.frequency_min e.frequency_max z
  unfolding cwdaemon_params_tone
  tone-InRange text z h = ((in_range_iff _ _ z (cwdaemon_get_long (some text))).0 h).1

pub weighting-InRange :
    (text : List ℕ) (z : ℤ)
    → cwdaemon_params_weighting text ≡ some z
    → InRange (negsuc 49) (pos 50) z
unfolding cwdaemon_params_weighting
weighting-InRange text z h =
    ((in_range_iff (negsuc 49) (pos 50) z (cwdaemon_get_long (some text))).0 h).1

-- The delay that a request stores.
abbrev pub stored : PttDelay → Option ℕ
stored refused = none
stored (accepted n) = some n
stored (clipped n) = some n

pub pttdelay_bounded :
    (text : List ℕ) (n : ℕ) → stored (cwdaemon_params_pttdelay text) ≡ some n → n ≤ 50
unfolding cwdaemon_params_pttdelay
pttdelay_bounded text n h = ground arith
