-- ===== src/Escape/Band.antt =====
-- The outputs of the band switch, `cwdaemon_switch_band` of src/cwdaemon.c.
use cwdaemon.Base.{ℕ, ◌/◌, ◌%◌, ◌<◌, ◌≡◌, refl, Bool, ◌&&◌, ◌==◌, ltb, arith, all_below_lem}
use cwdaemon.Escape.{band_pattern}

abbrev is_separated : ℕ → Bool
is_separated band =
    ltb (band_pattern band) 256
    && band_pattern band % 2 == band % 2
    && band_pattern band / 2 % 16 == 0
    && band_pattern band / 32 == band / 2

-- The outputs for a band of 0 ... 15 fit a byte: pin 2 is bit 0 of the band, the pins 3 ... 6 are
-- left low and the pins 7, 8 and 9 are its bits 1, 2 and 3.
pub band_pattern_lem :
    (band : ℕ)
    → band < 16
    → (band_pattern band < 256)
      × (band_pattern band % 2 ≡ band % 2)
      × (band_pattern band / 2 % 16 ≡ 0)
      × (band_pattern band / 32 ≡ band / 2)
band_pattern_lem band b = let h = all_below_lem is_separated 16 refl band b in ground arith
