-- ===== src/Utils/GetLong/Accepted.antt =====
-- `cwdaemon_get_long` of src/utils.c against the decimal numerals.
use cwdaemon.Base.{ℕ, ◌≡◌, ◌↔◌, some, List, ℤ, InRange}
use cwdaemon.Utils.{cwdaemon_get_long}
use cwdaemon.Utils.Strtol.{long_min, long_max}
use cwdaemon.Utils.GetLong.Grammar.{Numeral, cwdaemon_get_long_sound, cwdaemon_get_long_complete}

-- `cwdaemon_get_long` accepts a text with a number exactly if the text is white space, an optional
-- sign and decimal digits, that is the numeral of this number, and the number fits a `long`.
pub cwdaemon_get_long_lem :
    (buf : List ℕ) (z : ℤ)
    → (cwdaemon_get_long (some buf) ≡ some z) ↔ (Numeral buf z × InRange long_min long_max z)
cwdaemon_get_long_lem buf z =
    (cwdaemon_get_long_sound buf z, λ h. cwdaemon_get_long_complete buf z h.0 h.1)
