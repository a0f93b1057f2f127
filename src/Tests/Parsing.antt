-- ===== src/Tests/Parsing.antt =====
-- Runs of the parsers and of other pure code at concrete inputs.
use cwdaemon.Base.{
  ℕ, ◌≡◌, ◌↔◌, refl, true, false, some, List, [], ◌∷◌, ◌++◌, pos, arith, InRange, length, ◌<◌, ◌⊎◌,
  inl, All,
}
use cwdaemon.Utils.{cwdaemon_get_long, build_full_device_path, built, find_opt_value, opt_success}
use cwdaemon.Utils.CString.{codes, starts_with}
use cwdaemon.Utils.Strtol.{long_min, long_max}
use cwdaemon.Utils.GetLong.Grammar.{Numeral}
use cwdaemon.Utils.GetLong.Accepted.{cwdaemon_get_long_lem}
use cwdaemon.Utils.OptValue.{IsOption, find_opt_value_lem}
use cwdaemon.Help.{version_current, version_revision}
use cwdaemon.Utils.Paths.{build_full_device_path_lem}
use cwdaemon.Reply.{trim_crlf}
use cwdaemon.Reply.Trim.{last_is_crlf, is_cr_or_lf, trim_crlf_lem}

thirty-Numeral : Numeral (codes "+30") (pos 30)
thirty-Numeral = record {
  spaces = [];
  minus = false;
  sign_part = b'+' ∷ [];
  first = b'3';
  digits = b'0' ∷ [];
  spaces_ok = tt;
  sign_ok = inl refl;
  digits_ok = (refl, (refl, tt));
  text = refl;
  number = refl;
}

pub thirty_test : cwdaemon_get_long (some (codes "+30")) ≡ some (pos 30)
unfolding cwdaemon_get_long
thirty_test = refl

cwdaemon_get_long_lem_example :
    (cwdaemon_get_long (some (codes "+30")) ≡ some (pos 30))
    ↔ (Numeral (codes "+30") (pos 30) × InRange long_min long_max (pos 30))
cwdaemon_get_long_lem_example = cwdaemon_get_long_lem (codes "+30") (pos 30)

-- either side holds
thirty_accepted : cwdaemon_get_long (some (codes "+30")) ≡ some (pos 30)
thirty_accepted = (cwdaemon_get_long_lem (codes "+30") (pos 30)).1 (thirty-Numeral, ground arith)

trim_crlf_lem_example :
    (last_is_crlf (trim_crlf (104 ∷ 13 ∷ 10 ∷ [])) ≡ false)
    × ((tail : List ℕ) × (104 ∷ 13 ∷ 10 ∷ [] ≡ trim_crlf (104 ∷ 13 ∷ 10 ∷ []) ++ tail)
        × All (λ c. is_cr_or_lf c ≡ true) tail)
trim_crlf_lem_example = trim_crlf_lem (104 ∷ 13 ∷ 10 ∷ [])

key_test : find_opt_value (codes "KEY=dtr") (codes "key") ≡ opt_success (codes "dtr")
unfolding find_opt_value
key_test = refl

find_opt_value_lem_example :
    (find_opt_value (codes "KEY=dtr") (codes "key") ≡ opt_success (codes "dtr"))
    ↔ IsOption (codes "KEY=dtr") (codes "key") (codes "dtr")
find_opt_value_lem_example = find_opt_value_lem (codes "KEY=dtr") (codes "key") (codes "dtr")

key_IsOption : IsOption (codes "KEY=dtr") (codes "key") (codes "dtr")
key_IsOption = (find_opt_value_lem (codes "KEY=dtr") (codes "key") (codes "dtr")).0 key_test

path_test : build_full_device_path true 20 (some (codes "ttyS0")) ≡ built (codes "/dev/ttyS0")
unfolding build_full_device_path
path_test = refl

build_full_device_path_lem_example :
    (starts_with (codes "/dev/ttyS0") (codes "/dev/") ≡ true)
    × (length (codes "/dev/ttyS0") < 20)
    × ((codes "/dev/ttyS0" ≡ codes "ttyS0") ⊎ (codes "/dev/ttyS0" ≡ codes "/dev/" ++ codes "ttyS0"))
    × (build_full_device_path true 20 (some (codes "/dev/ttyS0")) ≡ built (codes "/dev/ttyS0"))
build_full_device_path_lem_example =
    build_full_device_path_lem 20 (codes "ttyS0") (codes "/dev/ttyS0") path_test

-- libcw 7.1 says 0x00070001.
version_test : (version_current (pos 0x00070001) ≡ 7) × (version_revision (pos 0x00070001) ≡ 1)
version_test = (refl, refl)
