-- ===== src/Utils/Paths.antt =====
-- What `build_full_device_path` of src/utils.c promises.
use cwdaemon.Base.{ℕ, ◌<◌, ◌≡◌, refl, true, some, List, [], ◌∷◌, ◌++◌, arith, length, ◌⊎◌}
use cwdaemon.Utils.CString.{codes, starts_with}
use cwdaemon.Utils.{built, build_full_device_path}

starts_with-append : (p s : List ℕ) → starts_with (p ++ s) p ≡ true
unfolding starts_with
starts_with-append [] s = refl
starts_with-append (a ∷ p) s = ground (arith, starts_with-append p s)

-- A path that is built begins with `/dev/`, fits the buffer with its NUL, and is the input with at
-- most that prefix added; building it again gives the same path.
pub build_full_device_path_lem :
    (size : ℕ) (input path : List ℕ)
    → build_full_device_path true size (some input) ≡ built path
    → (starts_with path (codes "/dev/") ≡ true)
      × (length path < size)
      × ((path ≡ input) ⊎ (path ≡ codes "/dev/" ++ input))
      × (build_full_device_path true size (some path) ≡ built path)
unfolding build_full_device_path
build_full_device_path_lem size input path h =
    (ground arith, ground arith, ground arith, ground arith)
