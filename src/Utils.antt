-- ===== src/Utils.antt =====
-- src/utils.c: the parsers of numbers, paths and `key=value` options.
pub mod CString
pub mod Strtol
pub mod GetLong
pub mod Paths
pub mod OptValue
use cwdaemon.Base.{
  ℕ, ◌+◌, ◌≤◌, Bool, true, false, not, ◌&&◌, ◌||◌, Option, none, some, List, [], ◌∷◌, ◌++◌, leb,
  ◌==◌, if◌then◌else◌, length, take, ℤ, eqb_ℤ,
}
use cwdaemon.Utils.CString.{codes, isspace, case_eq, starts_with}
use cwdaemon.Utils.Strtol.{long_max, long_min, StrtolResult, strtol}

abbrev pub is_empty : List ℕ → Bool
is_empty [] = true
is_empty (c ∷ s) = false

-- The tests on `*ep` and `errno`.
abbrev accept_long : StrtolResult → Option ℤ
accept_long r =
    if not (is_empty r.rest)
    then none
    else if r.erange && (eqb_ℤ r.value long_max || eqb_ℤ r.value long_min)
    then none
    else some r.value

-- `cwdaemon_get_long`. `none` as the argument is NULL; `none` as the result is `false`, and leaves
-- `*value` as it was.
unfoldable pub cwdaemon_get_long : Option (List ℕ) → Option ℤ
unfolding strtol
cwdaemon_get_long none = none
cwdaemon_get_long (some []) = none
cwdaemon_get_long (some (c ∷ s)) = accept_long (strtol (c ∷ s))

pub data PathResult : Type 0 where
  -- 0, and the contents of `result`
  built : List ℕ → PathResult
  -- -EINVAL, -ENAMETOOLONG
  einval enametoolong : PathResult

-- The code after each `snprintf` of `text` into a buffer of `size` bytes.
abbrev check_length : ℕ → List ℕ → PathResult
check_length size text =
    if length text == 0 || leb size (length text) then enametoolong else built text

-- `build_full_device_path`; the first argument says whether `result` is not NULL.
unfoldable pub build_full_device_path : Bool → ℕ → Option (List ℕ) → PathResult
unfolding starts_with
build_full_device_path false size input = einval
build_full_device_path true size none = einval
build_full_device_path true size (some input) =
    if size == 0
    then einval
    else if starts_with input (codes "/dev/")
    then check_length size input
    else check_length size (codes "/dev/" ++ input)

-- `opt_t`, with the value that is found.
pub data OptT : Type 0 where
  opt_success : List ℕ → OptT
  opt_key_not_found opt_eq_not_found opt_extra_spaces : OptT

-- `strchr(input, '=')`: what stands before the first '=', and what stands after it.
unfoldable pub split_eq : List ℕ → Option (List ℕ × List ℕ)
split_eq [] = none
split_eq (c ∷ s) =
    if c == b'='
    then some ([], s)
    else elim (split_eq s) [ none ↦ none | some (k, v) ↦ some (c ∷ k, v) ]

-- `isspace(equal[-1])`
abbrev pub last_is_space : List ℕ → Bool
last_is_space [] = false
last_is_space (c ∷ []) = isspace c
last_is_space (c ∷ d ∷ s) = last_is_space (d ∷ s)

-- `isspace(equal[1])`, where `equal[1]` may be the terminating NUL
abbrev pub first_is_space : List ℕ → Bool
first_is_space [] = false
first_is_space (c ∷ s) = isspace c

-- `find_opt_value`
unfoldable pub find_opt_value : List ℕ → List ℕ → OptT
unfolding split_eq case_eq
find_opt_value input keyword = elim (split_eq input) [
  | none ↦ opt_eq_not_found
  | some (key, value) ↦
      if is_empty key
      then opt_key_not_found
      else if last_is_space key || first_is_space value
      then opt_extra_spaces
      else if not (length key == length keyword)
      then opt_key_not_found
      else if not (case_eq key keyword)
      then opt_key_not_found
      else opt_success value
]
