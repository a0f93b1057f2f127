-- ===== src/Utils/CString.antt =====
-- C strings and the functions of the C library that the daemon calls on them, in the "C" locale.
-- A C string is the list of its bytes before the terminating NUL.
use Prim.Native.Char.{code}
use Prim.Native.String.{String}
use cwdaemon.Base.{
  ℕ, ◌+◌, ◌≤◌, ◌≡◌, refl, Bool, true, false, ◌&&◌, ◌||◌, List, [], ◌∷◌, arith, leb, ◌==◌,
  if◌then◌else◌, length, ◌↔◌,
}

-- The bytes of a literal of the source.
abbrev pub codes : String → List ℕ
codes String.[] = []
codes (String.◌∷◌ c s) = code c ∷ codes s

-- What a buffer holds, read as a C string: the bytes before the first NUL.
unfoldable pub c_str : List ℕ → List ℕ
c_str [] = []
c_str (c ∷ s) = if c == 0 then [] else c ∷ c_str s

pub length-c_str : (s : List ℕ) → length (c_str s) ≤ length s
unfolding c_str
length-c_str [] = omega arith
length-c_str (c ∷ s) = ground (arith, length-c_str s)

abbrev pub isspace : ℕ → Bool
isspace c = (leb 9 c && leb c 13) || c == 32

abbrev pub isdigit : ℕ → Bool
isdigit c = leb b'0' c && leb c b'9'

abbrev pub tolower : ℕ → ℕ
tolower c = if leb b'A' c && leb c b'Z' then c + 32 else c

-- `strcmp(a, b) == 0`
unfoldable pub str_eq : List ℕ → List ℕ → Bool
str_eq [] [] = true
str_eq (a ∷ s) (b ∷ t) = a == b && str_eq s t
str_eq _ _ = false

-- `strcasecmp(a, b) == 0`
unfoldable pub case_eq : List ℕ → List ℕ → Bool
case_eq [] [] = true
case_eq (a ∷ s) (b ∷ t) = tolower a == tolower b && case_eq s t
case_eq _ _ = false

-- `strncmp(s, p, strlen(p)) == 0`
unfoldable pub starts_with : List ℕ → List ℕ → Bool
starts_with s [] = true
starts_with [] (b ∷ p) = false
starts_with (a ∷ s) (b ∷ p) = a == b && starts_with s p

pub str_eq_iff : (s t : List ℕ) → (str_eq s t ≡ true) ↔ (s ≡ t)
unfolding str_eq
str_eq_iff [] [] = (λ h. refl, λ h. refl)
str_eq_iff [] (b ∷ t) = (λ h. cc, λ h. cc)
str_eq_iff (a ∷ s) [] = (λ h. cc, λ h. cc)
str_eq_iff (a ∷ s) (b ∷ t) =
    (λ h. ground (arith, (str_eq_iff s t).0), λ h. ground (arith, (str_eq_iff s t).1))

pub case_eq_refl : (s : List ℕ) → case_eq s s ≡ true
unfolding case_eq
case_eq_refl [] = refl
case_eq_refl (a ∷ s) = ground (arith, case_eq_refl s)
