-- ===== src/Utils/Strtol.antt =====
-- `strtol(buf, &ep, 10)` of the C library, for a `long` of 64 bits.
use cwdaemon.Base.{
  ℕ, zero, suc, ◌+◌, ◌-◌, ◌*◌, ◌^◌, Bool, true, false, List, [], ◌∷◌, leb, ◌==◌, if◌then◌else◌, ℤ,
  pos, negsuc,
}
use cwdaemon.Utils.CString.{isspace, isdigit}

-- LONG_MAX, and -(LONG_MIN + 1)
abbrev pub long_magnitude : ℕ
long_magnitude = 2 ^ 63 - 1

abbrev pub long_max : ℤ
long_max = pos long_magnitude

abbrev pub long_min : ℤ
long_min = negsuc long_magnitude

unfoldable pub skip_space : List ℕ → List ℕ
skip_space [] = []
skip_space (c ∷ s) = if isspace c then skip_space s else c ∷ s

-- A run of digits, its value from the left, and what follows it.
unfoldable pub scan : List ℕ → ℕ → ℕ × List ℕ
scan [] acc = (acc, [])
scan (c ∷ s) acc = elim (isdigit c) [ true ↦ scan s (acc * 10 + (c - b'0')) | false ↦ (acc, c ∷ s) ]

pub record StrtolResult : Type 0 where
  -- the value returned
  pub value : ℤ
  -- what `*ep` points at
  pub rest : List ℕ
  -- whether `errno` is set to ERANGE
  pub erange : Bool

-- The optional sign: whether it is a minus, and what follows it.
unfoldable pub sign : List ℕ → Bool × List ℕ
sign [] = (false, [])
sign (c ∷ s) = if c == b'-' then (true, s) else if c == b'+' then (false, s) else (false, c ∷ s)

-- The number that a sign and a magnitude stand for, and whether it had to be clipped.
unfoldable pub signed : Bool → ℕ → ℤ × Bool
signed false n = if leb n long_magnitude then (pos n, false) else (long_max, true)
signed true zero = (pos 0, false)
signed true (suc n) = if leb n long_magnitude then (negsuc n, false) else (long_min, true)

-- With no digits nothing is converted, and `*ep` is the start of the text.
unfoldable pub convert : List ℕ → Bool → List ℕ → StrtolResult
convert buf minus [] = record { value = pos 0; rest = buf; erange = false }
convert buf minus (c ∷ s) =
    if isdigit c
    then (let (n, rest) = scan (c ∷ s) 0 in
        let (z, clipped) = signed minus n in record { value = z; rest = rest; erange = clipped })
    else record { value = pos 0; rest = buf; erange = false }

unfoldable pub strtol : List ℕ → StrtolResult
unfolding skip_space sign convert scan signed
strtol buf = let (minus, s) = sign (skip_space buf) in convert buf minus s
