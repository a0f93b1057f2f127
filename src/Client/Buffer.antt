-- ===== src/Client/Buffer.antt =====
-- What the buffer of `netkeyer` of examples/example.c holds, and what `cwdaemon_recvfrom` makes of
-- it.
use cwdaemon.Base.{
  ℕ, zero, suc, ◌+◌, ◌-◌, ◌≤◌, ◌≡◌, refl, ap, ◌∙◌, true, false, List, [], ◌∷◌, ◌++◌, some, ◌==◌,
  arith, length, All, leb, drop, length-append,
}
use cwdaemon.Utils.CString.{c_str}
use cwdaemon.Reply.{trim_crlf}
use cwdaemon.Client.{sprintf, escaped, blank, nuls}

-- No NUL is among the bytes.
abbrev pub NoNul : List ℕ → Type 0
NoNul text = All (λ c. (c == 0) ≡ false) text

drop-nuls : (k n : ℕ) → drop k (nuls n) ≡ nuls (n - k)
drop-nuls zero n = ap nuls (omega arith)
drop-nuls (suc k) zero = let q : 0 ≡ 0 - suc k = omega arith in ap nuls q
drop-nuls (suc k) (suc n) = drop-nuls k n ∙ ap nuls (omega arith)

length-nuls : (n : ℕ) → length (nuls n) ≡ n
length-nuls zero = refl
length-nuls (suc n) = ap suc (length-nuls n)

trim_crlf-nuls : (n : ℕ) → trim_crlf (nuls (suc n)) ≡ nuls (suc n)
unfolding trim_crlf
trim_crlf-nuls zero = refl
trim_crlf-nuls (suc n) = rw (trim_crlf-nuls n) refl

-- With NULs behind it nothing is trimmed, and a C string ends there.
pub trim_crlf-padded : (s : List ℕ) (n : ℕ) → trim_crlf (s ++ nuls (suc n)) ≡ s ++ nuls (suc n)
unfolding trim_crlf
trim_crlf-padded [] n = trim_crlf-nuls n
trim_crlf-padded (c ∷ []) n = rw (trim_crlf-nuls n) refl
trim_crlf-padded (c ∷ d ∷ s) n = rw (trim_crlf-padded (d ∷ s) n) refl

pub c_str-padded : (s : List ℕ) (n : ℕ) → NoNul s → c_str (s ++ nuls (suc n)) ≡ s
unfolding c_str
c_str-padded [] n h = refl
c_str-padded (c ∷ s) n (h, hs) = rw h (ap (λ t. c ∷ t) (c_str-padded s n hs))

pub length-padded : (s : List ℕ) (n : ℕ) → length (s ++ nuls n) ≡ length s + n
length-padded s n = omega (arith, length-append s (nuls n), length-nuls n)

pub sprintf-escaped :
    (letter : ℕ) (value : List ℕ)
    → length value ≤ 77
    → sprintf 2 value (escaped letter)
      ≡ some (27 ∷ letter ∷ value ++ nuls (suc (77 - length value)))
unfolding sprintf
sprintf-escaped letter value h =
    let fits : leb (2 + length value + 1) 80 ≡ true = ground arith in
    let at : 2 + length value + 1 ≡ suc (suc (suc (length value))) = omega arith in
    rw (fits, at, drop-nuls (length value) 77) refl

pub sprintf-blank :
    (value : List ℕ)
    → length value ≤ 79
    → sprintf 0 value blank ≡ some (value ++ nuls (suc (79 - length value)))
unfolding sprintf
sprintf-blank value h =
    let fits : leb (0 + length value + 1) 80 ≡ true = ground arith in
    let at : 0 + length value + 1 ≡ suc (length value) = omega arith in
    rw (fits, at, drop-nuls (length value) 79) refl
