-- ===== src/Utils/GetLong/Grammar.antt =====
-- The texts that `cwdaemon_get_long` accepts: white space, an optional sign, and decimal digits
-- whose number fits a `long`. The number is defined here by the weights of the digits.
use cwdaemon.Base.{
  ℕ, zero, suc, ◌+◌, ◌-◌, ◌*◌, ◌≡◌, ◌≢◌, refl, sym, ap, ◌∙◌, Bool, true, false, ◌⊎◌, inl, inr, List,
  [], ◌∷◌, ◌++◌, arith, All, Bool-cases, ℤ, pos, InRange, some, ◌==◌, sub_ℕ, append_assoc,
}
use cwdaemon.Utils.CString.{isspace, isdigit}
use cwdaemon.Utils.Strtol.{long_min, long_max, skip_space, sign, scan, signed, convert, strtol}
use cwdaemon.Utils.{cwdaemon_get_long, accept_long}

abbrev pub Digits : List ℕ → Type 0
Digits = All (λ c. isdigit c ≡ true)

abbrev pub Spaces : List ℕ → Type 0
Spaces = All (λ c. isspace c ≡ true)

-- 10 to the number of the digits.
abbrev weight : List ℕ → ℕ
weight [] = 1
weight (c ∷ s) = 10 * weight s

-- The number that a row of digits stands for.
abbrev pub decimal : List ℕ → ℕ
decimal [] = 0
decimal (c ∷ s) = (c - b'0') * weight s + decimal s

abbrev pub sign_text : Bool → List ℕ
sign_text true = b'-' ∷ []
sign_text false = b'+' ∷ []

abbrev pub negate_if : Bool → ℕ → ℤ
negate_if true n = sub_ℕ 0 n
negate_if false n = pos n

-- A text that is a decimal numeral, and its number.
pub record Numeral (buf : List ℕ) (z : ℤ) : Type 0 where
  pub spaces : List ℕ
  pub minus : Bool
  pub sign_part : List ℕ
  pub first : ℕ
  pub digits : List ℕ
  pub spaces_ok : Spaces spaces
  pub sign_ok : (sign_part ≡ sign_text minus) ⊎ ((sign_part ≡ []) × (minus ≡ false))
  pub digits_ok : Digits (first ∷ digits)
  pub text : buf ≡ spaces ++ (sign_part ++ first ∷ digits)
  pub number : z ≡ negate_if minus (decimal (first ∷ digits))

pub scan-Digits : (s : List ℕ) (acc : ℕ) → Digits s → scan s acc ≡ (acc * weight s + decimal s, [])
unfolding scan
scan-Digits [] acc h = ground arith
scan-Digits (c ∷ s) acc h = ground (arith, scan-Digits s (acc * 10 + (c - b'0')) h.1)

scan-end : (s : List ℕ) (acc : ℕ) → (scan s acc).1 ≡ [] → Digits s
unfolding scan
scan-end [] acc h = tt
scan-end (c ∷ s) acc h = ground (arith, scan-end s (acc * 10 + (c - b'0')))

skip_space-Spaces :
    (w : List ℕ) (c : ℕ) (s : List ℕ)
    → Spaces w
    → isspace c ≡ false
    → skip_space (w ++ c ∷ s) ≡ c ∷ s
unfolding skip_space
skip_space-Spaces [] c s h k = rw k
skip_space-Spaces (b ∷ w) c s h k = rw h.0 (skip_space-Spaces w c s h.1 k)

skip_space-split : (s : List ℕ) → (w : List ℕ) × Spaces w × (s ≡ w ++ skip_space s)
unfolding skip_space
skip_space-split [] = ([], tt, refl)
skip_space-split (c ∷ s) = elim (Bool-cases (isspace c)) [
  | inl e ↦ let (w, k, t) = skip_space-split s in (c ∷ w, (e, k), rw e (ap (λ u. c ∷ u) t))
  | inr e ↦ ([], tt, rw e)
]

signed_lem :
    (minus : Bool) (n : ℕ)
    → InRange long_min long_max (negate_if minus n)
    → signed minus n ≡ (negate_if minus n, false)
unfolding signed
signed_lem false n h = ground arith
signed_lem true zero h = ground arith
signed_lem true (suc n) h = ground arith

signed-accepted :
    (minus : Bool) (n : ℕ) (z : ℤ)
    → accept_long (record { value = (signed minus n).0; rest = []; erange = (signed minus n).1 })
      ≡ some z
    → (z ≡ negate_if minus n) × InRange long_min long_max z
unfolding signed
signed-accepted false n z h = ground arith
signed-accepted true zero z h = ground arith
signed-accepted true (suc n) z h = ground arith

scan-from-zero : (s : List ℕ) → Digits s → scan s 0 ≡ (decimal s, [])
scan-from-zero s h = ground (arith, scan-Digits s 0 h)

digit_not_space : (c : ℕ) → isdigit c ≡ true → isspace c ≡ false
digit_not_space c h = ground arith

convert-Digits :
    (buf : List ℕ) (minus : Bool) (d : ℕ) (ds : List ℕ)
    → Digits (d ∷ ds)
    → convert buf minus (d ∷ ds) ≡ record {
      value = (signed minus (decimal (d ∷ ds))).0;
      rest = [];
      erange = (signed minus (decimal (d ∷ ds))).1;
    }
unfolding convert
convert-Digits buf minus d ds h = rw (h.0, scan-from-zero (d ∷ ds) h) refl

sign-text :
    (sg : List ℕ) (minus : Bool) (d : ℕ) (ds : List ℕ)
    → (sg ≡ sign_text minus) ⊎ ((sg ≡ []) × (minus ≡ false))
    → isdigit d ≡ true
    → sign (sg ++ d ∷ ds) ≡ (minus, d ∷ ds)
unfolding sign
sign-text sg true d ds (inl e) h = rw e
sign-text sg false d ds (inl e) h = rw e
sign-text sg minus d ds (inr e) h = rw e.0 (ground arith)

sign-split :
    (s : List ℕ)
    → (sg : List ℕ) × (s ≡ sg ++ (sign s).1)
      × ((sg ≡ sign_text (sign s).0) ⊎ ((sg ≡ []) × ((sign s).0 ≡ false)))
unfolding sign
sign-split [] = ([], refl, inr (refl, refl))
sign-split (c ∷ s) = elim (Bool-cases (c == b'-')) [
  | inl e ↦ (c ∷ [], ground arith, ground arith)
  | inr e ↦ elim (Bool-cases (c == b'+')) [
    | inl p ↦ (c ∷ [], ground arith, ground arith)
    | inr p ↦ ([], ground arith, ground arith)
  ]
]

-- every conversion with something left over is refused
accept-rest :
    (z v : ℤ) (rest : List ℕ) (e : Bool)
    → accept_long (record { value = v; rest = rest; erange = e }) ≡ some z
    → rest ≡ []
accept-rest z v [] e h = refl
accept-rest z v (c ∷ s) e h = cc

convert-no_digit :
    (buf : List ℕ) (minus : Bool) (c : ℕ) (s : List ℕ)
    → isdigit c ≡ false
    → convert buf minus (c ∷ s) ≡ record { value = pos 0; rest = buf; erange = false }
unfolding convert
convert-no_digit buf minus c s h = rw h

convert-digit_rest :
    (buf : List ℕ) (minus : Bool) (c : ℕ) (s : List ℕ)
    → isdigit c ≡ true
    → (convert buf minus (c ∷ s)).rest ≡ (scan (c ∷ s) 0).1
unfolding convert
convert-digit_rest buf minus c s h = rw h

convert-accepted :
    (buf : List ℕ) (minus : Bool) (t : List ℕ) (z : ℤ)
    → buf ≢ []
    → accept_long (convert buf minus t) ≡ some z
    → (d : ℕ) × (ds : List ℕ) × (t ≡ d ∷ ds)
      × Digits (d ∷ ds)
      × (z ≡ negate_if minus (decimal (d ∷ ds)))
      × InRange long_min long_max z
convert-accepted buf minus [] z ne h =
    absurd (ne (unfold convert in accept-rest z (pos 0) buf false h))
convert-accepted buf minus (c ∷ s) z ne h = elim (Bool-cases (isdigit c)) [
  | inl e ↦
      let left = convert buf minus (c ∷ s) in
      let done = accept-rest z left.value left.rest left.erange h in
      let all = scan-end (c ∷ s) 0 (sym (convert-digit_rest buf minus c s e) ∙ done) in
      let (v, r) = signed-accepted minus _ z (rw (convert-Digits buf minus c s all) at h) in
      (c, s, refl, all, v, r)
  | inr e ↦
      absurd (ne (accept-rest z (pos 0) buf false (rw (convert-no_digit buf minus c s e) at h)))
]

strtol-accepted :
    (buf : List ℕ) (z : ℤ)
    → buf ≢ []
    → accept_long (strtol buf) ≡ some z
    → Numeral buf z × InRange long_min long_max z
unfolding strtol
strtol-accepted buf z ne h =
    let (w, spaces_ok, at_space) = skip_space-split buf in
    let (sg, at_sign, sign_ok) = sign-split (skip_space buf) in
    let (d, ds, at_digits, digits_ok, number, range) =
      convert-accepted buf (sign (skip_space buf)).0 (sign (skip_space buf)).1 z ne h in
    (
      record {
        spaces = w;
        minus = (sign (skip_space buf)).0;
        sign_part = sg;
        first = d;
        digits = ds;
        spaces_ok = spaces_ok;
        sign_ok = sign_ok;
        digits_ok = digits_ok;
        text = at_space ∙ ap (λ t. w ++ t) (at_sign ∙ ap (λ t. sg ++ t) at_digits);
        number = number;
      },
      range,
    )

-- Whatever `cwdaemon_get_long` accepts is white space, an optional sign and decimal digits, and the
-- result is the number of that numeral, within a `long`.
pub cwdaemon_get_long_sound :
    (buf : List ℕ) (z : ℤ)
    → cwdaemon_get_long (some buf) ≡ some z
    → Numeral buf z × InRange long_min long_max z
unfolding cwdaemon_get_long
cwdaemon_get_long_sound [] z h = cc
cwdaemon_get_long_sound (c ∷ s) z h = strtol-accepted (c ∷ s) z (λ e. cc) h

cwdaemon_get_long-not_empty :
    (buf : List ℕ) → buf ≢ [] → cwdaemon_get_long (some buf) ≡ accept_long (strtol buf)
unfolding cwdaemon_get_long
cwdaemon_get_long-not_empty [] h = absurd (h refl)
cwdaemon_get_long-not_empty (c ∷ s) h = refl

skip_space-sign :
    (w sg : List ℕ) (minus : Bool) (d : ℕ) (ds : List ℕ)
    → Spaces w
    → (sg ≡ sign_text minus) ⊎ ((sg ≡ []) × (minus ≡ false))
    → isdigit d ≡ true
    → skip_space (w ++ (sg ++ d ∷ ds)) ≡ sg ++ d ∷ ds
skip_space-sign w sg true d ds h (inl e) k = rw e (skip_space-Spaces w b'-' (d ∷ ds) h refl)
skip_space-sign w sg false d ds h (inl e) k = rw e (skip_space-Spaces w b'+' (d ∷ ds) h refl)
skip_space-sign w sg minus d ds h (inr e) k =
    rw e.0 (skip_space-Spaces w d ds h (digit_not_space d k))

strtol-Numeral :
    (buf : List ℕ) (z : ℤ)
    → Numeral buf z
    → InRange long_min long_max z
    → strtol buf ≡ record { value = z; rest = []; erange = false }
unfolding strtol
strtol-Numeral buf z n r =
    let stripped =
      ap skip_space n.text
      ∙ skip_space-sign n.spaces n.sign_part n.minus n.first n.digits n.spaces_ok n.sign_ok
          n.digits_ok.0 in
    let signs =
      ap sign stripped ∙ sign-text n.sign_part n.minus n.first n.digits n.sign_ok n.digits_ok.0 in
    let value = signed_lem n.minus (decimal (n.first ∷ n.digits)) (rw n.number at r) in
    rw (signs, convert-Digits buf n.minus n.first n.digits n.digits_ok, value)
      (rw (← n.number) refl)

append-cons-not_nil : (s t : List ℕ) (c : ℕ) → s ++ c ∷ t ≢ []
append-cons-not_nil [] t c e = cc
append-cons-not_nil (a ∷ s) t c e = cc

Numeral-not_nil : (buf : List ℕ) (z : ℤ) → Numeral buf z → buf ≢ []
Numeral-not_nil buf z n e =
    append-cons-not_nil (n.spaces ++ n.sign_part) n.digits n.first
      (append_assoc n.spaces n.sign_part (n.first ∷ n.digits) ∙ sym n.text ∙ e)

-- White space, an optional sign and decimal digits, with a number within a `long`, are accepted by
-- `cwdaemon_get_long`, with that number.
pub cwdaemon_get_long_complete :
    (buf : List ℕ) (z : ℤ)
    → Numeral buf z
    → InRange long_min long_max z
    → cwdaemon_get_long (some buf) ≡ some z
cwdaemon_get_long_complete buf z n r =
    cwdaemon_get_long-not_empty buf (Numeral-not_nil buf z n)
    ∙ ap accept_long (strtol-Numeral buf z n r)
