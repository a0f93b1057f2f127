-- ===== src/Reply/Trim.antt =====
-- The trimming of a request by `cwdaemon_recvfrom` of src/socket.c.
use cwdaemon.Base.{
  ℕ, ◌≡◌, refl, ap, Bool, true, false, List, [], ◌∷◌, ◌++◌, ◌||◌, ◌==◌, All, Bool-cases, inl, inr,
  if◌then◌else◌,
}
use cwdaemon.Reply.{trim_crlf}

abbrev pub is_cr_or_lf : ℕ → Bool
is_cr_or_lf c = c == 10 || c == 13

abbrev pub last_is_crlf : List ℕ → Bool
last_is_crlf [] = false
last_is_crlf (c ∷ []) = is_cr_or_lf c
last_is_crlf (c ∷ d ∷ s) = last_is_crlf (d ∷ s)

-- `t` is `s` without its trailing CRs and LFs.
abbrev pub IsTrimmed : List ℕ → List ℕ → Type 0
IsTrimmed s t =
    (last_is_crlf t ≡ false)
    × ((tail : List ℕ) × (s ≡ t ++ tail) × All (λ c. is_cr_or_lf c ≡ true) tail)

IsTrimmed-cons :
    (c : ℕ) (s t : List ℕ)
    → IsTrimmed s t
    → IsTrimmed (c ∷ s) (elim t [ [] ↦ if is_cr_or_lf c then [] else c ∷ [] | d ∷ u ↦ c ∷ d ∷ u ])
IsTrimmed-cons c s [] (_, (tail, q, h)) = elim (Bool-cases (is_cr_or_lf c)) [
  | inl p ↦ rw p (refl, (c ∷ tail, ap (λ x. c ∷ x) q, (p, h)))
  | inr p ↦ rw p (p, (tail, ap (λ x. c ∷ x) q, h))
]
IsTrimmed-cons c s (d ∷ u) (l, (tail, q, h)) = (l, (tail, ap (λ x. c ∷ x) q, h))

-- A request is its trimmed text and a row of CRs and LFs behind it, and the trimmed text ends in
-- neither.
pub trim_crlf_lem :
    (s : List ℕ)
    → (last_is_crlf (trim_crlf s) ≡ false)
      × ((tail : List ℕ) × (s ≡ trim_crlf s ++ tail) × All (λ c. is_cr_or_lf c ≡ true) tail)
unfolding trim_crlf
trim_crlf_lem [] = (refl, ([], refl, tt))
trim_crlf_lem (c ∷ s) = IsTrimmed-cons c s (trim_crlf s) (trim_crlf_lem s)
