-- ===== src/Utils/OptValue.antt =====
-- What `find_opt_value` of src/utils.c promises.
use cwdaemon.Base.{
  ℕ, ◌≡◌, ◌↔◌, refl, true, false, some, List, [], ◌∷◌, ◌++◌, arith, ◌≢◌, length, ◌||◌, All, inl,
  inr, Option-cases,
}
use cwdaemon.Utils.CString.{case_eq}
use cwdaemon.Utils.{opt_success, split_eq, last_is_space, first_is_space, is_empty, find_opt_value}

abbrev pub NoEquals : List ℕ → Type 0
NoEquals = All (λ c. c ≢ b'=')

pub split_eq-append :
    (key value : List ℕ) → NoEquals key → split_eq (key ++ b'=' ∷ value) ≡ some (key, value)
unfolding split_eq
split_eq-append [] value h = refl
split_eq-append (c ∷ key) value h = ground (arith, split_eq-append key value h.1)

pub split_eq-some :
    (s key value : List ℕ)
    → split_eq s ≡ some (key, value)
    → (s ≡ key ++ b'=' ∷ value) × NoEquals key
unfolding split_eq
split_eq-some [] key value h = cc
split_eq-some (c ∷ s) key value h = elim (Option-cases (split_eq s)) [
  | inl gone ↦ ground arith
  | inr (pair, found) ↦ ground (arith, split_eq-some s pair.0 pair.1 found)
]

pub length-case_eq : (s t : List ℕ) → case_eq s t ≡ true → length s ≡ length t
unfolding case_eq
length-case_eq [] [] h = refl
length-case_eq [] (b ∷ t) h = cc
length-case_eq (a ∷ s) [] h = cc
length-case_eq (a ∷ s) (b ∷ t) h = ground (arith, length-case_eq s t)

pub find_opt_value_complete :
    (key value keyword : List ℕ)
    → NoEquals key
    → is_empty key ≡ false
    → (last_is_space key || first_is_space value) ≡ false
    → case_eq key keyword ≡ true
    → find_opt_value (key ++ b'=' ∷ value) keyword ≡ opt_success value
unfolding find_opt_value
find_opt_value_complete key value keyword h e sp k =
    rw (split_eq-append key value h, find_opt_value) (ground (arith, length-case_eq key keyword k))

-- The text is `key=value`, where the key has no '=' in it, is not empty and is the keyword in some
-- case, with no space on either side of the first '='.
abbrev pub IsOption : List ℕ → List ℕ → List ℕ → Type 0
IsOption input keyword value =
    (key : List ℕ) × (input ≡ key ++ b'=' ∷ value)
    × NoEquals key
    × (is_empty key ≡ false)
    × ((last_is_space key || first_is_space value) ≡ false)
    × (case_eq key keyword ≡ true)

pub find_opt_value_sound :
    (input keyword value : List ℕ)
    → find_opt_value input keyword ≡ opt_success value
    → IsOption input keyword value
unfolding find_opt_value
find_opt_value_sound input keyword value h = elim (Option-cases (split_eq input)) [
  | inl gone ↦ absurd (ground arith)
  | inr ((key, rest), found) ↦
      let e = split_eq-some input key rest found in
      (key, ground arith, ground arith, ground arith, ground arith, ground arith)
]

-- The parser finds a value for a keyword exactly in a text `key=value` with that value, where the
-- key has no '=' in it, is not empty and is the keyword in some case, with no space on either side
-- of the first '='.
pub find_opt_value_lem :
    (input keyword value : List ℕ)
    → (find_opt_value input keyword ≡ opt_success value) ↔ IsOption input keyword value
find_opt_value_lem input keyword value = (
  find_opt_value_sound input keyword value,
  λ (key, text, plain, some_key, tight, same).
      rw text (find_opt_value_complete key value keyword plain some_key tight same),
)
