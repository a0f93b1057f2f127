-- ===== src/Keyer/Score.antt =====
-- What a text makes of the keyer, and of libcw: the characters that libcw was told to send, each at
-- its speed and with its gap. The text is one of `cwdaemon_play_request` (src/cwdaemon.c). Where the
-- code looks ahead for the end of a run of '+' and '-', the speed is clipped here when it is used.
use cwdaemon.Base.{
  ℕ, ◌≡◌, Bool, false, not, ◌&&◌, Option, some, List, [], ◌∷◌, ◌++◌, ◌==◌, if◌then◌else◌, ℤ, pos,
  negsuc, ◌+ℤ◌,
}
use cwdaemon.World.Calls.{Call, Env, cw_set_gap, cw_get_gap, cw_send_character}
use cwdaemon.World.State.{Daemon}
use cwdaemon.Play.{is_speed_sign, head_is, clamp_speed}
use cwdaemon.Escape.Dispatch.{reply_code}
use cwdaemon.Settings.{last_told, speed_of}
use cwdaemon.Keyer.{Keyer, view, with_values, push, obey}

-- A character that was sent, with the speed and the gap that libcw had been told before.
pub record Note : Type 0 where
  pub character : ℕ
  pub speed : Option ℤ
  pub gap : ℕ

abbrev pub last_gap : List Call → ℕ
last_gap [] = 0
last_gap (cw_set_gap n ∷ t) = n
last_gap (_ ∷ t) = last_gap t

-- The characters that libcw was told to send, the newest first.
abbrev pub notes : List Call → List Note
notes [] = []
notes (cw_send_character c ∷ t) =
    record { character = c; speed = last_told speed_of t; gap = last_gap t } ∷ notes t
notes (_ ∷ t) = notes t

-- libcw documents that `cw_get_gap` returns what `cw_set_gap` has set.
pub record RemembersGap (e : Env) : Type 0 where
  pub gap_ok : (t : List Call) → e.returns t cw_get_gap ≡ pos (last_gap t)

pub record Station : Type 0 where
  pub keyer : Keyer
  pub told : Option ℤ
  pub gap : ℕ
  pub notes : List Note

abbrev pub show : Daemon → Station
show s = record {
  keyer = view s;
  told = last_told speed_of s.trace;
  gap = last_gap s.trace;
  notes = notes s.trace;
}

abbrev pub at_speed : ℤ → Keyer → Keyer
at_speed z = with_values (λ p. record p { morse_speed = z })

-- A '+' or a '-' asks for 2 words per minute more or less.
abbrev pub hasten : ℕ → Station → Station
hasten c st = record st {
  keyer =
      at_speed (st.keyer.values.morse_speed +ℤ (if c == b'+' then pos 2 else negsuc 1)) st.keyer;
}

-- The speed that was asked for is clipped before it is used.
abbrev pub settle : Env → Station → Station
settle e st =
    let z : ℤ = clamp_speed e st.keyer.values.morse_speed in
    record st { keyer = at_speed z st.keyer; told = some z }

abbrev pub add_note : ℕ → Station → List Note
add_note c st =
    if c == 0xff
    then st.notes
    else record { character = c; speed = st.told; gap = st.gap } ∷ st.notes

-- A character is sent with the PTT on; all but the one that libcw cannot stand.
abbrev pub key : ℕ → Station → Station
key c st = record st { keyer = push st.keyer; notes = add_note c st }

-- A '^' behind a character with a '~' belongs to the text, and the gap stays.
abbrev pub holds_caret : List ℕ → Station → Bool
holds_caret rest st = st.gap == 2 && head_is (λ d. d == b'^') rest

abbrev pub end_gap : List ℕ → Station → Station
end_gap rest st = record st { gap = if st.gap == 2 && not (holds_caret rest st) then 0 else st.gap }

-- The text so far becomes the reply that is due.
abbrev pub owe : Env → List ℕ → Station → Station
owe e before st = record st { keyer = obey e false reply_code [] before st.keyer }

-- A '*' stands for a '+' that is sent.
abbrev pub starred : ℕ → ℕ
starred c = if c == b'*' then b'+' else c

-- What a character is in a text.
pub data Mark : Type 0 where
  literal speed_sign wide_gap reply_sign plain : Mark

abbrev pub mark_of : Bool → ℕ → Mark
mark_of is_literal c =
    if is_literal
    then literal
    else if is_speed_sign c
    then speed_sign
    else if c == b'~'
    then wide_gap
    else if c == b'^'
    then reply_sign
    else plain

-- The text from a character on, behind the text `before`; the flag says that the character, a '^',
-- is a part of the text.
unfoldable pub score : Env → Bool → List ℕ → List ℕ → Station → Station
score e is_literal before [] st = settle e st
score e is_literal before (c ∷ rest) st =
    let next = λ (b : Bool). score e b (before ++ starred c ∷ []) rest in
    let settled : Station = settle e st in
    elim (mark_of is_literal c) [
      | literal ↦ score e false (before ++ c ∷ []) rest st
      | speed_sign ↦ next false (hasten c st)
      | wide_gap ↦ next false (record settled { gap = 2 })
      | reply_sign ↦ owe e before settled
      | plain ↦ next (holds_caret rest settled) (end_gap rest (key (starred c) settled))
    ]
