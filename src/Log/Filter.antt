-- ===== src/Log/Filter.antt =====
-- Which messages are written, where to, and what is written of them (src/log.c).
use cwdaemon.Base.{
  ℕ, ◌+◌, ◌≤◌, ◌≡◌, Bool, true, false, Option, none, some, List, [], ◌∷◌, ◌++◌, All, arith, length,
  length-append, length-take, ltb, Bool-cases, inl, inr, refl,
}
use cwdaemon.Utils.CString.{codes}
use cwdaemon.World.State.{Stream}
use cwdaemon.Log.{
  Output, syslog, fprintf, fflush, formatted, newline, log_line, log_get_priority_label,
  write_message, log_message, cwdaemon_debug,
}

-- The lines, without the flushes.
abbrev pub lines : List Output → List Output
lines [] = []
lines (fflush f ∷ l) = lines l
lines (o ∷ l) = o ∷ lines l

abbrev pub is_silent : List Output → Bool
is_silent [] = true
is_silent (_ ∷ _) = false

-- An output goes where it should, and its line has a bounded length: without a debug output it is
-- to the system's log, with the message's priority; else it is to the debug output.
abbrev pub IsPlaced : List ℕ → Option Stream → ℕ → Output → Type 0
IsPlaced name none priority (syslog p l) = (p ≡ priority) × (length l ≤ 1025)
IsPlaced name (some f) priority (fprintf g l) = (g ≡ f) × (length l ≤ length name + 1032)
IsPlaced name (some f) priority (fflush g) = g ≡ f
IsPlaced _ _ _ _ = ⊥

length-formatted : (text : List ℕ) → length (formatted text) ≤ 1024
length-formatted text = omega (arith, length-take 1024 text)

length-label : (priority : ℕ) → length (log_get_priority_label priority) ≡ 2
unfolding log_get_priority_label
length-label priority = ground arith

length-log_line :
    (name : List ℕ) (priority : ℕ) (text : List ℕ)
    → length (log_line name priority (formatted text)) ≤ length name + 1032
unfolding log_line
length-log_line name priority text =
    let t : List ℕ = formatted text ++ newline in
    let message = length-append (formatted text) newline in
    let named = length-append name (codes ": " ++ t) in
    let labelled =
      length-append (log_get_priority_label priority) (codes "] " ++ (name ++ (codes ": " ++ t))) in
    omega (arith, length-formatted text, length-label priority)

-- A message is written if and only if it is not above the threshold, by each of the two ways to
-- log; what they write goes to the debug output, if one is open, and is the same there. Else one of
-- them writes to the system's log, with the message's priority, and the other nothing. A line has
-- at most 1032 bytes more than the name of the package, and at most 1025 bytes in the system's log.
pub log_message-cwdaemon_debug :
    (name : List ℕ) (debug_f : Option Stream) (threshold priority : ℕ) (text : List ℕ)
    → All (IsPlaced name debug_f priority) (log_message name debug_f threshold priority text)
      × All (IsPlaced name debug_f priority) (cwdaemon_debug name debug_f threshold priority text)
      × (is_silent (log_message name debug_f threshold priority text) ≡ ltb threshold priority)
      × (lines (cwdaemon_debug name debug_f threshold priority text)
          ≡ elim debug_f [ none ↦ [] | some f ↦ log_message name (some f) threshold priority text ])
unfolding log_message cwdaemon_debug write_message
log_message-cwdaemon_debug name none threshold priority text =
    elim (Bool-cases (ltb threshold priority)) [
      | inl h ↦ rw h (tt, tt, refl, refl)
      | inr h ↦ rw h (
        ((refl, omega (arith, length-formatted text, length-append (formatted text) newline)), tt),
        tt,
        refl,
        refl,
      )
    ]
log_message-cwdaemon_debug name (some f) threshold priority text =
    elim (Bool-cases (ltb threshold priority)) [
      | inl h ↦ rw h (tt, tt, refl, refl)
      | inr h ↦
          let short = length-log_line name priority text in
          rw h (((refl, short), tt), ((refl, short), (refl, tt)), refl, refl)
    ]
