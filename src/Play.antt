-- ===== src/Play.antt =====
-- `cwdaemon_play_request` of src/cwdaemon.c. Its argument is always `request_queue`: `done` is what
-- stands in the buffer before `x`, and the list that is walked is what `x` points at.
pub mod Caret
pub mod SpeedRun
use cwdaemon.Base.{
  ℕ, Bool, true, false, not, ◌||◌, ◌&&◌, List, [], ◌∷◌, ◌++◌, ◌==◌, if◌then◌else◌, ℤ, pos, negsuc,
  ◌+ℤ◌, ltb_ℤ, eqb_ℤ, length,
}
use cwdaemon.World.Calls.{Call, Env, cw_set_send_speed, cw_set_gap, cw_get_gap, cw_send_character}
use cwdaemon.World.State.{Daemon, Params}
use cwdaemon.World.Run.{M, Void, ◌>>=◌, ◌>>◌, pure, skip, gets, modify, call, perform, when}
use cwdaemon.Ptt.{cwdaemon_set_ptt_on}
use cwdaemon.Reply.{cwdaemon_prepare_reply}

unfoldable pub set_queue : List ℕ → Void
set_queue q = modify (λ s. record s { request_queue = q })

unfoldable pub set_speed : ℤ → Void
set_speed z = modify (λ s. record s { current = record s.current { morse_speed = z } })

abbrev pub is_speed_sign : ℕ → Bool
is_speed_sign c = c == b'+' || c == b'-'

-- `*x == c`, where `*x` may be the terminating NUL
abbrev pub head_is : (ℕ → Bool) → List ℕ → Bool
head_is test [] = false
head_is test (c ∷ s) = test c

-- `(*x == '+') ? 2 : -2`
abbrev speed_change : ℕ → ℤ
speed_change c = if c == b'+' then pos 2 else negsuc 1

-- The new speed, clipped to the limits of libcw.
unfoldable pub clamp_speed : Env → ℤ → ℤ
clamp_speed e z =
    if ltb_ℤ z e.speed_min then e.speed_min else if ltb_ℤ e.speed_max z then e.speed_max else z

module _ (e : Env) where
  -- the body of the `do … while`, and the code behind the loop if it ends here
  unfoldable pub change_speed : ℕ → List ℕ → Void
  unfolding clamp_speed ◌+ℤ◌
  change_speed c rest = do
    speed ← gets (λ s. s.current.morse_speed)
    set_speed (speed +ℤ speed_change c)
    when (not (head_is is_speed_sign rest)) (do
      total ← gets (λ s. s.current.morse_speed)
      set_speed (clamp_speed e total)
      clipped ← gets (λ s. s.current.morse_speed)
      perform (cw_set_send_speed clipped))

  -- from `default:` to the `x++` behind the character
  unfoldable pub play_character : ℕ → Void
  unfolding cwdaemon_set_ptt_on
  play_character c = do
    cwdaemon_set_ptt_on e
    when (not (c == 0xff)) (perform (cw_send_character c))

  -- Whether the next character, a '^', is jumped over; else the gap is reset.
  unfoldable pub after_character : List ℕ → M Bool
  after_character rest = do
    gap ← call e cw_get_gap
    if eqb_ℤ gap (pos 2)
        then (if head_is (λ d. d == b'^') rest
            then pure true
            else (do perform (cw_set_gap 0); pure false))
        else pure false

  -- `*x = '\0'`, and the reply of what stands before it
  unfoldable pub handle_caret : List ℕ → Void
  unfolding cwdaemon_prepare_reply
  handle_caret done = do set_queue done; cwdaemon_prepare_reply done (length done)

  -- The loop; the flag says that `x` is about to jump over the next character.
  unfoldable pub play_loop : Bool → List ℕ → List ℕ → Void
  unfolding change_speed play_character after_character handle_caret
  play_loop jump done [] = skip
  play_loop jump done (c ∷ rest) =
      let c' : ℕ = if not jump && c == b'*' then b'+' else c in
      let next = λ (b : Bool). play_loop b (done ++ c' ∷ []) rest in
      if jump
      then next false
      else if is_speed_sign c
      then (do change_speed c rest; next false)
      else if c == b'~'
      then (do perform (cw_set_gap 2); next false)
      else if c == b'^'
      then handle_caret done
      else (do
        when (c == b'*') (set_queue (done ++ b'+' ∷ rest))
        play_character c'
        jumps ← after_character rest
        next jumps)

  unfoldable pub cwdaemon_play_request : Void
  unfolding play_loop
  cwdaemon_play_request = do
    queue ← gets (λ s. s.request_queue)
    play_loop false [] queue
    set_queue []
