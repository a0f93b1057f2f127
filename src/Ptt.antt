-- ===== src/Ptt.antt =====
-- The PTT of src/cwdaemon.c: `cwdaemon_set_ptt_on`, `cwdaemon_set_ptt_off`,
-- `cwdaemon_params_ptt_on_off`, `cwdaemon_tune` and `cwdaemon_debug_ptt_flags`.
pub mod Flag
pub mod Release
use Prim.Native.Nat.{bit_and}
use cwdaemon.Base.{
  ℕ, zero, suc, Bool, true, false, not, ◌&&◌, ◌||◌, Option, none, some, List, [], ◌∷◌, ltb, ◌==◌,
  if◌then◌else◌, ℤ, pos, ltb_ℤ, eqb_ℤ,
}
use cwdaemon.Utils.{cwdaemon_get_long, is_empty}
use cwdaemon.World.Calls.{
  Call, Env, millisleep, cw_flush_tone_queue, cw_queue_tone, cw_send_character,
  cw_get_tone_queue_length,
}
use cwdaemon.World.State.{Daemon, Params, PttFlag, no_ptt, ptt_byte}
use cwdaemon.World.Run.{M, Void, ◌>>=◌, ◌>>◌, pure, skip, gets, modify, call, perform, when}
use cwdaemon.Device.{dev_ptt}

abbrev pub add_auto : PttFlag → PttFlag
add_auto f = record f { auto = true }

abbrev pub add_manual : PttFlag → PttFlag
add_manual f = record f { manual = true }

abbrev pub drop_manual : PttFlag → PttFlag
drop_manual f = record f { manual = false }

abbrev pub add_echo : PttFlag → PttFlag
add_echo f = record f { echo = true }

abbrev pub drop_echo : PttFlag → PttFlag
drop_echo f = record f { echo = false }

-- `if (ptt_flag)`, and `ptt_flag == PTT_ACTIVE_AUTO`
abbrev pub is_set : PttFlag → Bool
is_set f = f.auto || f.manual || f.echo

abbrev pub is_auto_only : PttFlag → Bool
is_auto_only f = f.auto && not f.manual && not f.echo

unfoldable pub change_ptt : (PttFlag → PttFlag) → Void
change_ptt g = modify (λ s. record s { ptt_flag = g s.ptt_flag })

-- `!n` of C
abbrev pub logical_not : ℕ → ℕ
logical_not n = if n == 0 then 1 else 0

-- `!(ptt_flag & !PTT_ACTIVE_AUTO)`
abbrev pub no_modifiers : PttFlag → Bool
no_modifiers f = bit_and (ptt_byte f) (logical_not 1) == 0

module _ (e : Env) where
  -- the current keying device, by its `ptt` method
  abbrev pub ptt : Bool → Void
  ptt onoff = do k ← gets (λ s. s.global_cwdevice); dev_ptt e k onoff

  unfoldable pub cwdaemon_set_ptt_on : Void
  unfolding dev_ptt
  cwdaemon_set_ptt_on = do
    delay ← gets (λ s. s.current.ptt_delay_ms)
    flag ← gets (λ s. s.ptt_flag)
    when (ltb 0 delay && not flag.auto)
        (do ptt true; perform (millisleep delay); change_ptt add_auto)

  unfoldable pub cwdaemon_set_ptt_off : Void
  unfolding dev_ptt
  cwdaemon_set_ptt_off = do ptt false; change_ptt (λ f. no_ptt)

  -- the loop that queues a second of tone at a time
  unfoldable pub queue_seconds : ℕ → Void
  queue_seconds zero = skip
  queue_seconds (suc n) = do
    tone ← gets (λ s. s.current.morse_tone)
    perform (cw_queue_tone 1000000 tone)
    queue_seconds n

  unfoldable pub cwdaemon_tune : ℕ → Void
  unfolding cwdaemon_set_ptt_on queue_seconds
  cwdaemon_tune seconds = when (ltb 0 seconds) (do
    perform cw_flush_tone_queue
    cwdaemon_set_ptt_on
    queue_seconds seconds
    perform (cw_send_character b'e'))

  -- a request for PTT on
  unfoldable pub ptt_manual_on : Void
  unfolding cwdaemon_set_ptt_on
  ptt_manual_on = do
    delay ← gets (λ s. s.current.ptt_delay_ms)
    when (ltb 0 delay) cwdaemon_set_ptt_on
    change_ptt add_manual

  -- a request for PTT off
  unfoldable pub ptt_manual_off : Void
  unfolding cwdaemon_set_ptt_off
  ptt_manual_off = do
    flag ← gets (λ s. s.ptt_flag)
    when flag.manual (do
      change_ptt drop_manual
      rest ← gets (λ s. s.ptt_flag)
      when (no_modifiers rest) (do
        queue ← gets (λ s. s.request_queue)
        -- `&&` reads the length of the tone queue only if no text is queued
        if is_empty queue
            then (do
              len ← call e cw_get_tone_queue_length
              if ltb_ℤ (pos 1) len then change_ptt add_auto else cwdaemon_set_ptt_off)
            else change_ptt add_auto))

  -- the value of the request, if it is a number
  unfoldable pub set_ptt_state : Option ℤ → M Bool
  unfolding ptt_manual_on ptt_manual_off
  set_ptt_state none = pure false
  set_ptt_state (some lv) = do if eqb_ℤ lv (pos 0) then ptt_manual_off else ptt_manual_on; pure true

  unfoldable pub cwdaemon_params_ptt_on_off : List ℕ → M Bool
  unfolding set_ptt_state
  cwdaemon_params_ptt_on_off optarg = set_ptt_state (cwdaemon_get_long (some optarg))

-- The letters of the debug text for the flag.
unfoldable pub cwdaemon_debug_ptt_flags : PttFlag → List ℕ
cwdaemon_debug_ptt_flags f =
    (if f.auto then b'A' else b'a')
    ∷ (if f.manual then b'M' else b'm')
    ∷ (if f.echo then b'E' else b'e')
    ∷ []
