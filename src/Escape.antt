-- ===== src/Escape.antt =====
-- `cwdaemon_handle_escaped_request` of src/cwdaemon.c: one definition for each Escape code. The
-- code under HAVE_LINUX_PPDEV_H is taken. Both `device` and `dev` are `global_cwdevice` at entry.
pub mod Dispatch
pub mod Band
pub mod Abort
pub mod Restore
pub mod Cwdevice
use Prim.Native.Nat.{bit_and, bit_or}
use cwdaemon.Base.{
  ℕ, zero, suc, ◌+◌, ◌*◌, ◌^◌, Bool, true, false, not, ◌||◌, ◌&&◌, Option, none, some, List, [],
  ◌∷◌, drop, ◌==◌, if◌then◌else◌, ℤ, pos, negsuc, ltb_ℤ, eqb_ℤ, get_or, length, pos_part,
}
use cwdaemon.Utils.{cwdaemon_get_long}
use cwdaemon.Utils.CString.{c_str, codes}
use cwdaemon.World.Calls.{
  AudioSystem, audio_null, Call, Env, cw_set_send_speed, cw_set_frequency, cw_set_volume,
  cw_set_weighting, cw_flush_tone_queue, cw_wait_for_tone_queue, cw_register_keying_callback,
}
use cwdaemon.World.State.{Daemon, Params, PttFlag, no_ptt}
use cwdaemon.World.Run.{
  M, Void, ◌>>=◌, ◌>>◌, pure, skip, gets, modify, call, perform, when, stop, require,
}
use cwdaemon.Device.{dev_reset_pins_state, dev_ssbway, dev_switchband, cwdaemon_option_cwdevice}
use cwdaemon.Params.{
  cwdaemon_params_wpm, cwdaemon_params_volume, cwdaemon_params_tone, cwdaemon_params_tune,
  cwdaemon_params_weighting, cwdaemon_params_system, cwdaemon_params_pttdelay, PttDelay, refused,
  accepted, clipped,
}
use cwdaemon.Ptt.{
  change_ptt, is_set, cwdaemon_set_ptt_off, cwdaemon_tune, cwdaemon_params_ptt_on_off,
}
use cwdaemon.Sound.{
  libcw_weighting, set_audio_output, cwdaemon_open_libcw_output, cwdaemon_close_libcw_output,
  configure_libcw, cwdaemon_reset_almost_all,
}
use cwdaemon.Reply.{crlf, cwdaemon_prepare_reply, cwdaemon_sendto}
use cwdaemon.Play.{set_queue, set_speed}

unfoldable pub set_tone : ℤ → Void
set_tone z = modify (λ s. record s { current = record s.current { morse_tone = z } })

unfoldable pub set_volume : ℤ → Void
set_volume z = modify (λ s. record s { current = record s.current { morse_volume = z } })

unfoldable pub set_weighting : ℤ → Void
set_weighting z = modify (λ s. record s { current = record s.current { weighting = z } })

unfoldable pub set_ptt_delay : ℕ → Void
set_ptt_delay n = modify (λ s. record s { current = record s.current { ptt_delay_ms = n } })

unfoldable pub set_audio_system : AudioSystem → Void
set_audio_system a = modify (λ s. record s { current = record s.current { audio_system = a } })

-- The body of an `if (cwdaemon_params_…(&value, …))`.
unfoldable pub if_some : {A : Type 0} → Option A → (A → Void) → Void
if_some none f = skip
if_some (some a) f = f a

abbrev pub break_text : List ℕ
break_text = b'b' ∷ b'r' ∷ b'e' ∷ b'a' ∷ b'k' ∷ crlf

-- `(band & 0x01) | ((band & 0x0e) << 4)`
abbrev pub band_pattern : ℕ → ℕ
band_pattern band = bit_or (bit_and band 0x01) (bit_and band 0x0e * 2 ^ 4)

module _ (e : Env) where
  unfoldable pub esc_reset : Void
  unfolding cwdaemon_reset_almost_all dev_reset_pins_state
  esc_reset = do
    dev ← gets (λ s. s.global_cwdevice)
    set_queue []
    cwdaemon_reset_almost_all e dev
    modify (λ s. record s { wordmode = false; async_abort = 0 })
    dev_reset_pins_state e dev
    change_ptt (λ f. no_ptt)

  unfoldable pub esc_speed : List ℕ → Void
  unfolding cwdaemon_params_wpm
  esc_speed payload =
      if_some (cwdaemon_params_wpm e payload) λ z. do set_speed z; perform (cw_set_send_speed z)

  unfoldable pub esc_tone : List ℕ → Void
  unfolding cwdaemon_params_tone
  esc_tone payload = do
    require (eqb_ℤ e.frequency_min (pos 0))
    if_some (cwdaemon_params_tone e payload) λ z. do
      set_tone z
      volume ← gets (λ s. s.current.morse_volume)
      if ltb_ℤ (pos 0) z
          then (do perform (cw_set_frequency z); perform (cw_set_volume volume))
          else perform (cw_set_volume (pos 0))

  unfoldable pub esc_abort : Void
  unfolding cwdaemon_sendto cwdaemon_set_ptt_off
  esc_abort = do
    word ← gets (λ s. s.wordmode)
    when (not word) (do
      flag ← gets (λ s. s.ptt_flag)
      when flag.echo (cwdaemon_sendto e break_text >> skip)
      set_queue []
      perform cw_flush_tone_queue
      perform cw_wait_for_tone_queue
      now ← gets (λ s. s.ptt_flag)
      when (is_set now) (cwdaemon_set_ptt_off e)
      change_ptt (λ f. no_ptt))

  unfoldable pub esc_word_mode : Void
  esc_word_mode = do set_queue []; modify (λ s. record s { wordmode = true })

  unfoldable pub esc_weighting : List ℕ → Void
  unfolding cwdaemon_params_weighting
  esc_weighting payload =
      if_some (cwdaemon_params_weighting payload)
        λ z. do set_weighting z; perform (cw_set_weighting (libcw_weighting z))

  unfoldable pub esc_cwdevice : List ℕ → Void
  unfolding cwdaemon_option_cwdevice
  esc_cwdevice payload = do
    perform (cw_register_keying_callback none)
    changed ← cwdaemon_option_cwdevice e (some payload)
    device ← gets (λ s. s.global_cwdevice)
    when changed (perform (cw_register_keying_callback (some device)))

  -- true is SOUNDCARD
  unfoldable pub esc_ssb_way : List ℕ → Void
  unfolding dev_ssbway
  esc_ssb_way payload = if_some (cwdaemon_get_long (some payload)) λ lv. do
    dev ← gets (λ s. s.global_cwdevice)
    if_some (dev_ssbway e dev) λ ssbway. ssbway (not (eqb_ℤ lv (pos 0)))

  unfoldable pub esc_tune : List ℕ → Void
  unfolding cwdaemon_tune cwdaemon_params_tune
  esc_tune payload = if_some (cwdaemon_params_tune payload) (cwdaemon_tune e)

  -- `if (rv && g_current_ptt_delay_ms == 0)`, where `rv` is not 0
  unfoldable pub ensure_ptt_off : Void
  unfolding cwdaemon_set_ptt_off
  ensure_ptt_off = do
    delay ← gets (λ s. s.current.ptt_delay_ms)
    when (delay == 0) (cwdaemon_set_ptt_off e)

  -- the three results of `cwdaemon_params_pttdelay`
  unfoldable pub store_delay : PttDelay → Void
  unfolding ensure_ptt_off
  store_delay refused = skip
  store_delay (accepted n) = do set_ptt_delay n; ensure_ptt_off
  store_delay (clipped n) = do set_ptt_delay n; ensure_ptt_off

  unfoldable pub esc_tx_delay : List ℕ → Void
  unfolding cwdaemon_params_pttdelay store_delay
  esc_tx_delay payload = store_delay (cwdaemon_params_pttdelay payload)

  -- The band fits the `unsigned char` of the method.
  unfoldable pub cwdaemon_switch_band : ℕ → Void
  unfolding dev_switchband
  cwdaemon_switch_band band = do
    dev ← gets (λ s. s.global_cwdevice)
    if_some (dev_switchband e dev) λ switchband. switchband (band_pattern band)

  unfoldable pub esc_band_switch : List ℕ → Void
  unfolding cwdaemon_switch_band
  esc_band_switch payload = if_some (cwdaemon_get_long (some payload)) λ lv.
      when (not (ltb_ℤ lv (pos 0)) && not (ltb_ℤ (pos 15) lv)) (cwdaemon_switch_band (pos_part lv))

  -- The sound system that was asked for cannot be opened: fall back to the null one.
  unfoldable pub fall_back : Void
  unfolding cwdaemon_close_libcw_output cwdaemon_open_libcw_output
  fall_back = do
    cwdaemon_close_libcw_output
    opened ← cwdaemon_open_libcw_output e audio_null
    if opened
        then (do set_audio_system audio_null; set_audio_output true)
        else set_audio_output false

  unfoldable pub change_sound_system : AudioSystem → Void
  unfolding fall_back configure_libcw cwdaemon_close_libcw_output cwdaemon_open_libcw_output
  change_sound_system audio = do
    set_audio_system audio
    cwdaemon_close_libcw_output
    opened ← cwdaemon_open_libcw_output e audio
    if opened then set_audio_output true else fall_back
    has_output ← gets (λ s. s.has_audio_output)
    when has_output (do
      current ← gets (λ s. s.current)
      configure_libcw current
      device ← gets (λ s. s.global_cwdevice)
      perform (cw_register_keying_callback (some device)))

  unfoldable pub esc_sound_system : List ℕ → Void
  unfolding change_sound_system cwdaemon_params_system
  esc_sound_system payload = if_some (cwdaemon_params_system payload) change_sound_system

  unfoldable pub esc_volume : List ℕ → Void
  unfolding cwdaemon_params_volume
  esc_volume payload =
      if_some (cwdaemon_params_volume e payload) λ z. do set_volume z; perform (cw_set_volume z)

-- `<ESC>h`: the text from the `h` on is the reply.
unfoldable pub esc_reply : List ℕ → Void
unfolding cwdaemon_prepare_reply
esc_reply text = cwdaemon_prepare_reply text (length text)
