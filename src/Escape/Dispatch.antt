-- ===== src/Escape/Dispatch.antt =====
-- The choice of the handler of an Escape request by its code: `cwdaemon_handle_escaped_request` of
-- src/cwdaemon.c, and CWDAEMON_ESC_REQUEST_* of src/cwdaemon.h.
use cwdaemon.Base.{ℕ, List, drop, ◌==◌, if◌then◌else◌, get_or}
use cwdaemon.Utils.CString.{c_str}
use cwdaemon.World.Calls.{Env}
use cwdaemon.World.Run.{Void, ◌>>◌, skip, stop}
use cwdaemon.Ptt.{cwdaemon_params_ptt_on_off}
use cwdaemon.Escape.{
  esc_reset, esc_speed, esc_tone, esc_abort, esc_word_mode, esc_weighting, esc_cwdevice,
  esc_ssb_way, esc_tune, esc_tx_delay, esc_band_switch, esc_sound_system, esc_volume, esc_reply,
}

-- The Escape codes.
pub data EscCode : Type 0 where
  reset speed tone abort exit_daemon word_mode weighting cwdevice port ptt_state ssb_way : EscCode
  tune tx_delay band_switch sound_system volume reply_code unknown : EscCode

-- CWDAEMON_ESC_REQUEST_* of src/cwdaemon.h
unfoldable pub esc_code : ℕ → EscCode
esc_code c =
    if c == b'0'
    then reset
    else if c == b'2'
    then speed
    else if c == b'3'
    then tone
    else if c == b'4'
    then abort
    else if c == b'5'
    then exit_daemon
    else if c == b'6'
    then word_mode
    else if c == b'7'
    then weighting
    else if c == b'8'
    then cwdevice
    else if c == b'9'
    then port
    else if c == b'a'
    then ptt_state
    else if c == b'b'
    then ssb_way
    else if c == b'c'
    then tune
    else if c == b'd'
    then tx_delay
    else if c == b'e'
    then band_switch
    else if c == b'f'
    then sound_system
    else if c == b'g'
    then volume
    else if c == b'h'
    then reply_code
    else unknown

-- The cases of the `switch`: `payload` is `request + 2`, `text` is `request + 1`.
unfoldable pub dispatch : Env → EscCode → List ℕ → List ℕ → Void
unfolding esc_reset esc_speed esc_tone esc_abort esc_word_mode esc_weighting esc_cwdevice
    cwdaemon_params_ptt_on_off esc_ssb_way esc_tune esc_tx_delay esc_band_switch esc_sound_system
    esc_volume esc_reply
dispatch e reset payload text = esc_reset e
dispatch e speed payload text = esc_speed e payload
dispatch e tone payload text = esc_tone e payload
dispatch e abort payload text = esc_abort e
dispatch e exit_daemon payload text = stop 0
dispatch e word_mode payload text = esc_word_mode e
dispatch e weighting payload text = esc_weighting e payload
dispatch e cwdevice payload text = esc_cwdevice e payload
dispatch e port payload text = skip
dispatch e ptt_state payload text = cwdaemon_params_ptt_on_off e payload >> skip
dispatch e ssb_way payload text = esc_ssb_way e payload
dispatch e tune payload text = esc_tune e payload
dispatch e tx_delay payload text = esc_tx_delay e payload
dispatch e band_switch payload text = esc_band_switch e payload
dispatch e sound_system payload text = esc_sound_system e payload
dispatch e volume payload text = esc_volume e payload
dispatch e reply_code payload text = esc_reply text
dispatch e unknown payload text = skip

-- `bytes` are those of the request, behind which the buffer holds NULs.
unfoldable pub cwdaemon_handle_escaped_request : Env → List ℕ → Void
unfolding dispatch esc_code c_str
cwdaemon_handle_escaped_request e bytes =
    dispatch e (esc_code (get_or bytes 1 0)) (c_str (drop 2 bytes)) (c_str (drop 1 bytes))
