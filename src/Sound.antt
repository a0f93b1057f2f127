-- ===== src/Sound.antt =====
-- The libcw output of src/cwdaemon.c: opening, closing and resetting it.
use cwdaemon.Base.{
  ℕ, zero, suc, ◌+◌, ◌-◌, ◌*◌, ◌/◌, Bool, true, false, not, ◌&&◌, some, leb, if◌then◌else◌, ℤ, pos,
  eqb_ℤ, pos_part, neg_part, sub_ℕ,
}
use cwdaemon.World.Calls.{
  AudioSystem, audio_oss, Env, cw_generator_new, cw_generator_start, cw_generator_stop,
  cw_generator_delete, cw_register_tone_queue_low_callback, cw_register_keying_callback,
  cw_set_frequency, cw_set_send_speed, cw_set_volume, cw_set_weighting, cw_set_gap, sleep, Kind,
}
use cwdaemon.World.State.{Params}
use cwdaemon.World.Run.{M, Void, ◌>>=◌, ◌>>◌, pure, gets, modify, call, perform}

-- CW_FAILURE and CW_SUCCESS of libcw.h
abbrev pub cw_failure : ℤ
cw_failure = pos 0

abbrev pub cw_success : ℤ
cw_success = pos 1

abbrev pub tq_low_watermark : ℕ
tq_low_watermark = 1

abbrev is_oss : AudioSystem → Bool
is_oss audio_oss = true
is_oss _ = false

-- `(int) (weighting * 0.6 + 50)`: the exact value, in tenths, is cut towards zero. For the
-- weightings from -50 to 50 the `double` arithmetic of the source has the same result.
abbrev pub libcw_weighting : ℤ → ℤ
libcw_weighting w =
    if leb (6 * neg_part w) (6 * pos_part w + 500)
    then pos ((6 * pos_part w + 500 - 6 * neg_part w) / 10)
    else sub_ℕ 0 ((6 * neg_part w - (6 * pos_part w + 500)) / 10)

unfoldable pub set_audio_output : Bool → Void
set_audio_output b = modify (λ s. record s { has_audio_output = b })

module _ (e : Env) where
  -- the loop that gives a busy OSS device some time
  unfoldable pub retry_oss : ℕ → AudioSystem → ℤ → M ℤ
  retry_oss zero audio rv = pure rv
  retry_oss (suc n) audio rv = do
    perform (sleep 4)
    again ← call e (cw_generator_new audio)
    if eqb_ℤ again cw_success then pure again else retry_oss n audio again

  unfoldable pub cwdaemon_open_libcw_output : AudioSystem → M Bool
  unfolding retry_oss
  cwdaemon_open_libcw_output audio_system = do
    first ← call e (cw_generator_new audio_system)
    rv ←
        (if is_oss audio_system && eqb_ℤ first cw_failure
          then retry_oss 5 audio_system first
          else pure first)
    started ← (if not (eqb_ℤ rv cw_failure) then call e cw_generator_start else pure rv)
    pure (not (eqb_ℤ started cw_failure))

unfoldable pub cwdaemon_close_libcw_output : Void
cwdaemon_close_libcw_output = do perform cw_generator_stop; perform cw_generator_delete

-- The settings that a new generator is given.
unfoldable pub configure_libcw : Params → Void
configure_libcw p = do
  perform (cw_register_tone_queue_low_callback tq_low_watermark)
  perform (cw_set_frequency p.morse_tone)
  perform (cw_set_send_speed p.morse_speed)
  perform (cw_set_volume p.morse_volume)
  perform (cw_set_gap 0)
  perform (cw_set_weighting (libcw_weighting p.weighting))

module _ (e : Env) where
  -- The result is whether the function returns 0.
  unfoldable pub cwdaemon_reset_libcw_output : M Bool
  unfolding cwdaemon_close_libcw_output cwdaemon_open_libcw_output configure_libcw
  cwdaemon_reset_libcw_output = do
    cwdaemon_close_libcw_output
    defaults ← gets (λ s. s.defaults)
    opened ← cwdaemon_open_libcw_output e defaults.audio_system
    if opened then (do configure_libcw defaults; pure true) else pure false

  unfoldable pub cwdaemon_reset_almost_all : Kind → M Bool
  unfolding cwdaemon_reset_libcw_output
  cwdaemon_reset_almost_all dev = do
    modify (λ s. record s { current = s.defaults })
    done ← cwdaemon_reset_libcw_output
    if done
        then (do set_audio_output true; perform (cw_register_keying_callback (some dev)); pure true)
        else (do set_audio_output false; pure false)
