-- ===== src/Liveness/Requests.antt =====
-- No request but `<ESC>5` ends the process if no call returns a negative number:
-- `cwdaemon_handle_escaped_request` and `cwdaemon_receive` of src/cwdaemon.c.
use cwdaemon.Base.{ℕ, ◌≢◌, refl, Bool, Option, none, some, List}
use cwdaemon.World.Calls.{Env, CallsSucceed, AudioSystem, Kind, lp}
use cwdaemon.World.Run.{Void}
use cwdaemon.World.Stays.{Stays, stays_rules, Stays-skip}
use cwdaemon.Device.{dev_ssbway, dev_switchband}
use cwdaemon.Params.{PttDelay, refused, accepted, clipped}
use cwdaemon.Ptt.{change_ptt}
use cwdaemon.Sound.{set_audio_output}
use cwdaemon.Play.{set_queue, set_speed}
use cwdaemon.Escape.{
  set_tone, set_volume, set_weighting, set_ptt_delay, set_audio_system, if_some, esc_reset,
  esc_speed, esc_tone, esc_abort, esc_word_mode, esc_weighting, esc_cwdevice, esc_ssb_way, esc_tune,
  ensure_ptt_off, store_delay, esc_tx_delay, cwdaemon_switch_band, esc_band_switch, fall_back,
  change_sound_system, esc_sound_system, esc_volume, esc_reply,
}
use cwdaemon.Escape.Dispatch.{
  EscCode, reset, speed, tone, abort, exit_daemon, word_mode, weighting, cwdevice, port, ptt_state,
  ssb_way, tune, tx_delay, band_switch, sound_system, volume, reply_code, unknown, dispatch,
}
use cwdaemon.Request.{receive_text}
use cwdaemon.Liveness.Devices.{
  dev_reset_pins_state-Stays, lp_ssbway-Stays, lp_switchband-Stays, option_cwdevice-Stays,
}
use cwdaemon.Liveness.Handlers.{
  set_ptt_off-Stays, tune-Stays, ptt_on_off-Stays, open_output-Stays, close_output-Stays,
  configure-Stays, reset_almost_all-Stays, sendto-Stays, prepare_reply-Stays, play_request-Stays,
}

Stays-if_some :
    {A : Type 0} (o : Option A) (f : A → Void) → ((a : A) → Stays (f a)) → Stays (if_some o f)
unfolding if_some
Stays-if_some none f h = Stays-skip
Stays-if_some (some a) f h = h a

ruleset request_rules = (stays_rules, Stays-if_some)

module _ (e : Env) where
  fall_back-Stays : Stays (fall_back e)
  unfolding fall_back set_audio_system set_audio_output
  fall_back-Stays = search (stays_rules, open_output-Stays, close_output-Stays) depth 9

  change_sound-Stays : (a : AudioSystem) → Stays (change_sound_system e a)
  unfolding change_sound_system set_audio_system set_audio_output
  change_sound-Stays a =
      search (stays_rules, open_output-Stays, close_output-Stays, configure-Stays, fall_back-Stays)
        depth 12

module _ (e : Env) (w : CallsSucceed e) where
  store_delay-Stays : (d : PttDelay) → Stays (store_delay e d)
  unfolding store_delay ensure_ptt_off set_ptt_delay
  store_delay-Stays refused = Stays-skip
  store_delay-Stays (accepted n) = search (stays_rules, set_ptt_off-Stays) depth 8
  store_delay-Stays (clipped n) = search (stays_rules, set_ptt_off-Stays) depth 8

  ssbway-Stays : (k : Kind) (b : Bool) → Stays (if_some (dev_ssbway e k) (λ f. f b))
  unfolding dev_ssbway if_some
  ssbway-Stays lp b = lp_ssbway-Stays e w b
  ssbway-Stays _ b = Stays-skip

  switchband-Stays : (k : Kind) (n : ℕ) → Stays (if_some (dev_switchband e k) (λ f. f n))
  unfolding dev_switchband if_some
  switchband-Stays lp n = lp_switchband-Stays e w n
  switchband-Stays _ n = Stays-skip

  -- Each Escape request but the one to exit.
  pub dispatch-Stays :
      (code : EscCode) (payload text : List ℕ)
      → code ≢ exit_daemon
      → Stays (dispatch e code payload text)
  unfolding dispatch esc_reset esc_speed esc_tone esc_abort esc_word_mode esc_weighting esc_cwdevice
      esc_ssb_way esc_tune esc_tx_delay esc_band_switch cwdaemon_switch_band esc_sound_system
      esc_volume esc_reply set_tone set_volume set_weighting set_speed set_queue change_ptt
  dispatch-Stays reset payload text h =
      search (stays_rules, reset_almost_all-Stays, dev_reset_pins_state-Stays) depth 12
  dispatch-Stays speed payload text h = search request_rules
  dispatch-Stays tone payload text h = search request_rules depth 12
  dispatch-Stays abort payload text h =
      search (stays_rules, sendto-Stays, set_ptt_off-Stays) depth 16
  dispatch-Stays exit_daemon payload text h = elim (h refl) [ ]
  dispatch-Stays word_mode payload text h = search stays_rules
  dispatch-Stays weighting payload text h = search request_rules
  dispatch-Stays cwdevice payload text h = search (stays_rules, option_cwdevice-Stays) depth 9
  dispatch-Stays port payload text h = Stays-skip
  dispatch-Stays ptt_state payload text h = search (stays_rules, ptt_on_off-Stays)
  dispatch-Stays ssb_way payload text h = search (request_rules, ssbway-Stays) depth 8
  dispatch-Stays tune payload text h = Stays-if_some _ _ (tune-Stays e w)
  dispatch-Stays tx_delay payload text h = store_delay-Stays _
  dispatch-Stays band_switch payload text h = search (request_rules, switchband-Stays) depth 8
  dispatch-Stays sound_system payload text h = Stays-if_some _ _ (change_sound-Stays e)
  dispatch-Stays volume payload text h = search request_rules
  dispatch-Stays reply_code payload text h = prepare_reply-Stays text _
  dispatch-Stays unknown payload text h = Stays-skip

  pub receive_text-Stays : (text : List ℕ) → Stays (receive_text e text)
  unfolding receive_text set_queue
  receive_text-Stays text = search (stays_rules, play_request-Stays) depth 9
