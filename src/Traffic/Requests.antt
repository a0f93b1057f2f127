-- ===== src/Traffic/Requests.antt =====
-- A request from a client makes one reply due to it at most: `cwdaemon_receive`,
-- `cwdaemon_handle_escaped_request` and `cwdaemon_play_request` of src/cwdaemon.c.
use cwdaemon.Base.{ℕ, ◌+◌, ◌≡◌, true, List, [], ◌==◌, arith, ap, ◌∙◌}
use cwdaemon.World.Calls.{
  Env, Address, AudioSystem, Kind, cw_flush_tone_queue, cw_wait_for_tone_queue,
}
use cwdaemon.World.State.{no_ptt}
use cwdaemon.World.Run.{M, run, ◌>>=◌, ◌>>◌, gets, perform, when}
use cwdaemon.World.Yields.{
  state_rules, call-Holds, Takes, Holds, holds_rules, Keeps-Holds, Takes->>=, Takes->>, Takes-if,
  Takes-first, Takes-last, Takes-gets, Takes-when, Holds-skip, Holds->>=, Holds-when, Holds-if,
  Holds-pure, Takes-stop, Holds->>, Holds-gets,
}
use cwdaemon.Sound.{
  configure_libcw, cwdaemon_reset_almost_all, cwdaemon_reset_libcw_output, set_audio_output,
}
use cwdaemon.Ptt.{change_ptt, is_set, cwdaemon_set_ptt_off}
use cwdaemon.Reply.{cwdaemon_prepare_reply, cwdaemon_sendto}
use cwdaemon.Escape.{
  esc_reset, esc_speed, esc_tone, esc_abort, esc_word_mode, esc_weighting, store_delay, fall_back,
  change_sound_system, esc_volume, esc_reply, break_text, set_tone, set_volume, set_weighting,
  set_ptt_delay, set_audio_system,
}
use cwdaemon.Escape.Dispatch.{
  EscCode, reset, speed, tone, abort, exit_daemon, word_mode, weighting, cwdevice, port, ptt_state,
  ssb_way, tune, tx_delay, band_switch, sound_system, volume, reply_code, unknown, dispatch,
}
use cwdaemon.Play.{set_queue, set_speed}
use cwdaemon.Params.{PttDelay, refused, accepted, clipped}
use cwdaemon.Frame.Devices.{dev_reset_pins_state-Keeps}
use cwdaemon.Frame.Handlers.{
  Holds-if_some, open_output-Keeps, close_output-Keeps, esc_cwdevice-Keeps, esc_ssb_way-Keeps,
  esc_band_switch-Keeps,
}
use cwdaemon.Frame.Flags.{
  no_ptt-Keeps, set_ptt_off-Keeps, ensure_ptt_off-Keeps, esc_tune-Keeps, ptt_on_off-Keeps,
}
use cwdaemon.Traffic.{one_if}
use cwdaemon.Traffic.Rules.{
  Count, Spent, Fresh, Fresh-IsFrame, Fresh-IsRemote, Fresh-IsFlagFree, Spent-IsFrame,
  Spent-IsFlagFree,
}

pub ruleset fresh_rules =
    (state_rules, Keeps-Holds, Fresh-IsFrame, Fresh-IsRemote, Fresh-IsFlagFree)

ruleset spent_rules = (state_rules, Keeps-Holds, Spent-IsFrame, Spent-IsFlagFree)

module _ (e : Env) (a addr : Address) (n : ℕ) where
  reset_all-Fresh : (k : Kind) → Holds (Fresh a addr n) (cwdaemon_reset_almost_all e k)
  unfolding cwdaemon_reset_almost_all cwdaemon_reset_libcw_output set_audio_output configure_libcw
  reset_all-Fresh k = search (fresh_rules, open_output-Keeps, close_output-Keeps) depth 16

  reset-Fresh : Holds (Fresh a addr n) (esc_reset e)
  unfolding esc_reset set_queue
  reset-Fresh =
      search (fresh_rules, reset_all-Fresh, dev_reset_pins_state-Keeps, no_ptt-Keeps) depth 12

  speed-Fresh : (payload : List ℕ) → Holds (Fresh a addr n) (esc_speed e payload)
  unfolding esc_speed set_speed
  speed-Fresh payload = search (fresh_rules, Holds-if_some)

  tone-Fresh : (payload : List ℕ) → Holds (Fresh a addr n) (esc_tone e payload)
  unfolding esc_tone set_tone
  tone-Fresh payload = search (fresh_rules, Holds-if_some) depth 12

  weighting-Fresh : (payload : List ℕ) → Holds (Fresh a addr n) (esc_weighting e payload)
  unfolding esc_weighting set_weighting
  weighting-Fresh payload = search (fresh_rules, Holds-if_some)

  volume-Fresh : (payload : List ℕ) → Holds (Fresh a addr n) (esc_volume e payload)
  unfolding esc_volume set_volume
  volume-Fresh payload = search (fresh_rules, Holds-if_some)

  delay-Fresh : (d : PttDelay) → Holds (Fresh a addr n) (store_delay e d)
  unfolding store_delay set_ptt_delay
  delay-Fresh refused = Holds-skip
  delay-Fresh (accepted k) = search (fresh_rules, ensure_ptt_off-Keeps)
  delay-Fresh (clipped k) = search (fresh_rules, ensure_ptt_off-Keeps)

  fall_back-Fresh : Holds (Fresh a addr n) (fall_back e)
  unfolding fall_back set_audio_system set_audio_output
  fall_back-Fresh = search (fresh_rules, open_output-Keeps, close_output-Keeps) depth 9

  sound-Fresh : (audio : AudioSystem) → Holds (Fresh a addr n) (change_sound_system e audio)
  unfolding change_sound_system set_audio_system set_audio_output configure_libcw
  sound-Fresh audio =
      search (fresh_rules, open_output-Keeps, close_output-Keeps, fall_back-Fresh) depth 20

  -- a reply becomes due to the client that is served
  pub prepare-Count :
      (text : List ℕ) (m : ℕ)
      → Takes (Fresh a addr n) (Count a (n + one_if (addr == a))) (cwdaemon_prepare_reply text m)
  unfolding cwdaemon_prepare_reply change_ptt run
  prepare-Count text m = record { at = λ s i. ground arith }

  -- the text of an abort is sent in place of the reply that is due
  told-Spent :
      (reply : List ℕ)
      → Takes (λ s. Count a n s × (s.ptt_flag.echo ≡ true)) (Spent a n) (cwdaemon_sendto e reply)
  unfolding cwdaemon_sendto run
  told-Spent reply = record { at = λ s i. ground arith }

  silence-Count : Takes (Spent a n) (Count a n) (change_ptt (λ f. no_ptt))
  unfolding change_ptt run
  silence-Count = record { at = λ s i. ground arith }

  pub settled :
      {A : Type 0} {m : M A}
      → Holds (Fresh a addr n) m
      → Takes (Fresh a addr n) (Count a (n + one_if (addr == a))) m
  settled h = Takes-last (λ s i. omega (arith, i.0)) h

  rest_of_abort : Takes (Spent a n) (Count a n) (do
    set_queue []
    perform cw_flush_tone_queue
    perform cw_wait_for_tone_queue
    now ← gets (λ s. s.ptt_flag)
    when (is_set now) (cwdaemon_set_ptt_off e)
    change_ptt (λ f. no_ptt))
  unfolding set_queue
  rest_of_abort = Takes->> _ (Spent a n) _ _ _ (search spent_rules) (
      Takes->> _ (Spent a n) _ _ _ (search spent_rules) (
        Takes->> _ (Spent a n) _ _ _ (search spent_rules) (
          Takes->>= _ (Spent a n) _ _ _ (Holds-gets _) (λ now.
            Takes->> _ (Spent a n) _ _ _ (search (spent_rules, set_ptt_off-Keeps)) silence-Count))))

  abort-Count : Holds (Count a n) (esc_abort e)
  unfolding esc_abort
  abort-Count = Holds->>= _ _ (Holds-gets _) (λ word. Holds-when _ _ (
      Takes-gets _ _ (λ flag.
        Takes->> _ (Spent a n) _ _ _
          (Takes-when flag.echo _
            (λ due.
              Takes->> _ (Spent a n) _ _ _
                (Takes-first (λ s i. (i.0, ap (λ g. g.echo) i.1 ∙ due)) (told-Spent break_text))
                Holds-skip)
            (λ quiet s i. omega (arith, i.0)))
          rest_of_abort)))

  -- Every Escape request makes one reply due at most, to the client that is served.
  pub dispatch-Count :
      (code : EscCode) (payload text : List ℕ)
      → Takes (Fresh a addr n) (Count a (n + one_if (addr == a))) (dispatch e code payload text)
  unfolding dispatch esc_word_mode set_queue esc_reply
  dispatch-Count reset payload text = settled reset-Fresh
  dispatch-Count speed payload text = settled (speed-Fresh payload)
  dispatch-Count tone payload text = settled (tone-Fresh payload)
  dispatch-Count abort payload text =
      Takes-first (λ s i. i.0) (Takes-last (λ s i. omega (arith, i)) abort-Count)
  dispatch-Count exit_daemon payload text = Takes-stop 0
  dispatch-Count word_mode payload text = settled (search fresh_rules)
  dispatch-Count weighting payload text = settled (weighting-Fresh payload)
  dispatch-Count cwdevice payload text = settled (search (fresh_rules, esc_cwdevice-Keeps))
  dispatch-Count port payload text = settled Holds-skip
  dispatch-Count ptt_state payload text = settled (search (fresh_rules, ptt_on_off-Keeps))
  dispatch-Count ssb_way payload text = settled (search (fresh_rules, esc_ssb_way-Keeps))
  dispatch-Count tune payload text = settled (search (fresh_rules, esc_tune-Keeps))
  dispatch-Count tx_delay payload text = settled (delay-Fresh _)
  dispatch-Count band_switch payload text = settled (search (fresh_rules, esc_band_switch-Keeps))
  dispatch-Count sound_system payload text = settled (Holds-if_some _ _ sound-Fresh)
  dispatch-Count volume payload text = settled (volume-Fresh payload)
  dispatch-Count reply_code payload text = prepare-Count text _
  dispatch-Count unknown payload text = settled Holds-skip
