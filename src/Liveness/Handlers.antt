-- ===== src/Liveness/Handlers.antt =====
-- The PTT, the libcw output, the playing of a text and the callbacks of src/cwdaemon.c do not end
-- the process if no call returns a negative number.
use cwdaemon.Base.{
  ℕ, zero, suc, Bool, true, false, Option, none, some, List, [], ◌∷◌, ◌++◌, ℤ, ◌==◌, if◌then◌else◌,
}
use cwdaemon.Utils.{cwdaemon_get_long}
use cwdaemon.World.Calls.{Env, CallsSucceed, AudioSystem, Kind}
use cwdaemon.World.State.{Params}
use cwdaemon.World.Stays.{
  Stays, stays_rules, Stays-skip, Stays-if, Stays->>, Stays->>=, Stays-perform, Stays-gets,
}
use cwdaemon.Ptt.{
  change_ptt, cwdaemon_set_ptt_on, cwdaemon_set_ptt_off, queue_seconds, cwdaemon_tune,
  ptt_manual_on, ptt_manual_off, set_ptt_state, cwdaemon_params_ptt_on_off,
}
use cwdaemon.Sound.{
  set_audio_output, retry_oss, cwdaemon_open_libcw_output, cwdaemon_close_libcw_output,
  configure_libcw, cwdaemon_reset_libcw_output, cwdaemon_reset_almost_all,
}
use cwdaemon.Reply.{cwdaemon_prepare_reply, cwdaemon_sendto}
use cwdaemon.Play.{
  set_queue, set_speed, is_speed_sign, change_speed, play_character, after_character, handle_caret,
  play_loop, cwdaemon_play_request,
}
use cwdaemon.Callback.{
  cwdaemon_keyingevent, queue_is_low, send_reply, cwdaemon_tone_queue_low_callback,
}
use cwdaemon.Liveness.Devices.{dev_cw-Stays, dev_ptt-Stays}

module _ (e : Env) (w : CallsSucceed e) where
  pub set_ptt_on-Stays : Stays (cwdaemon_set_ptt_on e)
  unfolding cwdaemon_set_ptt_on change_ptt
  set_ptt_on-Stays = search (stays_rules, dev_ptt-Stays) depth 9

  pub set_ptt_off-Stays : Stays (cwdaemon_set_ptt_off e)
  unfolding cwdaemon_set_ptt_off change_ptt
  set_ptt_off-Stays = search (stays_rules, dev_ptt-Stays) depth 9

  queue_seconds-Stays : (n : ℕ) → Stays (queue_seconds e n)
  unfolding queue_seconds
  queue_seconds-Stays zero = Stays-skip
  queue_seconds-Stays (suc n) =
      Stays->>= _ _ (Stays-gets _) (λ tone. Stays->> _ _ (Stays-perform _) (queue_seconds-Stays n))

  pub tune-Stays : (n : ℕ) → Stays (cwdaemon_tune e n)
  unfolding cwdaemon_tune
  tune-Stays n = search (stays_rules, queue_seconds-Stays, set_ptt_on-Stays) depth 9

  manual_on-Stays : Stays (ptt_manual_on e)
  unfolding ptt_manual_on change_ptt
  manual_on-Stays = search (stays_rules, set_ptt_on-Stays) depth 9

  manual_off-Stays : Stays (ptt_manual_off e)
  unfolding ptt_manual_off change_ptt
  manual_off-Stays = search (stays_rules, set_ptt_off-Stays) depth 14

  set_ptt_state-Stays : (o : Option ℤ) → Stays (set_ptt_state e o)
  unfolding set_ptt_state
  set_ptt_state-Stays none = search stays_rules
  set_ptt_state-Stays (some lv) = search (stays_rules, manual_on-Stays, manual_off-Stays)

  pub ptt_on_off-Stays : (text : List ℕ) → Stays (cwdaemon_params_ptt_on_off e text)
  unfolding cwdaemon_params_ptt_on_off
  ptt_on_off-Stays text = set_ptt_state-Stays (cwdaemon_get_long (some text))

  play_character-Stays : (c : ℕ) → Stays (play_character e c)
  unfolding play_character
  play_character-Stays c = search (stays_rules, set_ptt_on-Stays)

  pub keyingevent-Stays : (k : Kind) (state : ℕ) → Stays (cwdaemon_keyingevent e k state)
  unfolding cwdaemon_keyingevent
  keyingevent-Stays k state = search (stays_rules, dev_cw-Stays)

pub prepare_reply-Stays : (text : List ℕ) (n : ℕ) → Stays (cwdaemon_prepare_reply text n)
unfolding cwdaemon_prepare_reply change_ptt
prepare_reply-Stays text n = search stays_rules depth 8

module _ (e : Env) where
  retry_oss-Stays : (n : ℕ) (a : AudioSystem) (rv : ℤ) → Stays (retry_oss e n a rv)
  unfolding retry_oss
  retry_oss-Stays zero a rv = search stays_rules
  retry_oss-Stays (suc n) a rv = search (stays_rules, retry_oss-Stays n) depth 8

  pub open_output-Stays : (a : AudioSystem) → Stays (cwdaemon_open_libcw_output e a)
  unfolding cwdaemon_open_libcw_output
  open_output-Stays a = search (stays_rules, retry_oss-Stays) depth 9

  pub close_output-Stays : Stays cwdaemon_close_libcw_output
  unfolding cwdaemon_close_libcw_output
  close_output-Stays = search stays_rules

  pub configure-Stays : (p : Params) → Stays (configure_libcw p)
  unfolding configure_libcw
  configure-Stays p = search stays_rules depth 9

  pub reset_almost_all-Stays : (k : Kind) → Stays (cwdaemon_reset_almost_all e k)
  unfolding cwdaemon_reset_almost_all cwdaemon_reset_libcw_output set_audio_output
  reset_almost_all-Stays k =
      search (stays_rules, open_output-Stays, close_output-Stays, configure-Stays) depth 14

  pub sendto-Stays : (reply : List ℕ) → Stays (cwdaemon_sendto e reply)
  unfolding cwdaemon_sendto
  sendto-Stays reply = search stays_rules depth 8

  change_speed-Stays : (c : ℕ) (rest : List ℕ) → Stays (change_speed e c rest)
  unfolding change_speed set_speed
  change_speed-Stays c rest = search stays_rules depth 10

  caret-Stays : (done : List ℕ) → Stays (handle_caret e done)
  unfolding handle_caret set_queue
  caret-Stays done = search (stays_rules, prepare_reply-Stays)

  after_character-Stays : (rest : List ℕ) → Stays (after_character e rest)
  unfolding after_character
  after_character-Stays rest = search stays_rules depth 8

  send_reply-Stays : Stays (send_reply e)
  unfolding send_reply change_ptt
  send_reply-Stays = search (stays_rules, sendto-Stays) depth 12

  queue_is_low-Stays : (b : Bool) → Stays (queue_is_low e b)
  unfolding queue_is_low
  queue_is_low-Stays true = search stays_rules
  queue_is_low-Stays false = search stays_rules

module _ (e : Env) (w : CallsSucceed e) where
  play_loop-Stays : (jump : Bool) (done rest : List ℕ) → Stays (play_loop e jump done rest)
  unfolding play_loop set_queue
  play_loop-Stays jump done [] = Stays-skip
  play_loop-Stays true done (c ∷ rest) = play_loop-Stays false (done ++ c ∷ []) rest
  play_loop-Stays false done (c ∷ rest) =
      let c' : ℕ = if c == b'*' then b'+' else c in
      let next = λ (b : Bool). play_loop-Stays b (done ++ c' ∷ []) rest in
      Stays-if (is_speed_sign c) _ _ (Stays->> _ _ (change_speed-Stays e c rest) (next false)) (
        Stays-if (c == b'~') _ _ (Stays->> _ _ (Stays-perform _) (next false)) (
          Stays-if (c == b'^') _ _ (caret-Stays e done) (
            Stays->> _ _ (search stays_rules) (
              Stays->> _ _ (play_character-Stays e w c')
                (Stays->>= _ _ (after_character-Stays e rest) next)))))

  pub play_request-Stays : Stays (cwdaemon_play_request e)
  unfolding cwdaemon_play_request set_queue
  play_request-Stays = search (stays_rules, play_loop-Stays)

  pub callback-Stays : Stays (cwdaemon_tone_queue_low_callback e)
  unfolding cwdaemon_tone_queue_low_callback
  callback-Stays =
      search (stays_rules, queue_is_low-Stays, send_reply-Stays, set_ptt_off-Stays) depth 12
