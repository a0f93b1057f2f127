-- ===== src/Invariant/Requests.antt =====
-- A request, whatever its bytes, and a callback of libcw keep the invariant and do not fault.
use cwdaemon.Base.{
  ℕ, ◌+◌, ◌≤◌, ◌≡◌, refl, false, List, [], arith, length, drop, length-drop, take_all, leb,
}
use cwdaemon.Utils.CString.{c_str, length-c_str}
use cwdaemon.World.Calls.{Env, IsLibcw}
use cwdaemon.World.State.{Daemon}
use cwdaemon.World.Run.{◌>>=◌, ◌>>◌, modify, gets}
use cwdaemon.World.Keeps.{
  Leads, Keeps, Leads->>, Leads-if, Leads-first, Keeps->>, Keeps-pure, Keeps-skip, Keeps-stop,
}
use cwdaemon.Reply.{append_bounded, Received, shut_down, error, no_request, request}
use cwdaemon.Play.{is_speed_sign, head_is, set_queue, play_loop, cwdaemon_play_request}
use cwdaemon.Escape.{esc_reply}
use cwdaemon.Escape.Dispatch.{
  EscCode, reset, speed, tone, abort, exit_daemon, word_mode, weighting, cwdevice, port, ptt_state,
  ssb_way, tune, tx_delay, band_switch, sound_system, volume, reply_code, unknown, dispatch,
  cwdaemon_handle_escaped_request,
}
use cwdaemon.Request.{receive_text, receive_request, act_on}
use cwdaemon.Invariant.{playing, IsSound, IsIdle}
use cwdaemon.Invariant.Handlers.{cwdaemon_prepare_reply-IsSound, cwdaemon_params_ptt_on_off-IsSound}
use cwdaemon.Invariant.Reset.{esc_reset-IsSound}
use cwdaemon.Invariant.Replace.{esc_cwdevice-IsSound}
use cwdaemon.Invariant.Escapes.{
  esc_speed-IsSound, esc_tone-IsSound, esc_abort-IsSound, esc_word_mode-IsSound,
  esc_weighting-IsSound, esc_ssb_way-IsSound, esc_tune-IsSound, esc_tx_delay-IsSound,
  esc_band_switch-IsSound, esc_sound_system-IsSound, esc_volume-IsSound,
}
use cwdaemon.Invariant.Playing.{in_run, loosen, play_loop-IsSound}

module _ {e : Env} (l : IsLibcw e) where
  -- Every Escape request, its code and its payload arbitrary.
  pub dispatch-IsIdle :
      (code : EscCode) (payload text : List ℕ)
      → length text ≤ 255
      → Keeps (IsIdle e) (dispatch e code payload text)
  unfolding dispatch
  dispatch-IsIdle reset payload text h = esc_reset-IsSound
  dispatch-IsIdle speed payload text h = esc_speed-IsSound payload
  dispatch-IsIdle tone payload text h = esc_tone-IsSound payload (ground arith)
  dispatch-IsIdle abort payload text h = esc_abort-IsSound
  dispatch-IsIdle exit_daemon payload text h = Keeps-stop 0
  dispatch-IsIdle word_mode payload text h = esc_word_mode-IsSound
  dispatch-IsIdle weighting payload text h = esc_weighting-IsSound payload
  dispatch-IsIdle cwdevice payload text h = esc_cwdevice-IsSound payload
  dispatch-IsIdle port payload text h = Keeps-skip
  dispatch-IsIdle ptt_state payload text h =
      Keeps->> _ _ (cwdaemon_params_ptt_on_off-IsSound payload) Keeps-skip
  dispatch-IsIdle ssb_way payload text h = esc_ssb_way-IsSound payload
  dispatch-IsIdle tune payload text h = esc_tune-IsSound payload
  dispatch-IsIdle tx_delay payload text h = esc_tx_delay-IsSound payload
  dispatch-IsIdle band_switch payload text h = esc_band_switch-IsSound payload
  dispatch-IsIdle sound_system payload text h = esc_sound_system-IsSound payload
  dispatch-IsIdle volume payload text h = esc_volume-IsSound payload
  dispatch-IsIdle reply_code payload text h =
      unfold esc_reply in cwdaemon_prepare_reply-IsSound text h
  dispatch-IsIdle unknown payload text h = Keeps-skip

  cwdaemon_handle_escaped_request-IsIdle :
      (bytes : List ℕ)
      → length bytes ≤ 256
      → Keeps (IsIdle e) (cwdaemon_handle_escaped_request e bytes)
  unfolding cwdaemon_handle_escaped_request
  cwdaemon_handle_escaped_request-IsIdle bytes h =
      dispatch-IsIdle _ _ _ (omega (arith, length-c_str (drop 1 bytes), length-drop {0} 1 bytes))

  -- the text is played from its beginning, and the queue is emptied
  clear_queue-IsSound : Leads (IsSound e playing false) (IsIdle e) (set_queue [])
  unfolding set_queue modify
  clear_queue-IsSound = record { at = λ s i. ground arith }

  starts :
      (queue : List ℕ) (s : Daemon)
      → IsSound e playing false s
      → IsSound e (in_run false queue) false s
  starts queue s i = loosen l (head_is is_speed_sign queue) s i

  play_text-IsSound :
      (queue : List ℕ)
      → length queue ≤ 256
      → Leads (IsSound e playing false) (IsIdle e) (play_loop e false [] queue >> set_queue [])
  play_text-IsSound queue h =
      Leads->> _ _ _ _ _
        (Leads-first (starts queue) (play_loop-IsSound l false [] queue (omega arith)))
        clear_queue-IsSound

  cwdaemon_play_request-IsIdle :
      Leads
        (λ s. IsSound e playing false s × (length s.request_queue ≤ 256))
        (IsIdle e)
        (cwdaemon_play_request e)
  unfolding cwdaemon_play_request ◌>>=◌ gets
  cwdaemon_play_request-IsIdle = record {
    at = λ s i. (play_text-IsSound s.request_queue i.1).at s i.0;
  }

  queue_text-IsIdle :
      (queue text : List ℕ)
      → queue ≡ []
      → length text ≤ 256
      → Leads
          (IsIdle e)
          (λ s. IsSound e playing false s × (length s.request_queue ≤ 256))
          (set_queue (append_bounded 4000 queue text))
  unfolding set_queue modify append_bounded
  queue_text-IsIdle queue text q h = record {
    at = λ s i. rw q (ground (arith, take_all 3999 text (omega arith)));
  }

  receive_text-IsIdle : (text : List ℕ) → length text ≤ 256 → Keeps (IsIdle e) (receive_text e text)
  unfolding receive_text ◌>>=◌ gets
  receive_text-IsIdle text h = record {
    at = λ s i.
        let empty : s.request_queue ≡ [] = ground arith in
        (Leads-if (leb (length text + length s.request_queue) 3999) _ _
            (λ room.
              Leads->> _ _ _ _ _ (queue_text-IsIdle s.request_queue text empty h)
                (Leads->> _ (IsIdle e) _ _ _ cwdaemon_play_request-IsIdle (Keeps-pure 1)))
            (λ full. Keeps-pure 1)).at
          s i;
  }

  receive_request-IsIdle :
      (bytes : List ℕ) → length bytes ≤ 256 → Keeps (IsIdle e) (receive_request e bytes)
  unfolding receive_request
  receive_request-IsIdle bytes h =
      Leads-if _ _ _ (λ text. receive_text-IsIdle (c_str bytes) (omega (arith, length-c_str bytes)))
        (λ esc. Keeps->> _ _ (cwdaemon_handle_escaped_request-IsIdle bytes h) (Keeps-pure 0))

  pub act_on-IsIdle :
      (r : Received)
      → ((bytes : List ℕ) → r ≡ request bytes → length bytes ≤ 256)
      → Keeps (IsIdle e) (act_on e r)
  unfolding act_on
  act_on-IsIdle shut_down h = Keeps-pure 0
  act_on-IsIdle error h = Keeps-stop 1
  act_on-IsIdle no_request h = Keeps-pure 0
  act_on-IsIdle (request bytes) h = receive_request-IsIdle bytes (h bytes refl)
