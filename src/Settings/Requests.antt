-- ===== src/Settings/Requests.antt =====
-- The Escape requests of src/cwdaemon.c tell libcw what they change.
use cwdaemon.Base.{ℕ, ◌≡◌, refl, true, false, inl, inr, List, pos, ◌∙◌, Bool-cases, ltb_ℤ}
use cwdaemon.World.Calls.{Env, AudioSystem, Kind}
use cwdaemon.World.State.{Daemon, Params}
use cwdaemon.World.Run.{run}
use cwdaemon.World.Gives.{Gives, Gives->>=, Gives->>, Gives-if, Gives-pure, Gives-gets, Takes-Gives}
use cwdaemon.World.Yields.{
  Takes, Holds, state_rules, Keeps-Holds, anything, Takes->>=, Takes->>, Takes-if, Takes-first,
  Takes-last, Takes-gets, Takes-when, Holds-skip, Holds-pure, Takes-stop, Holds->>, Takes-modify,
  call-Holds, Holds-require,
}
use cwdaemon.Sound.{
  configure_libcw, cwdaemon_reset_almost_all, cwdaemon_reset_libcw_output, set_audio_output,
}
use cwdaemon.Params.{PttDelay, refused, accepted, clipped}
use cwdaemon.Ptt.{change_ptt}
use cwdaemon.Reply.{cwdaemon_prepare_reply, cwdaemon_sendto}
use cwdaemon.Play.{set_queue, set_speed}
use cwdaemon.Escape.{
  esc_reset, esc_speed, esc_tone, esc_abort, esc_word_mode, esc_weighting, store_delay,
  change_sound_system, esc_sound_system, esc_volume, esc_reply, set_tone, set_volume, set_weighting,
  set_ptt_delay,
}
use cwdaemon.Escape.Dispatch.{
  EscCode, reset, speed, tone, abort, exit_daemon, word_mode, weighting, cwdevice, port, ptt_state,
  ssb_way, tune, tx_delay, band_switch, sound_system, volume, reply_code, unknown, dispatch,
}
use cwdaemon.Frame.{IsFrame}
use cwdaemon.Frame.Devices.{dev_reset_pins_state-Keeps}
use cwdaemon.Frame.Handlers.{
  Holds-if_some, open_output-Keeps, close_output-Keeps, esc_cwdevice-Keeps, esc_ssb_way-Keeps,
  esc_band_switch-Keeps,
}
use cwdaemon.Frame.Flags.{
  no_ptt-Keeps, set_ptt_off-Keeps, ensure_ptt_off-Keeps, esc_tune-Keeps, ptt_on_off-Keeps,
}
use cwdaemon.Settings.{IsTold, Agrees}
use cwdaemon.Settings.Rules.{IsTold-silent, Agrees-IsFrame, Agrees-IsRemote, Agrees-IsFlagFree}

pub ruleset agrees_rules =
    (state_rules, Keeps-Holds, Agrees-IsFrame, Agrees-IsRemote, Agrees-IsFlagFree)

-- The current values are `p`.
abbrev IsCurrently : Params → Daemon → Type 0
IsCurrently p s = s.current ≡ p

IsCurrently-IsFrame : (p : Params) → IsFrame (IsCurrently p)
IsCurrently-IsFrame p = record {
  call_ok = λ c s h i. i;
  ttys_ok = λ d s i. i;
  lp_ok = λ d s i. i;
  null_ok = λ d s i. i;
}

abbrev Told : Daemon → Type 0
Told s = IsTold s.current s.trace

-- A new generator is told every value.
configure-Told : (p : Params) → Takes (IsCurrently p) Told (configure_libcw p)
unfolding configure_libcw run
configure-Told p = record { at = λ s i. rw i (refl, (inr refl, inl refl, refl)) }

told : (s : Daemon) → Told s → Agrees s
told s i o = i

-- The defaults are in force.
abbrev IsDefault : Daemon → Type 0
IsDefault s = s.current ≡ s.defaults

IsDefault-IsFrame : IsFrame IsDefault
IsDefault-IsFrame = record {
  call_ok = λ c s h i. i;
  ttys_ok = λ d s i. i;
  lp_ok = λ d s i. i;
  null_ok = λ d s i. i;
}

module _ (e : Env) where
  reset_output-Gives :
      Gives IsDefault (λ done s. done ≡ true → Told s) (cwdaemon_reset_libcw_output e)
  unfolding cwdaemon_reset_libcw_output
  reset_output-Gives =
      Gives->> _ IsDefault _ _ _
        (search (state_rules, Keeps-Holds, close_output-Keeps, IsDefault-IsFrame))
        (Gives-gets _ _ (λ d.
          Gives->>= _ (IsCurrently d) _ _ _
            (Takes-first (λ s i. i.0 ∙ i.1)
              (search (state_rules, Keeps-Holds, open_output-Keeps, IsCurrently-IsFrame)))
            (λ opened.
              Gives-if opened _ _
                (λ yes. Gives->> _ Told _ _ _ (configure-Told d) (Gives-pure true (λ s i h. i)))
                (λ no. Gives-pure false (λ s i h. cc)))))

  pub reset_all-Agrees : (k : Kind) → Takes (λ _. Unit) Agrees (cwdaemon_reset_almost_all e k)
  unfolding cwdaemon_reset_almost_all set_audio_output
  reset_all-Agrees k = Takes->> _ IsDefault _ _ _ (Takes-modify _ (λ s i. refl)) (
      Takes-Gives _ _ _ _ _ reset_output-Gives (λ done.
        Takes-if done _ _ (λ yes. Takes-first (λ s i. i yes) (Takes-last told (search state_rules)))
          (λ no. Takes->> _ Agrees _ _ _ (Takes-modify _ (λ s i o. cc)) (Holds-pure false))))

  again : (k : Kind) → Holds Agrees (cwdaemon_reset_almost_all e k)
  again k = Takes-first (λ s i. tt) (reset_all-Agrees k)

  reset-Agrees : Holds Agrees (esc_reset e)
  unfolding esc_reset set_queue
  reset-Agrees = search (agrees_rules, again, dev_reset_pins_state-Keeps, no_ptt-Keeps) depth 12

  sound-Agrees : (audio : AudioSystem) → Holds Agrees (change_sound_system e audio)
  unfolding change_sound_system
  sound-Agrees audio =
      Takes->> _ (λ _. Unit) _ _ _ (anything _)
        (Takes->> _ (λ _. Unit) _ _ _ (anything _)
          (Takes->>= _ (λ _. Unit) _ _ _ (anything _)
            (λ opened.
              Takes->> _ (λ _. Unit) _ _ _ (anything _)
                (Takes-gets _ _ (λ has_output.
                  Takes-when has_output _
                    (λ yes. Takes-gets _ _ (λ p.
                      Takes->> _ Told _ _ _ (Takes-first (λ s i. i.1) (configure-Told p))
                        (Takes-last told (search state_rules))))
                    (λ no s i o. cc))))))

  speed-Agrees : (payload : List ℕ) → Holds Agrees (esc_speed e payload)
  unfolding esc_speed set_speed run
  speed-Agrees payload = Holds-if_some _ _ (λ z. record { at = λ s i o. (refl, (i o).1) })

  tone-Agrees : (payload : List ℕ) → Holds Agrees (esc_tone e payload)
  unfolding esc_tone set_tone run
  tone-Agrees payload = Holds->> _ _ (Holds-require _) (
      Holds-if_some _ _ (λ z. record {
        at = λ s i. elim (Bool-cases (ltb_ℤ (pos 0) z)) [
          | inl h ↦ rw h (λ o. let (a, (b, c, d)) = i o in (a, (inr refl, inl refl, d)))
          | inr h ↦ rw h (λ o. let (a, (b, c, d)) = i o in (a, (inl h, inr (h, refl), d)))
        ];
      }))

  weighting-Agrees : (payload : List ℕ) → Holds Agrees (esc_weighting e payload)
  unfolding esc_weighting set_weighting run
  weighting-Agrees payload =
      Holds-if_some _ _
        (λ z. record { at = λ s i o. let (a, (b, c, d)) = i o in (a, (b, c, refl)) })

  volume-Agrees : (payload : List ℕ) → Holds Agrees (esc_volume e payload)
  unfolding esc_volume set_volume run
  volume-Agrees payload =
      Holds-if_some _ _
        (λ z. record { at = λ s i o. let (a, (b, c, d)) = i o in (a, (b, inl refl, d)) })

  delay-Agrees : (d : PttDelay) → Holds Agrees (store_delay e d)
  unfolding store_delay set_ptt_delay
  delay-Agrees refused = Holds-skip
  delay-Agrees (accepted k) = search (agrees_rules, ensure_ptt_off-Keeps)
  delay-Agrees (clipped k) = search (agrees_rules, ensure_ptt_off-Keeps)

  pub prepare-Agrees : (text : List ℕ) (m : ℕ) → Holds Agrees (cwdaemon_prepare_reply text m)
  unfolding cwdaemon_prepare_reply change_ptt
  prepare-Agrees text m = search agrees_rules depth 8

  pub sendto-Agrees : (reply : List ℕ) → Holds Agrees (cwdaemon_sendto e reply)
  unfolding cwdaemon_sendto
  sendto-Agrees reply = search (agrees_rules, call-Holds) depth 8

  abort-Agrees : Holds Agrees (esc_abort e)
  unfolding esc_abort set_queue
  abort-Agrees = search (agrees_rules, sendto-Agrees, set_ptt_off-Keeps, no_ptt-Keeps) depth 16

  -- Every Escape request.
  pub dispatch-Agrees :
      (code : EscCode) (payload text : List ℕ) → Holds Agrees (dispatch e code payload text)
  unfolding dispatch esc_word_mode set_queue esc_reply
  dispatch-Agrees reset payload text = reset-Agrees
  dispatch-Agrees speed payload text = speed-Agrees payload
  dispatch-Agrees tone payload text = tone-Agrees payload
  dispatch-Agrees abort payload text = abort-Agrees
  dispatch-Agrees exit_daemon payload text = Takes-stop 0
  dispatch-Agrees word_mode payload text = search agrees_rules
  dispatch-Agrees weighting payload text = weighting-Agrees payload
  dispatch-Agrees cwdevice payload text = search (agrees_rules, esc_cwdevice-Keeps)
  dispatch-Agrees port payload text = Holds-skip
  dispatch-Agrees ptt_state payload text = search (agrees_rules, ptt_on_off-Keeps)
  dispatch-Agrees ssb_way payload text = search (agrees_rules, esc_ssb_way-Keeps)
  dispatch-Agrees tune payload text = search (agrees_rules, esc_tune-Keeps)
  dispatch-Agrees tx_delay payload text = delay-Agrees _
  dispatch-Agrees band_switch payload text = search (agrees_rules, esc_band_switch-Keeps)
  dispatch-Agrees sound_system payload text =
      unfold esc_sound_system in Holds-if_some _ _ sound-Agrees
  dispatch-Agrees volume payload text = volume-Agrees payload
  dispatch-Agrees reply_code payload text = prepare-Agrees text _
  dispatch-Agrees unknown payload text = Holds-skip
