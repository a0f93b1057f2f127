-- ===== src/Keyer/Requests.antt =====
-- The requests that take more than one step, as the keyer shows them: the reset, the abort, the
-- reply and the sound system (src/cwdaemon.c, `cwdaemon_handle_escaped_request`).
use cwdaemon.Base.{ℕ, ◌≡◌, refl, false, List, [], ◌∷◌, arith, ap, if◌then◌else◌, length, take_all}
use cwdaemon.World.Calls.{Env, AudioSystem, cw_flush_tone_queue, cw_wait_for_tone_queue}
use cwdaemon.World.State.{Daemon, no_ptt}
use cwdaemon.World.Run.{run, ◌>>=◌, ◌>>◌, gets, modify, perform, when}
use cwdaemon.World.Gives.{Takes-true}
use cwdaemon.World.Yields.{
  Takes, Takes->>=, Takes->>, Takes-last, Takes-when, Holds-skip, Holds-gets, Holds-require,
}
use cwdaemon.Sound.{
  configure_libcw, cwdaemon_reset_almost_all, cwdaemon_reset_libcw_output, set_audio_output,
}
use cwdaemon.Ptt.{change_ptt, add_echo, is_set, cwdaemon_set_ptt_off}
use cwdaemon.Reply.{cwdaemon_prepare_reply, cwdaemon_sendto}
use cwdaemon.Play.{set_queue}
use cwdaemon.Escape.{
  break_text, esc_reset, esc_abort, change_sound_system, esc_reply, set_audio_system,
}
use cwdaemon.Frame.Devices.{dev_reset_pins_state-Keeps}
use cwdaemon.Frame.Handlers.{open_output-Keeps, close_output-Keeps}
use cwdaemon.Liveness.Start.{SoundOpens, open-Succeeds}
use cwdaemon.Keyer.{Keyer, view, with_values, with_flag, tell_break}
use cwdaemon.Keyer.Rules.{Seen, Takes-known, modify-Seen, change_ptt-Seen, when-Seen, unless-Seen}
use cwdaemon.Keyer.Parts.{seen_rules, set_ptt_off-Seen}

-- All but the flag is as in `k`.
abbrev SeenButFlag : Keyer → Daemon → Type 0
SeenButFlag k s = with_flag (λ f. no_ptt) (view s) ≡ with_flag (λ f. no_ptt) k

clear-Seen :
    (k : Keyer)
    → Takes (SeenButFlag k) (Seen (with_flag (λ f. no_ptt) k)) (change_ptt (λ f. no_ptt))
unfolding change_ptt modify
clear-Seen k = record { at = λ s i. i }

module _ (e : Env) where
  pub reset-Seen :
      (k : Keyer)
      → Takes
          (Seen k)
          (Seen (record k { values = k.defaults; words = false; flag = no_ptt }))
          (esc_reset e)
  unfolding esc_reset set_queue cwdaemon_reset_almost_all cwdaemon_reset_libcw_output
      set_audio_output configure_libcw
  reset-Seen k =
      let restored : Keyer = record k { values = k.defaults } in
      let left : Keyer = record restored { words = false } in
      Takes->>= _ (Seen k) _ _ _ (Holds-gets _) (λ dev.
        Takes->> _ (Seen k) _ _ _ (search seen_rules) (
          Takes->> _ (Seen restored) _ _ _
            (Takes->> _ (Seen restored) _ _ _
              (modify-Seen _ (λ k. record k { values = k.defaults }) (λ s. refl))
              (search (seen_rules, open_output-Keeps, close_output-Keeps) depth 16))
            (Takes->> _ (Seen left) _ _ _
              (modify-Seen _ (λ k. record k { words = false }) (λ s. refl))
              (Takes->> _ (Seen left) _ _ _ (search (seen_rules, dev_reset_pins_state-Keeps))
                (change_ptt-Seen (λ f. no_ptt))))))

  told-Seen :
      (k : Keyer)
      → Takes
          (Seen k)
          (Seen (record k { outbox = (k.reply_to, break_text) ∷ k.outbox }))
          (cwdaemon_sendto e break_text)
  unfolding cwdaemon_sendto run
  told-Seen k = record {
    at = λ s i.
        let tell : Keyer → Keyer = λ k. record k { outbox = (k.reply_to, break_text) ∷ k.outbox } in
        ap tell i;
  }

  mute-Seen :
      (k : Keyer)
      → Takes (Seen k) (Seen (with_flag (λ f. no_ptt) k)) (do
        set_queue []
        perform cw_flush_tone_queue
        perform cw_wait_for_tone_queue
        now ← gets (λ s. s.ptt_flag)
        when (is_set now) (cwdaemon_set_ptt_off e)
        change_ptt (λ f. no_ptt))
  unfolding set_queue
  mute-Seen k = Takes->> _ (Seen k) _ _ _ (search seen_rules) (
      Takes->> _ (Seen k) _ _ _ (search seen_rules) (
        Takes->> _ (Seen k) _ _ _ (search seen_rules) (
          Takes->>= _ (Seen k) _ _ _ (Holds-gets _) (λ now.
            Takes->> _ (SeenButFlag k) _ _ _
              (Takes-when (is_set now) _
                (λ h. Takes-last (λ s i. ap (with_flag (λ f. no_ptt)) i) (set_ptt_off-Seen e k))
                (λ h s i. ap (with_flag (λ f. no_ptt)) i))
              (clear-Seen k)))))

  pub abort-Seen :
      (k : Keyer)
      → Takes
          (Seen k)
          (Seen (if k.words then k else with_flag (λ f. no_ptt) (tell_break k)))
          (esc_abort e)
  unfolding esc_abort
  abort-Seen k =
      Takes-known _ (λ k. k.words) _ (λ s. refl)
        (unless-Seen k.words _ k _ (
          Takes-known _ (λ k. k.flag) _ (λ s. refl)
            (Takes->> _ (Seen (tell_break k)) _ _ _
              (when-Seen k.flag.echo _ k _ (Takes->> _ _ _ _ _ (told-Seen k) Holds-skip))
              (mute-Seen (tell_break k)))))

  pub reply-Seen :
      (text : List ℕ) (k : Keyer)
      → Takes
          (Seen k)
          (Seen (record k { flag = add_echo k.flag; reply_to = k.client; reply = text }))
          (esc_reply text)
  unfolding esc_reply cwdaemon_prepare_reply
  reply-Seen text k = Takes->> _ _ _ _ _ (change_ptt-Seen add_echo) (
      Takes->> _ _ _ _ _ (modify-Seen _ (λ k. record k { reply_to = k.client }) (λ s. refl)) (
        Takes->> _ _ _ _ _ (Holds-require _) (
          modify-Seen _ (λ k. record k { reply = text })
            (λ s.
              ap (λ r. record (view s) { reply = r })
                (take_all (length text) text (omega arith))))))

  pub sound-Seen :
      (audio : AudioSystem) (k : Keyer)
      → SoundOpens e
      → Takes
          (Seen k)
          (Seen (with_values (λ p. record p { audio_system = audio }) k))
          (change_sound_system e audio)
  unfolding change_sound_system set_audio_system set_audio_output configure_libcw
  sound-Seen audio k opens =
      let changed : Keyer = with_values (λ p. record p { audio_system = audio }) k in
      Takes->> _ (Seen changed) _ _ _
        (modify-Seen _ (with_values (λ p. record p { audio_system = audio })) (λ s. refl))
        (Takes->> _ (Seen changed) _ _ _ (search (seen_rules, close_output-Keeps)) (
          Takes-true (Seen changed) _ _ _ (open-Succeeds e opens audio)
            (search (seen_rules, open_output-Keeps)) (search seen_rules depth 20)))
