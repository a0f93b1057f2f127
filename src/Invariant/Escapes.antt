-- ===== src/Invariant/Escapes.antt =====
-- Each Escape request keeps the invariant.
use cwdaemon.Base.{ℕ, ◌≤◌, ◌≡◌, refl, Bool, true, false, some, List, pos, arith, eqb_ℤ}
use cwdaemon.World.Calls.{Env, Kind, lp, AudioSystem, cw_register_keying_callback}
use cwdaemon.World.Run.{◌>>=◌, modify, gets, perform, require}
use cwdaemon.World.Keeps.{Keeps, Keeps->>=, Keeps->>, Keeps-gets, Keeps-skip, Keeps-when}
use cwdaemon.Device.{dev_ssbway, dev_switchband}
use cwdaemon.Params.{PttDelay, refused, accepted, clipped}
use cwdaemon.Params.Bounds.{
  wpm-InRange, volume-InRange, tone-InRange, weighting-InRange, pttdelay_bounded, stored,
}
use cwdaemon.Reply.{ends_crlf}
use cwdaemon.Escape.{
  esc_speed, esc_tone, esc_abort, esc_word_mode, esc_weighting, esc_ssb_way, esc_tune,
  ensure_ptt_off, store_delay, esc_tx_delay, cwdaemon_switch_band, esc_band_switch, fall_back,
  change_sound_system, esc_sound_system, esc_volume, if_some, break_text,
}
use cwdaemon.Invariant.{Phase, IsSound}
use cwdaemon.Invariant.Rules.{
  sound_rules, perform-IsSound, speed-IsSound, tone-IsSound, volume-IsSound, weighting-IsSound,
  ptt_delay-IsSound, Keeps-if_some,
}
use cwdaemon.Invariant.Devices.{lp_ssbway-IsSound, lp_switchband-IsSound}
use cwdaemon.Invariant.Handlers.{
  cwdaemon_set_ptt_off-IsSound, cwdaemon_tune-IsSound, cwdaemon_open_libcw_output-IsSound,
  cwdaemon_close_libcw_output-IsSound, configure_libcw-IsSound, cwdaemon_sendto-IsSound,
}

break_text-ends_crlf : ends_crlf break_text ≡ true
unfolding ends_crlf
break_text-ends_crlf = refl

module _ {e : Env} {mid : Phase} {unhooked : Bool} where
  pub esc_speed-IsSound : (payload : List ℕ) → Keeps (IsSound e mid unhooked) (esc_speed e payload)
  unfolding esc_speed
  esc_speed-IsSound payload =
      Keeps-if_some _ _
        (λ z h. Keeps->> _ _ (speed-IsSound z (wpm-InRange e payload z h)) (perform-IsSound _ refl))

  pub esc_volume-IsSound :
      (payload : List ℕ) → Keeps (IsSound e mid unhooked) (esc_volume e payload)
  unfolding esc_volume
  esc_volume-IsSound payload = Keeps-if_some _ _ (λ z h.
      Keeps->> _ _ (volume-IsSound z (volume-InRange e payload z h)) (perform-IsSound _ refl))

  pub esc_weighting-IsSound :
      (payload : List ℕ) → Keeps (IsSound e mid unhooked) (esc_weighting e payload)
  unfolding esc_weighting
  esc_weighting-IsSound payload = Keeps-if_some _ _ (λ z h.
      Keeps->> _ _ (weighting-IsSound z (weighting-InRange payload z h)) (perform-IsSound _ refl))

  -- libcw's lower limit of the tone is asserted
  require-IsSound : (b : Bool) → b ≡ true → Keeps (IsSound e mid unhooked) (require b)
  unfolding require
  require-IsSound true h = record { at = λ s i. i }
  require-IsSound false h = cc

  pub esc_tone-IsSound :
      (payload : List ℕ)
      → eqb_ℤ e.frequency_min (pos 0) ≡ true
      → Keeps (IsSound e mid unhooked) (esc_tone e payload)
  unfolding esc_tone
  esc_tone-IsSound payload a = Keeps->> _ _ (require-IsSound _ a) (
      Keeps-if_some _ _
        (λ z h. Keeps->> _ _ (tone-IsSound z (tone-InRange e payload z h)) (search sound_rules)))

  word_mode-IsSound : Keeps (IsSound e mid unhooked) (modify (λ s. record s { wordmode = true }))
  unfolding modify
  word_mode-IsSound = record { at = λ s i. ground arith }

  ssbway-IsSound :
      (k : Kind) (b : Bool) → Keeps (IsSound e mid unhooked) (if_some (dev_ssbway e k) (λ f. f b))
  unfolding dev_ssbway if_some
  ssbway-IsSound lp b = lp_ssbway-IsSound b
  ssbway-IsSound _ b = Keeps-skip

  switchband-IsSound :
      (k : Kind) (n : ℕ) → Keeps (IsSound e mid unhooked) (if_some (dev_switchband e k) (λ f. f n))
  unfolding dev_switchband if_some
  switchband-IsSound lp n = lp_switchband-IsSound n
  switchband-IsSound _ n = Keeps-skip

  pub esc_abort-IsSound : Keeps (IsSound e mid unhooked) (esc_abort e)
  unfolding esc_abort
  esc_abort-IsSound =
      search
        (
          sound_rules,
          cwdaemon_sendto-IsSound break_text break_text-ends_crlf,
          cwdaemon_set_ptt_off-IsSound,
        )
        depth 14

  pub esc_word_mode-IsSound : Keeps (IsSound e mid unhooked) (esc_word_mode e)
  unfolding esc_word_mode
  esc_word_mode-IsSound = search (sound_rules, word_mode-IsSound)

  pub esc_ssb_way-IsSound :
      (payload : List ℕ) → Keeps (IsSound e mid unhooked) (esc_ssb_way e payload)
  unfolding esc_ssb_way
  esc_ssb_way-IsSound payload =
      Keeps-if_some _ _ (λ lv h. Keeps->>= _ _ (Keeps-gets _) (λ dev. ssbway-IsSound dev _))

  pub esc_tune-IsSound : (payload : List ℕ) → Keeps (IsSound e mid unhooked) (esc_tune e payload)
  unfolding esc_tune
  esc_tune-IsSound payload = Keeps-if_some _ _ (λ n h. cwdaemon_tune-IsSound n)

  pub esc_band_switch-IsSound :
      (payload : List ℕ) → Keeps (IsSound e mid unhooked) (esc_band_switch e payload)
  unfolding esc_band_switch cwdaemon_switch_band
  esc_band_switch-IsSound payload =
      Keeps-if_some _ _
        (λ lv h. Keeps-when _ _ (Keeps->>= _ _ (Keeps-gets _) (λ dev. switchband-IsSound dev _)))

  ensure_ptt_off-IsSound : Keeps (IsSound e mid unhooked) (ensure_ptt_off e)
  unfolding ensure_ptt_off
  ensure_ptt_off-IsSound = search (sound_rules, cwdaemon_set_ptt_off-IsSound)

  store_delay-IsSound :
      (d : PttDelay)
      → ((n : ℕ) → stored d ≡ some n → n ≤ 50)
      → Keeps (IsSound e mid unhooked) (store_delay e d)
  unfolding store_delay
  store_delay-IsSound refused h = Keeps-skip
  store_delay-IsSound (accepted n) h =
      Keeps->> _ _ (ptt_delay-IsSound n (h n refl)) ensure_ptt_off-IsSound
  store_delay-IsSound (clipped n) h =
      Keeps->> _ _ (ptt_delay-IsSound n (h n refl)) ensure_ptt_off-IsSound

  pub esc_tx_delay-IsSound :
      (payload : List ℕ) → Keeps (IsSound e mid unhooked) (esc_tx_delay e payload)
  unfolding esc_tx_delay
  esc_tx_delay-IsSound payload = store_delay-IsSound _ (pttdelay_bounded payload)

  fall_back-IsSound : Keeps (IsSound e mid unhooked) (fall_back e)
  unfolding fall_back
  fall_back-IsSound =
      search (sound_rules, cwdaemon_close_libcw_output-IsSound, cwdaemon_open_libcw_output-IsSound)
        depth 8

-- The keying callback is registered with the current device.
module _ {e : Env} {mid : Phase} where
  rehook-IsSound : Keeps (IsSound e mid false) (
      gets (λ s. s.global_cwdevice) >>= λ device.
      perform (cw_register_keying_callback (some device)))
  unfolding ◌>>=◌ gets perform
  rehook-IsSound = record { at = λ s i. ground arith }

  change_sound_system-IsSound :
      (a : AudioSystem) → Keeps (IsSound e mid false) (change_sound_system e a)
  unfolding change_sound_system
  change_sound_system-IsSound a =
      search
        (
          sound_rules, rehook-IsSound, fall_back-IsSound, configure_libcw-IsSound,
          cwdaemon_close_libcw_output-IsSound, cwdaemon_open_libcw_output-IsSound,
        )
        depth 12

  pub esc_sound_system-IsSound :
      (payload : List ℕ) → Keeps (IsSound e mid false) (esc_sound_system e payload)
  unfolding esc_sound_system
  esc_sound_system-IsSound payload = Keeps-if_some _ _ (λ a h. change_sound_system-IsSound a)
