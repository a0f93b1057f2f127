-- ===== src/Keyer/Refines.antt =====
-- The handlers of the Escape requests (src/cwdaemon.c) do to the daemon what the requests do to its
-- keyer.
use cwdaemon.Base.{ℕ, ◌≤◌, ◌≡◌, ◌≢◌, refl, Bool, true, List, pos, arith, ltb_ℤ, length}
use cwdaemon.World.Calls.{Env, IsLibcw, CallsSucceed, cw_get_tone_queue_length}
use cwdaemon.World.State.{Daemon}
use cwdaemon.World.Keeps.{Returns}
use cwdaemon.World.Stays.{Kept-HasNoExit}
use cwdaemon.World.Yields.{
  Takes, Yields-Returns, Takes->>, Takes-first, Holds-skip, Holds-require, Takes-stop,
}
use cwdaemon.Play.{set_queue, set_speed}
use cwdaemon.Escape.{
  esc_speed, esc_tone, esc_word_mode, esc_weighting, esc_tune, esc_tx_delay, esc_sound_system,
  esc_volume, set_tone, set_volume, set_weighting,
}
use cwdaemon.Escape.Dispatch.{
  EscCode, reset, speed, tone, abort, exit_daemon, word_mode, weighting, cwdevice, port, ptt_state,
  ssb_way, tune, tx_delay, band_switch, sound_system, volume, reply_code, unknown, dispatch,
}
use cwdaemon.Frame.Handlers.{esc_cwdevice-Keeps, esc_ssb_way-Keeps, esc_band_switch-Keeps}
use cwdaemon.Invariant.{IsIdle}
use cwdaemon.Invariant.Requests.{dispatch-IsIdle}
use cwdaemon.Liveness.Requests.{dispatch-Stays}
use cwdaemon.Liveness.Start.{SoundOpens}
use cwdaemon.Keyer.{Keyer, view, with_values, obey}
use cwdaemon.Keyer.Rules.{Seen, modify-Seen, provided-Seen}
use cwdaemon.Keyer.Parts.{IsReady, seen_rules, tune-Seen, ptt_on_off-Seen, store_delay-Seen}
use cwdaemon.Keyer.Requests.{reset-Seen, abort-Seen, reply-Seen, sound-Seen}

module _ (e : Env) where
  -- Each request.
  dispatch-Seen :
      (busy : Bool) (code : EscCode) (payload text : List ℕ) (k : Keyer)
      → SoundOpens e
      → Takes
          (IsReady e busy k)
          (Seen (obey e busy code payload text k))
          (dispatch e code payload text)
  unfolding dispatch esc_speed esc_tone esc_word_mode esc_weighting esc_tune esc_tx_delay
      esc_sound_system esc_volume set_speed set_tone set_weighting set_volume set_queue
  dispatch-Seen busy reset payload text k h = Takes-first (λ s i. i.0) (reset-Seen e k)
  dispatch-Seen busy speed payload text k h =
      Takes-first (λ s i. i.0)
        (provided-Seen _ _ _ k (λ z.
          Takes->> _ _ _ _ _
            (modify-Seen _ (with_values (λ p. record p { morse_speed = z })) (λ s. refl))
            (search seen_rules)))
  dispatch-Seen busy tone payload text k h =
      Takes-first (λ s i. i.0)
        (Takes->> _ _ _ _ _ (Holds-require _) (
          provided-Seen _ _ _ k (λ z.
            Takes->> _ _ _ _ _
              (modify-Seen _ (with_values (λ p. record p { morse_tone = z })) (λ s. refl))
              (search seen_rules depth 9))))
  dispatch-Seen busy abort payload text k h = Takes-first (λ s i. i.0) (abort-Seen e k)
  dispatch-Seen busy exit_daemon payload text k h = Takes-stop 0
  dispatch-Seen busy word_mode payload text k h =
      Takes-first (λ s i. i.0)
        (Takes->> _ (Seen k) _ _ _ (search seen_rules)
          (modify-Seen _ (λ k. record k { words = true }) (λ s. refl)))
  dispatch-Seen busy weighting payload text k h =
      Takes-first (λ s i. i.0)
        (provided-Seen _ _ _ k (λ z.
          Takes->> _ _ _ _ _
            (modify-Seen _ (with_values (λ p. record p { weighting = z })) (λ s. refl))
            (search seen_rules)))
  dispatch-Seen busy cwdevice payload text k h =
      Takes-first (λ s i. i.0) (search (seen_rules, esc_cwdevice-Keeps))
  dispatch-Seen busy port payload text k h = Takes-first (λ s i. i.0) Holds-skip
  dispatch-Seen busy ptt_state payload text k h =
      Takes->> _ _ _ _ _ (ptt_on_off-Seen e busy payload k) Holds-skip
  dispatch-Seen busy ssb_way payload text k h =
      Takes-first (λ s i. i.0) (search (seen_rules, esc_ssb_way-Keeps))
  dispatch-Seen busy tune payload text k h =
      Takes-first (λ s i. i.0) (provided-Seen _ _ _ k (λ n. tune-Seen e n k))
  dispatch-Seen busy tx_delay payload text k h = Takes-first (λ s i. i.0) (store_delay-Seen e _ k)
  dispatch-Seen busy band_switch payload text k h =
      Takes-first (λ s i. i.0) (search (seen_rules, esc_band_switch-Keeps))
  dispatch-Seen busy sound_system payload text k h =
      Takes-first (λ s i. i.0) (provided-Seen _ _ _ k (λ a. sound-Seen e a k h))
  dispatch-Seen busy volume payload text k h =
      Takes-first (λ s i. i.0)
        (provided-Seen _ _ _ k (λ z.
          Takes->> _ _ _ _ _
            (modify-Seen _ (with_values (λ p. record p { morse_volume = z })) (λ s. refl))
            (search seen_rules)))
  dispatch-Seen busy reply_code payload text k h = Takes-first (λ s i. i.0) (reply-Seen e text k)
  dispatch-Seen busy unknown payload text k h = Takes-first (λ s i. i.0) Holds-skip

-- Between two events, every Escape request but the one to exit, with any payload, is handled to its
-- end and makes of the keyer that the daemon shows what the request is to make of it: its values,
-- its word mode, its PTT flag, its reply and the datagrams it sent change as `obey` says, and in
-- nothing else. With libcw's limits; no call returns a negative number, a sound system opens at the
-- first try, and the text fits a request.
pub dispatch-obey :
    (e : Env) (code : EscCode) (payload text : List ℕ) (s : Daemon)
    → IsLibcw e
    → CallsSucceed e
    → SoundOpens e
    → IsIdle e s
    → code ≢ exit_daemon
    → length text ≤ 255
    → Returns
        (λ t.
          view t
          ≡ obey e
              (ltb_ℤ (pos 1) (e.returns s.trace cw_get_tone_queue_length))
              code
              payload
              text
              (view s))
        (dispatch e code payload text s)
dispatch-obey e code payload text s l w opens i ne fits =
    Yields-Returns (IsIdle e) _ (dispatch e code payload text s)
      (Kept-HasNoExit (IsIdle e) (dispatch e code payload text s)
        ((dispatch-IsIdle l code payload text fits).at s i)
        ((dispatch-Stays e w code payload text ne).at s))
      ((dispatch-Seen e _ code payload text (view s) opens).at s (refl, ground arith, refl))
