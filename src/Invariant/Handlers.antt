-- ===== src/Invariant/Handlers.antt =====
-- The handlers of the Escape requests but for `8`, and the callbacks, keep the invariant.
use cwdaemon.Base.{
  ℕ, zero, suc, ◌≤◌, ◌≡◌, refl, Bool, true, Option, none, some, List, ℤ, arith, length, take_all,
}
use cwdaemon.World.Calls.{Env, AudioSystem}
use cwdaemon.World.State.{Params}
use cwdaemon.World.Run.{run}
use cwdaemon.World.Keeps.{Keeps, Keeps->>=, Keeps->>, Keeps-gets}
use cwdaemon.Ptt.{
  change_ptt, cwdaemon_set_ptt_on, cwdaemon_set_ptt_off, queue_seconds, cwdaemon_tune,
  ptt_manual_on, ptt_manual_off, set_ptt_state, cwdaemon_params_ptt_on_off,
}
use cwdaemon.Sound.{
  retry_oss, cwdaemon_open_libcw_output, cwdaemon_close_libcw_output, configure_libcw,
}
use cwdaemon.Reply.{cwdaemon_prepare_reply, cwdaemon_sendto, ends_crlf}
use cwdaemon.Utils.{cwdaemon_get_long}
use cwdaemon.Invariant.{Phase, IsSound}
use cwdaemon.Invariant.Rules.{sound_rules, perform-IsSound}
use cwdaemon.Invariant.Devices.{dev_ptt-IsSound}

module _ {e : Env} {mid : Phase} {unhooked : Bool} where
  pub cwdaemon_set_ptt_on-IsSound : Keeps (IsSound e mid unhooked) (cwdaemon_set_ptt_on e)
  unfolding cwdaemon_set_ptt_on
  cwdaemon_set_ptt_on-IsSound = search (sound_rules, dev_ptt-IsSound) depth 9

  pub cwdaemon_set_ptt_off-IsSound : Keeps (IsSound e mid unhooked) (cwdaemon_set_ptt_off e)
  unfolding cwdaemon_set_ptt_off
  cwdaemon_set_ptt_off-IsSound = search (sound_rules, dev_ptt-IsSound) depth 9

  queue_seconds-IsSound : (n : ℕ) → Keeps (IsSound e mid unhooked) (queue_seconds e n)
  unfolding queue_seconds
  queue_seconds-IsSound zero = search sound_rules
  queue_seconds-IsSound (suc n) =
      Keeps->>= _ _ (Keeps-gets _)
        (λ tone. Keeps->> _ _ (perform-IsSound _ refl) (queue_seconds-IsSound n))

  pub cwdaemon_tune-IsSound : (n : ℕ) → Keeps (IsSound e mid unhooked) (cwdaemon_tune e n)
  unfolding cwdaemon_tune
  cwdaemon_tune-IsSound n =
      search (sound_rules, queue_seconds-IsSound, cwdaemon_set_ptt_on-IsSound) depth 9

  ptt_manual_on-IsSound : Keeps (IsSound e mid unhooked) (ptt_manual_on e)
  unfolding ptt_manual_on
  ptt_manual_on-IsSound = search (sound_rules, cwdaemon_set_ptt_on-IsSound) depth 9

  ptt_manual_off-IsSound : Keeps (IsSound e mid unhooked) (ptt_manual_off e)
  unfolding ptt_manual_off
  ptt_manual_off-IsSound = search (sound_rules, cwdaemon_set_ptt_off-IsSound) depth 14

  set_ptt_state-IsSound : (o : Option ℤ) → Keeps (IsSound e mid unhooked) (set_ptt_state e o)
  unfolding set_ptt_state
  set_ptt_state-IsSound none = search sound_rules
  set_ptt_state-IsSound (some lv) =
      search (sound_rules, ptt_manual_on-IsSound, ptt_manual_off-IsSound)

  pub cwdaemon_params_ptt_on_off-IsSound :
      (text : List ℕ) → Keeps (IsSound e mid unhooked) (cwdaemon_params_ptt_on_off e text)
  unfolding cwdaemon_params_ptt_on_off
  cwdaemon_params_ptt_on_off-IsSound text = set_ptt_state-IsSound (cwdaemon_get_long (some text))

  retry_oss-IsSound :
      (n : ℕ) (a : AudioSystem) (rv : ℤ) → Keeps (IsSound e mid unhooked) (retry_oss e n a rv)
  unfolding retry_oss
  retry_oss-IsSound zero a rv = search sound_rules
  retry_oss-IsSound (suc n) a rv = search (sound_rules, retry_oss-IsSound n) depth 8

  pub cwdaemon_open_libcw_output-IsSound :
      (a : AudioSystem) → Keeps (IsSound e mid unhooked) (cwdaemon_open_libcw_output e a)
  unfolding cwdaemon_open_libcw_output
  cwdaemon_open_libcw_output-IsSound a = search (sound_rules, retry_oss-IsSound) depth 9

  pub cwdaemon_close_libcw_output-IsSound :
      Keeps (IsSound e mid unhooked) cwdaemon_close_libcw_output
  unfolding cwdaemon_close_libcw_output
  cwdaemon_close_libcw_output-IsSound = search sound_rules

  pub configure_libcw-IsSound : (p : Params) → Keeps (IsSound e mid unhooked) (configure_libcw p)
  unfolding configure_libcw
  configure_libcw-IsSound p = search sound_rules depth 9

  pub cwdaemon_prepare_reply-IsSound :
      (text : List ℕ)
      → length text ≤ 255
      → Keeps (IsSound e mid unhooked) (cwdaemon_prepare_reply text (length text))
  unfolding cwdaemon_prepare_reply change_ptt run
  cwdaemon_prepare_reply-IsSound text h = record {
    at = λ s i. ground (arith, take_all (length text) text (omega arith));
  }

  pub cwdaemon_sendto-IsSound :
      (reply : List ℕ)
      → ends_crlf reply ≡ true
      → Keeps (IsSound e mid unhooked) (cwdaemon_sendto e reply)
  unfolding cwdaemon_sendto run
  cwdaemon_sendto-IsSound reply h = record { at = λ s i. ground arith }
