-- ===== src/Frame/Flags.antt =====
-- The PTT keeps what speaks neither of the keying devices nor of the PTT flag, but for a reply that
-- is not due.
use cwdaemon.Base.{ℕ, Option, none, some, List, ℤ, arith}
use cwdaemon.Utils.{cwdaemon_get_long}
use cwdaemon.World.Calls.{Env}
use cwdaemon.World.State.{Daemon, no_ptt}
use cwdaemon.World.Run.{modify}
use cwdaemon.World.Keeps.{Keeps}
use cwdaemon.Ptt.{
  change_ptt, add_auto, add_manual, drop_manual, drop_echo, cwdaemon_set_ptt_on,
  cwdaemon_set_ptt_off, cwdaemon_tune, ptt_manual_on, ptt_manual_off, set_ptt_state,
  cwdaemon_params_ptt_on_off,
}
use cwdaemon.Play.{play_character}
use cwdaemon.Escape.{esc_tune, ensure_ptt_off}
use cwdaemon.Frame.{IsFrame, IsFlagFree, frame_rules}
use cwdaemon.Frame.Devices.{dev_ptt-Keeps}
use cwdaemon.Frame.Handlers.{Keeps-if_some, queue_seconds-Keeps}

module _ {P : Daemon → Type 0} (g : IsFlagFree P) where
  auto-Keeps : Keeps P (change_ptt add_auto)
  unfolding change_ptt modify
  auto-Keeps = record { at = λ s i. g.flag_ok _ s (λ h. h) i }

  manual-Keeps : Keeps P (change_ptt add_manual)
  unfolding change_ptt modify
  manual-Keeps = record { at = λ s i. g.flag_ok _ s (λ h. h) i }

  unmanual-Keeps : Keeps P (change_ptt drop_manual)
  unfolding change_ptt modify
  unmanual-Keeps = record { at = λ s i. g.flag_ok _ s (λ h. h) i }

  pub drop_echo-Keeps : Keeps P (change_ptt drop_echo)
  unfolding change_ptt modify
  drop_echo-Keeps = record { at = λ s i. g.flag_ok _ s (λ h. ground arith) i }

  pub no_ptt-Keeps : Keeps P (change_ptt (λ f. no_ptt))
  unfolding change_ptt modify
  no_ptt-Keeps = record { at = λ s i. g.flag_ok _ s (λ h. ground arith) i }

ruleset flag_rules =
    (frame_rules, auto-Keeps, manual-Keeps, unmanual-Keeps, no_ptt-Keeps, dev_ptt-Keeps)

module _ (e : Env) {P : Daemon → Type 0} (f : IsFrame P) (g : IsFlagFree P) where
  pub set_ptt_on-Keeps : Keeps P (cwdaemon_set_ptt_on e)
  unfolding cwdaemon_set_ptt_on
  set_ptt_on-Keeps = search flag_rules depth 9

  pub set_ptt_off-Keeps : Keeps P (cwdaemon_set_ptt_off e)
  unfolding cwdaemon_set_ptt_off
  set_ptt_off-Keeps = search flag_rules depth 9

  tune-Keeps : (n : ℕ) → Keeps P (cwdaemon_tune e n)
  unfolding cwdaemon_tune
  tune-Keeps n = search (flag_rules, queue_seconds-Keeps, set_ptt_on-Keeps) depth 9

  pub esc_tune-Keeps : (payload : List ℕ) → Keeps P (esc_tune e payload)
  unfolding esc_tune
  esc_tune-Keeps payload = Keeps-if_some _ _ tune-Keeps

  manual_on-Keeps : Keeps P (ptt_manual_on e)
  unfolding ptt_manual_on
  manual_on-Keeps = search (flag_rules, set_ptt_on-Keeps) depth 9

  manual_off-Keeps : Keeps P (ptt_manual_off e)
  unfolding ptt_manual_off
  manual_off-Keeps = search (flag_rules, set_ptt_off-Keeps) depth 14

  set_ptt_state-Keeps : (o : Option ℤ) → Keeps P (set_ptt_state e o)
  unfolding set_ptt_state
  set_ptt_state-Keeps none = search flag_rules
  set_ptt_state-Keeps (some lv) = search (flag_rules, manual_on-Keeps, manual_off-Keeps)

  pub ptt_on_off-Keeps : (text : List ℕ) → Keeps P (cwdaemon_params_ptt_on_off e text)
  unfolding cwdaemon_params_ptt_on_off
  ptt_on_off-Keeps text = set_ptt_state-Keeps (cwdaemon_get_long (some text))

  pub ensure_ptt_off-Keeps : Keeps P (ensure_ptt_off e)
  unfolding ensure_ptt_off
  ensure_ptt_off-Keeps = search (flag_rules, set_ptt_off-Keeps)

  pub play_character-Keeps : (c : ℕ) → Keeps P (play_character e c)
  unfolding play_character
  play_character-Keeps c = search (flag_rules, set_ptt_on-Keeps)
