-- ===== src/Escape/Restore.antt =====
-- The request `<ESC>0` (src/cwdaemon.c, `cwdaemon_handle_escaped_request`).
use cwdaemon.Base.{
  List, arith, if◌then◌else◌, ltb_ℤ, pos, ℕ, zero, suc, ◌≡◌, refl, Bool, true, false, [], ℤ, ◌⊎◌,
  arith,
}
use cwdaemon.World.Calls.{
  tiocmbis, tiocmbic, ppfcontrol, ppwdata, Env, Kind, ttys, lp, null, AudioSystem, Call,
}
use cwdaemon.World.State.{Daemon, Params, no_ptt}
use cwdaemon.World.Ends.{Ends, ends_rules, Kept-Returns}
use cwdaemon.World.Run.{run, Void, ◌>>=◌, ◌>>◌, modify, gets, perform, call}
use cwdaemon.World.Keeps.{Returns, Leads, Keeps, Kept, Leads->>, keeps_rules}
use cwdaemon.Device.{dev_reset_pins_state}
use cwdaemon.Device.Null.{null_reset_pins_state}
use cwdaemon.Device.Ttys.{tty_set_pin, ttys_cw, ttys_ptt, ttys_reset_pins_state}
use cwdaemon.Device.Lp.{
  parport_control, parport_write_data, lp_cw, lp_ptt, lp_ssbway, lp_switchband, lp_reset_pins_state,
}
use cwdaemon.Sound.{
  retry_oss, cwdaemon_open_libcw_output, cwdaemon_close_libcw_output, configure_libcw,
  cwdaemon_reset_libcw_output, cwdaemon_reset_almost_all, set_audio_output,
}
use cwdaemon.Ptt.{change_ptt}
use cwdaemon.Play.{set_queue}
use cwdaemon.Escape.{esc_reset}

-- The defaults are `p` and in force, no text is queued, and the word mode is left if `left` says
-- so.
pub record IsRestoring (p : Params) (left : Bool) (s : Daemon) : Type 0 where
  pub defaults_kept : s.defaults ≡ p
  pub current_restored : s.current ≡ p
  pub queue_empty : s.request_queue ≡ []
  pub mode_left : (left ≡ false) ⊎ (s.wordmode ≡ false)

module _ {p : Params} {left : Bool} where
  call-IsRestoring : (e : Env) (c : Call) → Keeps (IsRestoring p left) (call e c)
  unfolding call
  call-IsRestoring e c = record { at = λ s h. ground arith }

  perform-IsRestoring : (c : Call) → Keeps (IsRestoring p left) (perform c)
  unfolding perform
  perform-IsRestoring c = record { at = λ s h. ground arith }

  audio_output-IsRestoring : (b : Bool) → Keeps (IsRestoring p left) (set_audio_output b)
  unfolding set_audio_output modify
  audio_output-IsRestoring b = record { at = λ s h. ground arith }

ruleset restoring_rules =
    (keeps_rules, call-IsRestoring, perform-IsRestoring, audio_output-IsRestoring)

module _ {p : Params} {left : Bool} where
  retry_oss-IsRestoring :
      (e : Env) (n : ℕ) (a : AudioSystem) (rv : ℤ) → Keeps (IsRestoring p left) (retry_oss e n a rv)
  unfolding retry_oss
  retry_oss-IsRestoring e zero a rv = search restoring_rules
  retry_oss-IsRestoring e (suc n) a rv = search (restoring_rules, retry_oss-IsRestoring e n) depth 8

  open-IsRestoring :
      (e : Env) (a : AudioSystem) → Keeps (IsRestoring p left) (cwdaemon_open_libcw_output e a)
  unfolding cwdaemon_open_libcw_output
  open-IsRestoring e a = search (restoring_rules, retry_oss-IsRestoring) depth 9

  reset_output-IsRestoring : (e : Env) → Keeps (IsRestoring p left) (cwdaemon_reset_libcw_output e)
  unfolding cwdaemon_reset_libcw_output cwdaemon_close_libcw_output configure_libcw
  reset_output-IsRestoring e = search (restoring_rules, open-IsRestoring) depth 14

  tty_pin-IsRestoring :
      (e : Env) (fd : ℤ) (pin : ℕ) (b : Bool) → Keeps (IsRestoring p left) (tty_set_pin e fd pin b)
  unfolding tty_set_pin
  tty_pin-IsRestoring e fd pin b = search restoring_rules

  control-IsRestoring :
      (e : Env) (fd : ℤ) (m v : ℕ) → Keeps (IsRestoring p left) (parport_control e fd m v)
  unfolding parport_control
  control-IsRestoring e fd m v = search restoring_rules

  data-IsRestoring :
      (e : Env) (fd : ℤ) (v : ℕ) → Keeps (IsRestoring p left) (parport_write_data e fd v)
  unfolding parport_write_data
  data-IsRestoring e fd v = search restoring_rules

  pins-IsRestoring : (e : Env) (k : Kind) → Keeps (IsRestoring p left) (dev_reset_pins_state e k)
  unfolding dev_reset_pins_state ttys_reset_pins_state ttys_cw ttys_ptt lp_reset_pins_state lp_cw
      lp_ptt lp_ssbway lp_switchband null_reset_pins_state
  pins-IsRestoring e ttys = search (restoring_rules, tty_pin-IsRestoring) depth 9
  pins-IsRestoring e lp = search (restoring_rules, control-IsRestoring, data-IsRestoring) depth 12
  pins-IsRestoring e null = search restoring_rules

-- What a reset leaves behind.
abbrev pub IsRestored : Params → Daemon → Type 0
IsRestored p s = IsRestoring p true s × (s.ptt_flag ≡ no_ptt)

almost_all-IsRestoring :
    (e : Env) (p : Params) (k : Kind)
    → Leads
        (λ s. (s.defaults ≡ p) × (s.request_queue ≡ []))
        (IsRestoring p false)
        (cwdaemon_reset_almost_all e k)
unfolding cwdaemon_reset_almost_all modify
almost_all-IsRestoring e p k =
    Leads->> _ (IsRestoring p false) _ _ _ (record { at = λ s h. ground arith })
      (search (restoring_rules, reset_output-IsRestoring) depth 9)

-- The rest of the reset.
abbrev finish : Env → Kind → Void
finish e k = do
  modify (λ s. record s { wordmode = false; async_abort = 0 })
  dev_reset_pins_state e k
  change_ptt (λ f. no_ptt)

finish-IsRestored :
    (e : Env) (p : Params) (k : Kind) → Leads (IsRestoring p false) (IsRestored p) (finish e k)
unfolding change_ptt modify
finish-IsRestored e p k =
    Leads->> _ (IsRestoring p true) _ _ _ (record { at = λ s h. ground arith })
      (Leads->> _ (IsRestoring p true) _ _ _ (pins-IsRestoring e k)
        (record { at = λ s h. (ground arith, refl) }))

pub esc_reset-Kept : (e : Env) (s : Daemon) → Kept (IsRestored s.defaults) (esc_reset e s)
unfolding esc_reset set_queue change_ptt modify gets ◌>>=◌ ◌>>◌
esc_reset-Kept e s =
    let reset = almost_all-IsRestoring e s.defaults s.global_cwdevice in
    let rest = finish-IsRestored e s.defaults s.global_cwdevice in
    (Leads->> _ _ _ _ _ reset rest).at (record s { request_queue = [] }) (refl, refl)

module _ (e : Env) (w : (t : List Call) (c : Call) → ltb_ℤ (e.returns t c) (pos 0) ≡ false) where
  retry_oss-Ends : (n : ℕ) (a : AudioSystem) (rv : ℤ) → Ends (retry_oss e n a rv)
  unfolding retry_oss
  retry_oss-Ends zero a rv = search ends_rules
  retry_oss-Ends (suc n) a rv = search (ends_rules, retry_oss-Ends n) depth 8

  open-Ends : (a : AudioSystem) → Ends (cwdaemon_open_libcw_output e a)
  unfolding cwdaemon_open_libcw_output
  open-Ends a = search (ends_rules, retry_oss-Ends) depth 9

  almost_all-Ends : (k : Kind) → Ends (cwdaemon_reset_almost_all e k)
  unfolding cwdaemon_reset_almost_all cwdaemon_reset_libcw_output cwdaemon_close_libcw_output
      configure_libcw set_audio_output
  almost_all-Ends k = search (ends_rules, open-Ends) depth 18

  tty_pin-Ends : (fd : ℤ) (pin : ℕ) (b : Bool) → Ends (tty_set_pin e fd pin b)
  unfolding tty_set_pin run
  tty_pin-Ends fd pin b = record {
    at =
        λ s. let works = w s.trace (if b then tiocmbis fd pin else tiocmbic fd pin) in ground arith;
  }

  control-Ends : (fd : ℤ) (m v : ℕ) → Ends (parport_control e fd m v)
  unfolding parport_control run
  control-Ends fd m v = record {
    at = λ s. let works = w s.trace (ppfcontrol fd m v) in ground arith;
  }

  data-Ends : (fd : ℤ) (v : ℕ) → Ends (parport_write_data e fd v)
  unfolding parport_write_data run
  data-Ends fd v = record { at = λ s. let works = w s.trace (ppwdata fd v) in ground arith }

  pins-Ends : (k : Kind) → Ends (dev_reset_pins_state e k)
  unfolding dev_reset_pins_state ttys_reset_pins_state ttys_cw ttys_ptt lp_reset_pins_state lp_cw
      lp_ptt lp_ssbway lp_switchband null_reset_pins_state
  pins-Ends ttys = search (ends_rules, tty_pin-Ends) depth 9
  pins-Ends lp = search (ends_rules, control-Ends, data-Ends) depth 12
  pins-Ends null = search ends_rules

  esc_reset-Ends : Ends (esc_reset e)
  unfolding esc_reset set_queue change_ptt
  esc_reset-Ends = search (ends_rules, almost_all-Ends, pins-Ends) depth 12

-- A reset puts the defaults in force, empties the queue, leaves the word mode and clears the PTT
-- flag, whether or not the sound system can be opened again. No call returns a negative number.
pub esc_reset-IsRestored :
    (e : Env) (s : Daemon)
    → ((t : List Call) (c : Call) → ltb_ℤ (e.returns t c) (pos 0) ≡ false)
    → Returns (IsRestored s.defaults) (esc_reset e s)
esc_reset-IsRestored e s w =
    Kept-Returns (IsRestored s.defaults) (esc_reset e s) (esc_reset-Kept e s)
      ((esc_reset-Ends e w).at s)
