-- ===== src/Invariant/Replace.antt =====
-- The keying device may be replaced while no keying callback is registered; the one that is
-- registered again is the new device's.
use cwdaemon.Base.{ℕ, Bool, true, false, Option, none, some, List, [], ◌∷◌, ℤ, arith}
use cwdaemon.World.Calls.{Env, Kind, ttys, lp, null, cw_register_keying_callback}
use cwdaemon.World.Run.{◌>>=◌, modify, gets, perform, when, skip}
use cwdaemon.World.Keeps.{Leads, Keeps, Leads->>=, Leads->>}
use cwdaemon.Device.{
  set_desc, clear_desc, replace_device, take_over, cwdaemon_cwdevice_set, cwdaemon_option_cwdevice,
}
use cwdaemon.Escape.{esc_cwdevice}
use cwdaemon.Invariant.{Phase, IsSound}
use cwdaemon.Invariant.Rules.{sound_rules}
use cwdaemon.Invariant.Devices.{
  dev_init-IsSound, dev_free-IsSound, tty_probe_cwdevice-IsSound, lp_probe_cwdevice-IsSound,
}

module _ {e : Env} {mid : Phase} {unhooked : Bool} where
  set_desc-IsSound :
      (k : Kind) (d : List ℕ) → Keeps (IsSound e mid unhooked) (modify (set_desc k d))
  unfolding modify
  set_desc-IsSound ttys d = record { at = λ s i. ground arith }
  set_desc-IsSound lp d = record { at = λ s i. ground arith }
  set_desc-IsSound null d = record { at = λ s i. ground arith }

  clear_desc-IsSound : (k : Kind) → Keeps (IsSound e mid unhooked) (modify (clear_desc k))
  unfolding modify
  clear_desc-IsSound ttys = record { at = λ s i. ground arith }
  clear_desc-IsSound lp = record { at = λ s i. ground arith }
  clear_desc-IsSound null = record { at = λ s i. ground arith }

  replace_device-IsSound :
      (old k : Kind) (fd : ℤ) (desc : List ℕ)
      → Keeps (IsSound e mid unhooked) (replace_device e old k fd desc)
  unfolding replace_device
  replace_device-IsSound old k fd desc =
      search (sound_rules, set_desc-IsSound, clear_desc-IsSound, dev_init-IsSound, dev_free-IsSound)
        depth 8

module _ {e : Env} {mid : Phase} where
  global-IsSound :
      (k : Kind) → Keeps (IsSound e mid true) (modify (λ s. record s { global_cwdevice = k }))
  unfolding modify
  global-IsSound k = record { at = λ s i. ground arith }

  take_over-IsSound :
      (k : Kind) (fd : ℤ) (desc : List ℕ) → Keeps (IsSound e mid true) (take_over e k fd desc)
  unfolding take_over
  take_over-IsSound k fd desc = search (sound_rules, global-IsSound, replace_device-IsSound)

  cwdaemon_cwdevice_set-IsSound :
      (desc : List ℕ) → Keeps (IsSound e mid true) (cwdaemon_cwdevice_set e desc)
  unfolding cwdaemon_cwdevice_set
  cwdaemon_cwdevice_set-IsSound desc =
      search (sound_rules, take_over-IsSound, tty_probe_cwdevice-IsSound, lp_probe_cwdevice-IsSound)
        depth 9

  pub cwdaemon_option_cwdevice-IsSound :
      (value : Option (List ℕ)) → Keeps (IsSound e mid true) (cwdaemon_option_cwdevice e value)
  unfolding cwdaemon_option_cwdevice
  cwdaemon_option_cwdevice-IsSound none = search sound_rules
  cwdaemon_option_cwdevice-IsSound (some []) = search sound_rules
  cwdaemon_option_cwdevice-IsSound (some (c ∷ s)) = cwdaemon_cwdevice_set-IsSound (c ∷ s)

  pub unhook-IsSound :
      Leads (IsSound e mid false) (IsSound e mid true) (perform (cw_register_keying_callback none))
  unfolding perform
  unhook-IsSound = record { at = λ s i. ground arith }

  hook-IsSound :
      (changed : Bool)
      → Leads (IsSound e mid true) (IsSound e mid false) (
          gets (λ s. s.global_cwdevice) >>= λ device.
          when changed (perform (cw_register_keying_callback (some device))))
  unfolding ◌>>=◌ gets when perform skip
  hook-IsSound true = record { at = λ s i. ground arith }
  hook-IsSound false = record { at = λ s i. ground arith }

  pub esc_cwdevice-IsSound :
      (payload : List ℕ) → Keeps (IsSound e mid false) (esc_cwdevice e payload)
  unfolding esc_cwdevice
  esc_cwdevice-IsSound payload = Leads->> _ (IsSound e mid true) _ _ _ unhook-IsSound (
      Leads->>= _ (IsSound e mid true) _ _ _ (cwdaemon_option_cwdevice-IsSound (some payload))
        hook-IsSound)
