-- ===== src/Invariant/Reset.antt =====
-- The reset of the daemon keeps the invariant, and ends with the defaults in force.
use cwdaemon.Base.{ℕ, zero, suc, ◌≡◌, refl, Bool, false, List, ℤ, arith, some}
use cwdaemon.World.Calls.{Env, Kind, AudioSystem, Call, cw_register_keying_callback}
use cwdaemon.World.State.{Daemon}
use cwdaemon.World.Run.{M, ◌>>=◌, modify, gets, perform, call, Outcome, ret, exit, fault}
use cwdaemon.World.Keeps.{Leads, Keeps, Kept, Leads->>, Keeps->>=, Keeps->>, keeps_rules}
use cwdaemon.Sound.{
  retry_oss, cwdaemon_open_libcw_output, cwdaemon_close_libcw_output, configure_libcw,
  cwdaemon_reset_libcw_output, cwdaemon_reset_almost_all, set_audio_output,
}
use cwdaemon.Play.{set_queue}
use cwdaemon.Escape.{esc_reset}
use cwdaemon.Invariant.{Phase, IsSound}
use cwdaemon.Invariant.Rules.{sound_rules}
use cwdaemon.Invariant.Devices.{dev_reset_pins_state-IsSound}
use cwdaemon.Invariant.Handlers.{
  cwdaemon_open_libcw_output-IsSound, cwdaemon_close_libcw_output-IsSound, configure_libcw-IsSound,
}

-- The current keying device is `k`.
abbrev pub IsAt : Kind → Daemon → Type 0
IsAt k s = s.global_cwdevice ≡ k

module _ {k : Kind} where
  call-IsAt : (e : Env) (c : Call) → Keeps (IsAt k) (call e c)
  unfolding call
  call-IsAt e c = record { at = λ s h. h }

  perform-IsAt : (c : Call) → Keeps (IsAt k) (perform c)
  unfolding perform
  perform-IsAt c = record { at = λ s h. h }

  audio_output-IsAt : (b : Bool) → Keeps (IsAt k) (set_audio_output b)
  unfolding set_audio_output modify
  audio_output-IsAt b = record { at = λ s h. h }

  defaults-IsAt : Keeps (IsAt k) (modify (λ s. record s { current = s.defaults }))
  unfolding modify
  defaults-IsAt = record { at = λ s h. h }

  queue-IsAt : (q : List ℕ) → Keeps (IsAt k) (set_queue q)
  unfolding set_queue modify
  queue-IsAt q = record { at = λ s h. h }

ruleset at_rules =
    (keeps_rules, call-IsAt, perform-IsAt, audio_output-IsAt, defaults-IsAt, queue-IsAt)

module _ {k : Kind} where
  retry_oss-IsAt :
      (e : Env) (n : ℕ) (a : AudioSystem) (rv : ℤ) → Keeps (IsAt k) (retry_oss e n a rv)
  unfolding retry_oss
  retry_oss-IsAt e zero a rv = search at_rules
  retry_oss-IsAt e (suc n) a rv = search (at_rules, retry_oss-IsAt e n) depth 8

  open-IsAt : (e : Env) (a : AudioSystem) → Keeps (IsAt k) (cwdaemon_open_libcw_output e a)
  unfolding cwdaemon_open_libcw_output
  open-IsAt e a = search (at_rules, retry_oss-IsAt) depth 9

  reset_output-IsAt : (e : Env) → Keeps (IsAt k) (cwdaemon_reset_libcw_output e)
  unfolding cwdaemon_reset_libcw_output cwdaemon_close_libcw_output configure_libcw
  reset_output-IsAt e = search (at_rules, open-IsAt) depth 14

Kept-both :
    {A : Type 0} (P Q : Daemon → Type 0) (o : Outcome A)
    → Kept P o
    → Kept Q o
    → Kept (λ s. P s × Q s) o
Kept-both P Q (ret a s) h k = (h, k)
Kept-both P Q (exit n s) h k = tt
Kept-both P Q (fault s) h k = h

Kept-first :
    {A : Type 0} (P Q : Daemon → Type 0) (o : Outcome A) → Kept (λ s. P s × Q s) o → Kept P o
Kept-first P Q (ret a s) h = h.0
Kept-first P Q (exit n s) h = tt
Kept-first P Q (fault s) h = h

Keeps-both :
    {A : Type 0} {P Q : Daemon → Type 0} {m : M A}
    → Keeps P m
    → Keeps Q m
    → Keeps (λ s. P s × Q s) m
Keeps-both {P} {Q} h k = record { at = λ s i. Kept-both P Q _ (h.at s i.0) (k.at s i.1) }

module _ {e : Env} {mid : Phase} {unhooked : Bool} where
  defaults-IsSound :
      Keeps (IsSound e mid unhooked) (modify (λ s. record s { current = s.defaults }))
  unfolding modify
  defaults-IsSound = record { at = λ s i. ground arith }

  reset_output-IsSound : Keeps (IsSound e mid unhooked) (cwdaemon_reset_libcw_output e)
  unfolding cwdaemon_reset_libcw_output
  reset_output-IsSound =
      search
        (
          sound_rules, cwdaemon_close_libcw_output-IsSound, cwdaemon_open_libcw_output-IsSound,
          configure_libcw-IsSound,
        )
        depth 9

abbrev pub SoundAt : Env → Phase → Kind → Daemon → Type 0
SoundAt e mid k s = IsSound e mid false s × IsAt k s

module _ {e : Env} {mid : Phase} {k : Kind} where
  both :
      {A : Type 0} {m : M A}
      → Keeps (IsSound e mid false) m
      → Keeps (IsAt k) m
      → Keeps (SoundAt e mid k) m
  both h j = Keeps-both h j

  register-SoundAt : Keeps (SoundAt e mid k) (perform (cw_register_keying_callback (some k)))
  unfolding perform
  register-SoundAt = record { at = λ s i. ground arith }

  set_output-SoundAt : (b : Bool) → Keeps (SoundAt e mid k) (set_audio_output b)
  set_output-SoundAt b = both (search sound_rules) (search at_rules)

  pub cwdaemon_reset_almost_all-SoundAt : Keeps (SoundAt e mid k) (cwdaemon_reset_almost_all e k)
  unfolding cwdaemon_reset_almost_all
  cwdaemon_reset_almost_all-SoundAt = Keeps->> _ _ (both defaults-IsSound defaults-IsAt) (
      Keeps->>= _ _ (both reset_output-IsSound (reset_output-IsAt e))
        (λ done. search (keeps_rules, register-SoundAt, set_output-SoundAt)))

module _ {e : Env} {mid : Phase} where
  pub known-IsSound :
      {A : Type 0} (f : Kind → M A)
      → ((k : Kind) → Leads (SoundAt e mid k) (IsSound e mid false) (f k))
      → Keeps (IsSound e mid false) (gets (λ s. s.global_cwdevice) >>= f)
  unfolding ◌>>=◌ gets
  known-IsSound f h = record { at = λ s i. (h s.global_cwdevice).at s (i, refl) }

  flags-IsSound :
      Keeps (IsSound e mid false) (modify (λ s. record s { wordmode = false; async_abort = 0 }))
  unfolding modify
  flags-IsSound = record { at = λ s i. ground arith }

  pub forget :
      {A : Type 0} {k : Kind} (m : M A)
      → Keeps (SoundAt e mid k) m
      → Leads (SoundAt e mid k) (IsSound e mid false) m
  forget {k} m h = record { at = λ s i. Kept-first (IsSound e mid false) (IsAt k) (m s) (h.at s i) }

  pub esc_reset-IsSound : Keeps (IsSound e mid false) (esc_reset e)
  unfolding esc_reset
  esc_reset-IsSound = known-IsSound _ (λ k.
      Leads->> _ (SoundAt e mid k) _ _ _ (both (search sound_rules) (search at_rules)) (
        Leads->> _ (IsSound e mid false) _ _ _ (forget _ cwdaemon_reset_almost_all-SoundAt)
          (Keeps->> _ _ flags-IsSound (search (sound_rules, dev_reset_pins_state-IsSound)))))
