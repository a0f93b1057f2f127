-- ===== src/Invariant/Options.antt =====
-- Each option of the command line keeps the invariant.
use cwdaemon.Base.{ℕ, ◌≡◌, refl, true, false, Option, none, some, List, ℤ, arith}
use cwdaemon.World.Calls.{Env, Kind, ttys, AudioSystem}
use cwdaemon.World.State.{Daemon}
use cwdaemon.World.Run.{modify}
use cwdaemon.World.Keeps.{Keeps, Keeps->>=, Keeps-pure, Keeps-stop, Keeps-gets, Keeps-modify}
use cwdaemon.Utils.{OptT, opt_success, find_opt_value}
use cwdaemon.Utils.CString.{codes}
use cwdaemon.Device.Ttys.{set_key_pin, set_ptt_pin, ptt_option, key_option, ttys_optparse}
use cwdaemon.Device.{dev_optparse}
use cwdaemon.Params.{
  cwdaemon_params_wpm, cwdaemon_params_volume, cwdaemon_params_tone, cwdaemon_params_weighting,
  cwdaemon_option_inc_verbosity, cwdaemon_params_pttdelay, PttDelay, refused, accepted, clipped,
}
use cwdaemon.Params.Bounds.{
  wpm-InRange, volume-InRange, tone-InRange, weighting-InRange, pttdelay_bounded, stored,
}
use cwdaemon.Args.{
  store_or_exit, strict_delay, put_priority, put_speed, put_delay, put_volume, put_weighting,
  put_tone, put_system, put_threshold, put_debugfile, put_port, put_flags, option_cwdevice_or_exit,
  cwdaemon_params_nofork, params_options_of, cwdaemon_params_options,
}
use cwdaemon.Invariant.{idle, IsSound}
use cwdaemon.Invariant.Rules.{sound_rules}
use cwdaemon.Invariant.Devices.{ttys_cw-IsSound, ttys_ptt-IsSound}
use cwdaemon.Invariant.Replace.{cwdaemon_option_cwdevice-IsSound}

strict_delay-stored : (d : PttDelay) (n : ℕ) → strict_delay d ≡ some n → stored d ≡ some n
unfolding strict_delay
strict_delay-stored refused n h = h
strict_delay-stored (accepted m) n h = h
strict_delay-stored (clipped m) n h = cc

-- Before the start no keying callback is registered.
abbrev pub IsStarting : Env → Daemon → Type 0
IsStarting e = IsSound e idle true

module _ {e : Env} where
  pub set_key_pin-IsStarting : (o : Option ℕ) → Keeps (IsStarting e) (set_key_pin e o)
  unfolding set_key_pin
  set_key_pin-IsStarting none = Keeps-pure false
  set_key_pin-IsStarting (some pin) = search (sound_rules, ttys_cw-IsSound)

  pub set_ptt_pin-IsStarting : (o : Option ℕ) → Keeps (IsStarting e) (set_ptt_pin e o)
  unfolding set_ptt_pin
  set_ptt_pin-IsStarting none = Keeps-pure false
  set_ptt_pin-IsStarting (some pin) = search (sound_rules, ttys_ptt-IsSound)

  pub ptt_option-IsStarting : (o : OptT) → Keeps (IsStarting e) (ptt_option e o)
  unfolding ptt_option
  ptt_option-IsStarting (opt_success v) = set_ptt_pin-IsStarting _
  ptt_option-IsStarting _ = Keeps-pure false

  pub key_option-IsStarting :
      (o : OptT) (option : List ℕ) → Keeps (IsStarting e) (key_option e o option)
  unfolding key_option
  key_option-IsStarting (opt_success v) option = set_key_pin-IsStarting _
  key_option-IsStarting _ option = ptt_option-IsStarting (find_opt_value option (codes "ptt"))

  pub optparse-IsStarting :
      (k : Kind) (text : List ℕ)
      → Keeps (IsStarting e) (params_options_of e (dev_optparse e k) text)
  unfolding params_options_of dev_optparse ttys_optparse
  optparse-IsStarting ttys text = key_option-IsStarting (find_opt_value text (codes "key")) text
  optparse-IsStarting _ text = Keeps-pure false

  pub params_options-IsStarting :
      (text : List ℕ) → Keeps (IsStarting e) (cwdaemon_params_options e text)
  unfolding cwdaemon_params_options
  params_options-IsStarting text = Keeps->>= _ _ (Keeps-gets _) (λ k. optparse-IsStarting k text)

  pub cwdevice-IsStarting : (text : List ℕ) → Keeps (IsStarting e) (option_cwdevice_or_exit e text)
  unfolding option_cwdevice_or_exit
  cwdevice-IsStarting text = search (sound_rules, cwdaemon_option_cwdevice-IsSound)

  pub nofork-IsStarting : Keeps (IsStarting e) (cwdaemon_params_nofork e)
  unfolding cwdaemon_params_nofork
  nofork-IsStarting = Keeps-modify _ (λ s i. ground arith)

  pub store-IsStarting :
      {A : Type 0} (o : Option A) (f : A → Daemon → Daemon)
      → ((a : A) (s : Daemon) → o ≡ some a → IsStarting e s → IsStarting e (f a s))
      → Keeps (IsStarting e) (store_or_exit o f)
  unfolding store_or_exit
  store-IsStarting none f h = Keeps-stop 1
  store-IsStarting (some a) f h = Keeps-modify _ (λ s i. h a s refl i)

  pub speed-IsStarting :
      (t : List ℕ) → Keeps (IsStarting e) (store_or_exit (cwdaemon_params_wpm e t) put_speed)
  speed-IsStarting t = store-IsStarting _ _ (λ z s h i. ground (arith, wpm-InRange e t z h))

  pub volume-IsStarting :
      (t : List ℕ) → Keeps (IsStarting e) (store_or_exit (cwdaemon_params_volume e t) put_volume)
  volume-IsStarting t = store-IsStarting _ _ (λ z s h i. ground (arith, volume-InRange e t z h))

  pub tone-IsStarting :
      (t : List ℕ) → Keeps (IsStarting e) (store_or_exit (cwdaemon_params_tone e t) put_tone)
  tone-IsStarting t = store-IsStarting _ _ (λ z s h i. ground (arith, tone-InRange e t z h))

  pub weighting-IsStarting :
      (t : List ℕ)
      → Keeps (IsStarting e) (store_or_exit (cwdaemon_params_weighting t) put_weighting)
  weighting-IsStarting t = store-IsStarting _ _ (λ z s h i. ground (arith, weighting-InRange t z h))

  pub delay-IsStarting :
      (t : List ℕ)
      → Keeps (IsStarting e) (store_or_exit (strict_delay (cwdaemon_params_pttdelay t)) put_delay)
  delay-IsStarting t =
      store-IsStarting _ _
        (λ n s h i. ground (arith, pttdelay_bounded t n (strict_delay-stored _ n h)))

  pub system-IsStarting :
      (o : Option AudioSystem) → Keeps (IsStarting e) (store_or_exit o put_system)
  system-IsStarting o = store-IsStarting _ _ (λ a s h i. ground arith)

  pub threshold-IsStarting : (o : Option ℕ) → Keeps (IsStarting e) (store_or_exit o put_threshold)
  threshold-IsStarting o = store-IsStarting _ _ (λ a s h i. ground arith)

  pub inc-IsStarting :
      Keeps
        (IsStarting e)
        (modify (λ s. put_threshold (cwdaemon_option_inc_verbosity s.defaults.log_threshold) s))
  inc-IsStarting = Keeps-modify _ (λ s i. ground arith)

  pub debugfile-IsStarting :
      (o : Option (List ℕ)) → Keeps (IsStarting e) (store_or_exit o put_debugfile)
  debugfile-IsStarting o = store-IsStarting _ _ (λ a s h i. ground arith)

  pub port-IsStarting : (o : Option ℕ) → Keeps (IsStarting e) (store_or_exit o put_port)
  port-IsStarting o = store-IsStarting _ _ (λ a s h i. ground arith)

  pub priority-IsStarting : (o : Option ℤ) → Keeps (IsStarting e) (store_or_exit o put_priority)
  priority-IsStarting o = store-IsStarting _ _ (λ a s h i. ground arith)

  pub flags-IsStarting : (o : Option ℕ) → Keeps (IsStarting e) (store_or_exit o put_flags)
  flags-IsStarting o = store-IsStarting _ _ (λ a s h i. ground arith)
