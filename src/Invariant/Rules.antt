-- ===== src/Invariant/Rules.antt =====
-- The invariant under each change of a variable and each call.
use cwdaemon.Base.{
  ℕ, ◌≡◌, refl, ◌≤◌, Bool, true, false, Option, none, some, List, [], ℤ, pos, negsuc, InRange,
  arith, if◌then◌else◌,
}
use cwdaemon.World.Calls.{Call, Env, AudioSystem}
use cwdaemon.World.State.{Daemon, no_ptt, Device}
use cwdaemon.World.Run.{Void, modify, call, perform}
use cwdaemon.World.Keeps.{Leads, Keeps, keeps_rules, Keeps-skip}
use cwdaemon.Ptt.{change_ptt, add_auto, add_manual, drop_manual}
use cwdaemon.Sound.{set_audio_output}
use cwdaemon.Play.{set_queue, set_speed}
use cwdaemon.Escape.{set_tone, set_volume, set_weighting, set_ptt_delay, set_audio_system, if_some}
use cwdaemon.Device.Ttys.{set_ttys}
use cwdaemon.Invariant.{Phase, playing, IsSound, registers}

module _ {e : Env} {mid : Phase} {unhooked : Bool} where
  pub call-IsSound : (c : Call) → registers c ≡ none → Keeps (IsSound e mid unhooked) (call e c)
  unfolding call
  call-IsSound c h = record { at = λ s i. ground arith }

  pub perform-IsSound : (c : Call) → registers c ≡ none → Keeps (IsSound e mid unhooked) (perform c)
  unfolding perform
  perform-IsSound c h = record { at = λ s i. ground arith }

  pub set_auto-IsSound : Keeps (IsSound e mid unhooked) (change_ptt add_auto)
  unfolding change_ptt modify
  set_auto-IsSound = record { at = λ s i. ground arith }

  pub set_manual-IsSound : Keeps (IsSound e mid unhooked) (change_ptt add_manual)
  unfolding change_ptt modify
  set_manual-IsSound = record { at = λ s i. ground arith }

  pub clear_manual-IsSound : Keeps (IsSound e mid unhooked) (change_ptt drop_manual)
  unfolding change_ptt modify
  clear_manual-IsSound = record { at = λ s i. ground arith }

  pub clear_ptt-IsSound : Keeps (IsSound e mid unhooked) (change_ptt (λ f. no_ptt))
  unfolding change_ptt modify
  clear_ptt-IsSound = record { at = λ s i. ground arith }

  pub audio_output-IsSound : (b : Bool) → Keeps (IsSound e mid unhooked) (set_audio_output b)
  unfolding set_audio_output modify
  audio_output-IsSound b = record { at = λ s i. ground arith }

  pub audio_system-IsSound : (a : AudioSystem) → Keeps (IsSound e mid unhooked) (set_audio_system a)
  unfolding set_audio_system modify
  audio_system-IsSound a = record { at = λ s i. ground arith }

  pub queue-IsSound : Keeps (IsSound e mid unhooked) (set_queue [])
  unfolding set_queue modify
  queue-IsSound = record { at = λ s i. ground arith }

  pub set_ttys-IsSound : (f : Device → Device) → Keeps (IsSound e mid unhooked) (set_ttys f)
  unfolding set_ttys modify
  set_ttys-IsSound f = record { at = λ s i. ground arith }

  pub speed-IsSound :
      (z : ℤ) → InRange e.speed_min e.speed_max z → Keeps (IsSound e mid unhooked) (set_speed z)
  unfolding set_speed modify
  speed-IsSound z h = record { at = λ s i. ground arith }

  pub tone-IsSound :
      (z : ℤ)
      → InRange e.frequency_min e.frequency_max z
      → Keeps (IsSound e mid unhooked) (set_tone z)
  unfolding set_tone modify
  tone-IsSound z h = record { at = λ s i. ground arith }

  pub volume-IsSound :
      (z : ℤ) → InRange e.volume_min e.volume_max z → Keeps (IsSound e mid unhooked) (set_volume z)
  unfolding set_volume modify
  volume-IsSound z h = record { at = λ s i. ground arith }

  pub weighting-IsSound :
      (z : ℤ) → InRange (negsuc 49) (pos 50) z → Keeps (IsSound e mid unhooked) (set_weighting z)
  unfolding set_weighting modify
  weighting-IsSound z h = record { at = λ s i. ground arith }

  pub ptt_delay-IsSound : (n : ℕ) → n ≤ 50 → Keeps (IsSound e mid unhooked) (set_ptt_delay n)
  unfolding set_ptt_delay modify
  ptt_delay-IsSound n h = record { at = λ s i. ground arith }

  -- Either branch of a conditional call.
  pub call_if-IsSound :
      (b : Bool) (c d : Call)
      → registers c ≡ none
      → registers d ≡ none
      → Keeps (IsSound e mid unhooked) (call e (if b then c else d))
  call_if-IsSound true c d h k = call-IsSound c h
  call_if-IsSound false c d h k = call-IsSound d k

pub queue_text-IsSound :
    {e : Env} {unhooked : Bool} (q : List ℕ) → Keeps (IsSound e playing unhooked) (set_queue q)
unfolding set_queue modify
queue_text-IsSound q = record { at = λ s i. ground arith }

module _ {P : Daemon → Type 0} where
  pub Keeps-if_some :
      {A : Type 0} (o : Option A) (f : A → Void)
      → ((a : A) → o ≡ some a → Keeps P (f a))
      → Keeps P (if_some o f)
  unfolding if_some
  Keeps-if_some none f h = Keeps-skip
  Keeps-if_some (some a) f h = h a refl

pub ruleset sound_rules = (
  keeps_rules, call-IsSound, perform-IsSound, call_if-IsSound, set_auto-IsSound, set_manual-IsSound,
  clear_manual-IsSound, clear_ptt-IsSound, audio_output-IsSound, audio_system-IsSound,
  queue-IsSound, set_ttys-IsSound,
)
