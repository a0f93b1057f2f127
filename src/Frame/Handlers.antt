-- ===== src/Frame/Handlers.antt =====
-- The libcw output, the choice of the keying device, the key and the requests to the device keep
-- what the keying devices cannot change.
use cwdaemon.Base.{
  ℕ, zero, suc, refl, Bool, true, false, Option, none, some, List, [], ◌∷◌, ℤ, ◌==◌,
}
use cwdaemon.World.Calls.{Env, AudioSystem, Kind, ttys, lp, null, cw_register_keying_callback}
use cwdaemon.World.State.{Daemon}
use cwdaemon.World.Run.{Void, perform, modify}
use cwdaemon.World.Yields.{Holds, Holds-skip}
use cwdaemon.World.Keeps.{Keeps, Keeps->>=, Keeps->>, Keeps-gets, Keeps-skip, Keeps-when}
use cwdaemon.Device.{
  set_desc, clear_desc, replace_device, take_over, cwdaemon_cwdevice_set, cwdaemon_option_cwdevice,
  dev_ssbway, dev_switchband, dev_footswitch,
}
use cwdaemon.Ptt.{queue_seconds}
use cwdaemon.Sound.{retry_oss, cwdaemon_open_libcw_output, cwdaemon_close_libcw_output}
use cwdaemon.Play.{after_character}
use cwdaemon.Escape.{if_some, esc_cwdevice, esc_ssb_way, esc_band_switch, cwdaemon_switch_band}
use cwdaemon.Callback.{queue_is_low, cwdaemon_keyingevent}
use cwdaemon.Main.{count_inactivity, follow_footswitch}
use cwdaemon.Frame.{IsFrame, IsRemote, frame_rules, perform-Keeps}
use cwdaemon.Frame.Devices.{
  dev_init-Keeps, dev_free-Keeps, dev_cw-Keeps, dev_ptt-Keeps, tty_probe_cwdevice-Keeps,
  lp_probe_cwdevice-Keeps, lp_ssbway-Keeps, lp_switchband-Keeps, lp_footswitch-Keeps,
}

pub Keeps-if_some :
    {A : Type 0} {P : Daemon → Type 0} (o : Option A) (m : A → Void)
    → ((a : A) → Keeps P (m a))
    → Keeps P (if_some o m)
unfolding if_some
Keeps-if_some none m h = Keeps-skip
Keeps-if_some (some a) m h = h a

pub Holds-if_some :
    {A : Type 0} {P : Daemon → Type 0} (o : Option A) (m : A → Void)
    → ((x : A) → Holds P (m x))
    → Holds P (if_some o m)
unfolding if_some
Holds-if_some none m h = Holds-skip
Holds-if_some (some x) m h = h x

module _ {P : Daemon → Type 0} (f : IsFrame P) where
  pub close_output-Keeps : Keeps P cwdaemon_close_libcw_output
  unfolding cwdaemon_close_libcw_output
  close_output-Keeps = search frame_rules

  set_desc-Keeps : (k : Kind) (d : List ℕ) → Keeps P (modify (set_desc k d))
  unfolding modify
  set_desc-Keeps ttys d = record { at = λ s i. f.ttys_ok _ s i }
  set_desc-Keeps lp d = record { at = λ s i. f.lp_ok _ s i }
  set_desc-Keeps null d = record { at = λ s i. f.null_ok _ s i }

  clear_desc-Keeps : (k : Kind) → Keeps P (modify (clear_desc k))
  unfolding modify
  clear_desc-Keeps ttys = record { at = λ s i. f.ttys_ok _ s i }
  clear_desc-Keeps lp = record { at = λ s i. f.lp_ok _ s i }
  clear_desc-Keeps null = record { at = λ s i. f.null_ok _ s i }

module _ (e : Env) {P : Daemon → Type 0} (f : IsFrame P) where
  retry_oss-Keeps : (n : ℕ) (a : AudioSystem) (rv : ℤ) → Keeps P (retry_oss e n a rv)
  unfolding retry_oss
  retry_oss-Keeps zero a rv = search frame_rules
  retry_oss-Keeps (suc n) a rv = search (frame_rules, retry_oss-Keeps n) depth 8

  pub open_output-Keeps : (a : AudioSystem) → Keeps P (cwdaemon_open_libcw_output e a)
  unfolding cwdaemon_open_libcw_output
  open_output-Keeps a = search (frame_rules, retry_oss-Keeps) depth 9

  pub queue_seconds-Keeps : (n : ℕ) → Keeps P (queue_seconds e n)
  unfolding queue_seconds
  queue_seconds-Keeps zero = Keeps-skip
  queue_seconds-Keeps (suc n) =
      Keeps->>= _ _ (Keeps-gets _)
        (λ tone. Keeps->> _ _ (perform-Keeps _ f refl) (queue_seconds-Keeps n))

  pub after_character-Keeps : (rest : List ℕ) → Keeps P (after_character e rest)
  unfolding after_character
  after_character-Keeps rest = search frame_rules depth 8

  pub queue_is_low-Keeps : (b : Bool) → Keeps P (queue_is_low e b)
  unfolding queue_is_low
  queue_is_low-Keeps true = search frame_rules
  queue_is_low-Keeps false = search frame_rules

  ssbway-Keeps : (k : Kind) (b : Bool) → Keeps P (if_some (dev_ssbway e k) (λ m. m b))
  unfolding dev_ssbway if_some
  ssbway-Keeps lp b = lp_ssbway-Keeps e f b
  ssbway-Keeps _ b = Keeps-skip

  switchband-Keeps : (k : Kind) (n : ℕ) → Keeps P (if_some (dev_switchband e k) (λ m. m n))
  unfolding dev_switchband if_some
  switchband-Keeps lp n = lp_switchband-Keeps e f n
  switchband-Keeps _ n = Keeps-skip

  pub esc_ssb_way-Keeps : (payload : List ℕ) → Keeps P (esc_ssb_way e payload)
  unfolding esc_ssb_way
  esc_ssb_way-Keeps payload =
      Keeps-if_some _ _ (λ lv. Keeps->>= _ _ (Keeps-gets _) (λ dev. ssbway-Keeps dev _))

  pub esc_band_switch-Keeps : (payload : List ℕ) → Keeps P (esc_band_switch e payload)
  unfolding esc_band_switch cwdaemon_switch_band
  esc_band_switch-Keeps payload =
      Keeps-if_some _ _
        (λ lv. Keeps-when _ _ (Keeps->>= _ _ (Keeps-gets _) (λ dev. switchband-Keeps dev _)))

  pub footswitch-Keeps : (k dev : Kind) → Keeps P (follow_footswitch e (dev_footswitch e k) dev)
  unfolding follow_footswitch dev_footswitch
  footswitch-Keeps lp dev =
      Keeps->>= _ _ (lp_footswitch-Keeps e f) (λ state. dev_ptt-Keeps e f dev _)
  footswitch-Keeps _ dev = Keeps-skip

  replace_device-Keeps :
      (old k : Kind) (fd : ℤ) (desc : List ℕ) → Keeps P (replace_device e old k fd desc)
  unfolding replace_device
  replace_device-Keeps old k fd desc =
      search (frame_rules, set_desc-Keeps, clear_desc-Keeps, dev_init-Keeps, dev_free-Keeps) depth 8

module _ (e : Env) {P : Daemon → Type 0} (f : IsFrame P) (r : IsRemote P) where
  global-Keeps : (k : Kind) → Keeps P (modify (λ s. record s { global_cwdevice = k }))
  unfolding modify
  global-Keeps k = record { at = λ s i. r.kind_ok k s i }

  pub register-Keeps : (d : Option Kind) → Keeps P (perform (cw_register_keying_callback d))
  unfolding perform
  register-Keeps d = record { at = λ s i. r.register_ok d s i }

  pub count-Keeps : Keeps P (count_inactivity e)
  unfolding count_inactivity modify
  count-Keeps = record { at = λ s i. r.idle_ok _ s i }

  active-Keeps : Keeps P (modify (λ s. record s { inactivity_seconds = 0 }))
  unfolding modify
  active-Keeps = record { at = λ s i. r.idle_ok 0 s i }

  pub keyingevent-Keeps : (k : Kind) (state : ℕ) → Keeps P (cwdaemon_keyingevent e k state)
  unfolding cwdaemon_keyingevent
  keyingevent-Keeps k state = Keeps->> _ _ (dev_cw-Keeps e f k (state == 1)) active-Keeps

  take_over-Keeps : (k : Kind) (fd : ℤ) (desc : List ℕ) → Keeps P (take_over e k fd desc)
  unfolding take_over
  take_over-Keeps k fd desc = search (frame_rules, global-Keeps, replace_device-Keeps)

  cwdevice_set-Keeps : (desc : List ℕ) → Keeps P (cwdaemon_cwdevice_set e desc)
  unfolding cwdaemon_cwdevice_set
  cwdevice_set-Keeps desc =
      search (frame_rules, take_over-Keeps, tty_probe_cwdevice-Keeps, lp_probe_cwdevice-Keeps) depth
        9

  pub option_cwdevice-Keeps : (value : Option (List ℕ)) → Keeps P (cwdaemon_option_cwdevice e value)
  unfolding cwdaemon_option_cwdevice
  option_cwdevice-Keeps none = search frame_rules
  option_cwdevice-Keeps (some []) = search frame_rules
  option_cwdevice-Keeps (some (c ∷ s)) = cwdevice_set-Keeps (c ∷ s)

  pub esc_cwdevice-Keeps : (payload : List ℕ) → Keeps P (esc_cwdevice e payload)
  unfolding esc_cwdevice
  esc_cwdevice-Keeps payload = search (frame_rules, register-Keeps, option_cwdevice-Keeps) depth 9
