-- ===== src/Ptt/Release.antt =====
-- When the PTT is released (src/cwdaemon.c): `cwdaemon_set_ptt_off`, manual PTT off, and the low
-- tone queue.
use cwdaemon.Base.{◌≡◌, true, false, ◌⊎◌, List, [], ◌∷◌, pos, arith, ltb_ℤ}
use cwdaemon.World.Calls.{Env, Call, tiocmbic, ppfcontrol, cw_get_tone_queue_length}
use cwdaemon.World.State.{Daemon, no_ptt}
use cwdaemon.World.Keeps.{Returns}
use cwdaemon.World.Run.{run}
use cwdaemon.Device.{dev_ptt}
use cwdaemon.Device.Lp.{control_init}
use cwdaemon.Ptt.{change_ptt, is_auto_only, drop_manual, cwdaemon_set_ptt_off, ptt_manual_off}
use cwdaemon.Ptt.Flag.{no_modifiers_always}
use cwdaemon.Callback.{queue_is_low, cwdaemon_tone_queue_low_callback}
use cwdaemon.Callback.Echo.{sent}

-- The PTT flag is cleared, and nothing else that is listed changes.
abbrev pub IsOff : Daemon → Daemon → Type 0
IsOff s t =
    (t.request_queue ≡ s.request_queue)
    × (t.ptt_flag ≡ no_ptt)
    × (sent t.trace ≡ sent s.trace)
    × (t.current ≡ s.current)

pub cwdaemon_set_ptt_off_lem :
    (e : Env) (s : Daemon)
    → ((t : List Call) (c : Call) → ltb_ℤ (e.returns t c) (pos 0) ≡ false)
    → Returns (IsOff s) (cwdaemon_set_ptt_off e s)
unfolding cwdaemon_set_ptt_off dev_ptt change_ptt run
cwdaemon_set_ptt_off_lem e s w =
    let tty_works = w s.trace (tiocmbic s.cwdevice_ttys.fd s.cwdevice_ttys.ptt_pin) in
    let lp_works = w s.trace (ppfcontrol s.cwdevice_lp.fd control_init 0) in ground arith

-- While no reply is due, the low tone queue sends nothing, and it clears the PTT flag or leaves it
-- as it is; it clears it only if the automatic bit alone was set and no text is queued.
pub tone_queue_low-quiet :
    (e : Env) (s : Daemon)
    → ((t : List Call) (c : Call) → ltb_ℤ (e.returns t c) (pos 0) ≡ false)
    → s.ptt_flag.echo ≡ false
    → Returns
        (λ t.
          (sent t.trace ≡ sent s.trace)
          × (t.current ≡ s.current)
          × ((t.ptt_flag ≡ s.ptt_flag)
              ⊎ ((t.ptt_flag ≡ no_ptt)
                  × (is_auto_only s.ptt_flag ≡ true)
                  × (s.request_queue ≡ []))))
        (cwdaemon_tone_queue_low_callback e s)
unfolding cwdaemon_tone_queue_low_callback queue_is_low run
tone_queue_low-quiet e s w h =
    let twice : List Call = cw_get_tone_queue_length ∷ cw_get_tone_queue_length ∷ s.trace in
    let off = cwdaemon_set_ptt_off_lem e (record s { trace = twice }) w in ground arith

-- Manual PTT off, while the manual bit is set, no text is queued and the tone queue is low, clears
-- the whole flag, also the bit of a reply that is due.
pub ptt_manual_off-clears :
    (e : Env) (s : Daemon)
    → ((t : List Call) (c : Call) → ltb_ℤ (e.returns t c) (pos 0) ≡ false)
    → s.ptt_flag.manual ≡ true
    → s.request_queue ≡ []
    → ltb_ℤ (pos 1) (e.returns s.trace cw_get_tone_queue_length) ≡ false
    → Returns (IsOff s) (ptt_manual_off e s)
unfolding ptt_manual_off change_ptt run
ptt_manual_off-clears e s w h q low =
    let dropped : Daemon = record s {
      ptt_flag = drop_manual s.ptt_flag;
      trace = cw_get_tone_queue_length ∷ s.trace;
    } in
    let off = cwdaemon_set_ptt_off_lem e dropped w in
    rw (h, no_modifiers_always (drop_manual s.ptt_flag), q, low) (ground arith)
