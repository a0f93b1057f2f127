-- ===== src/Main/Footswitch.antt =====
-- The foot switch of a parallel port in a round of the loop of `main` (src/cwdaemon.c).
use Prim.Native.Nat.{bit_and}
use cwdaemon.Base.{ℕ, ◌/◌, ◌≡◌, Bool, ◌==◌, ◌∷◌, some, pos_part, arith, ltb, ◌+◌, if◌then◌else◌}
use cwdaemon.World.Calls.{Env, CallsSucceed, lp, pprstatus, pprstatus_data}
use cwdaemon.World.State.{Daemon}
use cwdaemon.World.Keeps.{Returns}
use cwdaemon.World.Run.{ret, run, ◌>>=◌}
use cwdaemon.Device.{dev_footswitch, dev_ptt}
use cwdaemon.Device.Lp.{lp_footswitch, parport_read_data}
use cwdaemon.Device.Port.{port, put_ptt, IsPort, ptt-Makes}
use cwdaemon.Reply.{nothing, cwdaemon_recvfrom}
use cwdaemon.Request.{cwdaemon_receive, act_on}
use cwdaemon.Main.{react, round, main_round, count_inactivity, receive_selected, follow_footswitch}

-- The byte that the status register is read as, by the second of the two calls.
abbrev status : Env → Daemon → ℕ
status e s =
    pos_part (e.returns (pprstatus s.cwdevice_lp.fd ∷ s.trace) (pprstatus_data s.cwdevice_lp.fd))

-- The foot switch is down: its bit is low.
abbrev pub is_down : Env → Daemon → Bool
is_down e s = bit_and (status e s) 0x08 / 8 == 0

abbrev after_read : Daemon → Daemon
after_read s = record s {
  trace = pprstatus_data s.cwdevice_lp.fd ∷ pprstatus s.cwdevice_lp.fd ∷ s.trace;
}

footswitch_lem :
    (e : Env) (s : Daemon)
    → CallsSucceed e
    → lp_footswitch e s ≡ ret (bit_and (status e s) 0x08 / 8) (after_read s)
unfolding lp_footswitch parport_read_data run
footswitch_lem e s w = let works = w s.trace (pprstatus s.cwdevice_lp.fd) in ground arith

follow_footswitch_lem :
    (e : Env) (s : Daemon)
    → CallsSucceed e
    → Returns
        (IsPort s (put_ptt (is_down e s) (port s.cwdevice_lp.fd s.trace)))
        (follow_footswitch e (dev_footswitch e lp) lp s)
unfolding follow_footswitch dev_footswitch dev_ptt ◌>>=◌
follow_footswitch_lem e s w = rw (footswitch_lem e s w) (ptt-Makes e w (is_down e s) (after_read s))

-- With a parallel port, a round of the loop that finds no request switches the PTT to where the
-- foot switch is, on if it is down and off if it is up, whatever the PTT was before, and leaves the
-- other outputs. No call returns a negative number.
pub footswitch_round :
    (e : Env) (s : Daemon)
    → CallsSucceed e
    → s.global_cwdevice ≡ lp
    → Returns
        (IsPort s (put_ptt (is_down e s) (port s.cwdevice_lp.fd s.trace)))
        (react e (round (some nothing)) s)
unfolding react main_round count_inactivity receive_selected cwdaemon_receive cwdaemon_recvfrom
    act_on run
footswitch_round e s w k =
    let counted : Daemon = record s {
      inactivity_seconds =
          if ltb s.inactivity_seconds 30 then s.inactivity_seconds + 1 else s.inactivity_seconds;
      global_cwdevice = lp;
    } in
    rw k (follow_footswitch_lem e counted w)
