-- ===== src/Tests/Lifecycle.antt =====
-- Runs of the daemon from its start to its end, and of a client, at concrete inputs.
use cwdaemon.Base.{
  negsuc, inl, inr, false, ltb_ℤ, ℕ, ◌≤◌, ◌<◌, ◌*◌, ◌≡◌, refl, none, some, Option, List, [], ◌∷◌, ℤ,
  pos, arith, length,
}
use cwdaemon.World.Calls.{ttys, fork, Call, Env, IsLibcw}
use cwdaemon.World.State.{Daemon, initial_daemon, disc_file}
use cwdaemon.World.Run.{ret, run}
use cwdaemon.World.Keeps.{Returns, Follows}
use cwdaemon.Utils.CString.{codes}
use cwdaemon.Reply.{datagram}
use cwdaemon.Main.{start, round, react, Running}
use cwdaemon.Invariant.{IsIdle}
use cwdaemon.Liveness.Runs.{react-Follows}
use cwdaemon.Shutdown.{cwdaemon_catch_sigint, exit_handlers, at_exit}
use cwdaemon.Shutdown.Closed.{IsReleased}
use cwdaemon.Shutdown.Release.{exit-IsReleased}
use cwdaemon.Sleep.{
  Timespec, slept, interrupted, Kernel, microsleep_nonintr, millisleep_nonintr, sleep_nonintr,
}
use cwdaemon.Sleep.Whole.{nanos, IsKernel, IsWhole, sleep-IsWhole}
use cwdaemon.Sleep.Ptt.{delay-IsWhole}
use cwdaemon.Request.{cwdaemon_receive}
use cwdaemon.Client.{k_speed, netkeyer, session}
use cwdaemon.Client.Trip.{asked, keyed, netkeyer_trip}
use cwdaemon.Client.Session.{datagrams_of, serve, session-Running}
use cwdaemon.Client.Rounds.{carry_out}
use cwdaemon.Client.Ending.{IsDefaulted}
use cwdaemon.Log.Open.{set_debug_f, clashes}
use cwdaemon.Device.{cwdaemon_cwdevices_init, cwdaemon_cwdevice_init}
use cwdaemon.Device.Ttys.{tty_init_cwdevice, set_ttys}
use cwdaemon.Args.{cwdaemon_args_parse}
use cwdaemon.Liveness.Start.{configured, start-Returns}
use cwdaemon.Client.Socket.{
  netkeyer_init, netkeyer_close, first_open, addresses_of, IsTidy, netkeyer_init_lem,
}
use cwdaemon.Tests.{daemon_of, test_env, test_env-IsLibcw, started_daemon, is_Running}

react-Follows_example :
    Follows
      (IsIdle test_env)
      none
      (react test_env (round (some (datagram 7 (27 ∷ b'2' ∷ codes "35")))) started_daemon)
react-Follows_example =
    react-Follows test_env test_env-IsLibcw (λ t c. refl) started_daemon
      (round (some (datagram 7 (27 ∷ b'2' ∷ codes "35")))) is_Running

-- A serial port is open, DTR keys, RTS switches the PTT, and a file takes the messages.
abbrev keying_daemon : Daemon
keying_daemon = record initial_daemon {
  cwdevice_ttys = record { fd = pos 3; desc = some (codes "ttyS0"); key_pin = 2; ptt_pin = 4 };
  global_cwdevice = ttys;
  socket_descriptor = pos 5;
  debug_f = some (disc_file (codes "/tmp/log"));
}

exit-IsReleased_example :
    Returns (IsReleased keying_daemon) (
      at_exit
        (exit_handlers test_env)
        (react test_env (round (some (datagram 7 (27 ∷ b'5' ∷ 10 ∷ [])))) keying_daemon))
    × Returns
        (IsReleased keying_daemon)
        (at_exit (exit_handlers test_env) (cwdaemon_catch_sigint keying_daemon))
exit-IsReleased_example =
    exit-IsReleased test_env 7 (10 ∷ []) keying_daemon (λ t c. refl) refl (λ h. ground arith)
      (λ h. ground arith)

-- The first request of a sleep is interrupted at once.
abbrev test_kernel : Kernel
test_kernel [] t = interrupted t
test_kernel (_ ∷ _) t = slept

test_kernel-remains :
    (asked : List Timespec) (t rest : Timespec)
    → test_kernel asked t ≡ interrupted rest
    → (nanos rest ≤ nanos t) × (length asked < 1)
test_kernel-remains [] t rest h = ground arith
test_kernel-remains (u ∷ asked) t rest h = absurd (ground arith)

test_kernel-IsKernel : IsKernel test_kernel 1
test_kernel-IsKernel = record {
  remains = λ asked t rest h. (test_kernel-remains asked t rest h).0;
  patient = λ asked t rest h. (test_kernel-remains asked t rest h).1;
}

sleep-IsWhole_example :
    IsWhole test_kernel (2500000 * 1000) (microsleep_nonintr test_kernel 2 2500000)
    × IsWhole test_kernel (30 * 1000000) (millisleep_nonintr test_kernel 2 30)
    × IsWhole test_kernel (3 * 1000000000) (sleep_nonintr test_kernel 2 3)
sleep-IsWhole_example = sleep-IsWhole test_kernel 1 2500000 30 3 test_kernel-IsKernel (ground arith)

delay-IsWhole_example :
    IsWhole test_kernel
      (started_daemon.current.ptt_delay_ms * 1000000)
      (millisleep_nonintr test_kernel 2 started_daemon.current.ptt_delay_ms)
delay-IsWhole_example =
    delay-IsWhole test_env test_kernel 1 started_daemon test_env-IsLibcw test_kernel-IsKernel
      is_Running

-- `send` sends all that it gets.
abbrev test_send : List ℕ → ℤ
test_send buf = pos (length buf)

netkeyer_trip_example :
    (buf : List ℕ) × (netkeyer test_send k_speed (codes "40") ≡ some (keyed test_send buf))
    × (cwdaemon_receive test_env (datagram 9 buf) initial_daemon
        ≡ asked test_env k_speed (codes "40") (record initial_daemon { request_addr = 9 }))
netkeyer_trip_example =
    netkeyer_trip test_env test_send k_speed (codes "40") 9 initial_daemon (ground arith)

session-Running_example :
    (ds : List (List ℕ)) × (datagrams_of test_send (session (some (codes "ttyS0"))) ≡ some ds)
    × (serve test_env 9 ds ≡ carry_out test_env 9 (session (some (codes "ttyS0"))))
    × Returns
        (λ t. Running test_env t × IsDefaulted t)
        (carry_out test_env 9 (session (some (codes "ttyS0"))) started_daemon)
session-Running_example =
    session-Running test_env test_send 9 (some (codes "ttyS0")) started_daemon test_env-IsLibcw
      (λ t c. refl) (ground arith) is_Running

-- The world of the child process.
abbrev child_answer : Call → ℤ
child_answer fork = pos 0
child_answer _ = pos 1

abbrev child_env : Env
child_env = record test_env { returns = λ t c. child_answer c }

child_env-IsLibcw : IsLibcw child_env
child_env-IsLibcw = ground arith

child_answer_sign : (c : Call) → ltb_ℤ (child_answer c) (pos 0) ≡ false
child_answer_sign fork = refl
child_answer_sign _ = refl

abbrev configured_daemon : Daemon
unfolding run set_debug_f cwdaemon_cwdevices_init cwdaemon_cwdevice_init tty_init_cwdevice set_ttys
    cwdaemon_args_parse
configured_daemon = daemon_of (configured child_env [] false)

configured_test : configured child_env [] false ≡ ret tt configured_daemon
unfolding run set_debug_f cwdaemon_cwdevices_init cwdaemon_cwdevice_init tty_init_cwdevice set_ttys
    cwdaemon_args_parse configured_daemon
configured_test = refl

no_clash_test : clashes child_env configured_daemon.forking configured_daemon.debug_f_path ≡ false
unfolding configured_daemon
no_clash_test = refl

start-Returns_example : Returns (IsIdle child_env) (start child_env [] false initial_daemon)
start-Returns_example =
    start-Returns child_env [] false configured_daemon child_env-IsLibcw
      (λ t c. child_answer_sign c) (λ t. (λ a. refl, refl)) (λ t. refl) (λ t path. refl)
      configured_test no_clash_test

-- The second of three addresses answers.
abbrev answering : Option (List (ℤ × ℤ))
answering = some ((pos 3, negsuc 0) ∷ (pos 4, pos 0) ∷ (negsuc 0, pos 0) ∷ [])

netkeyer_init_lem_example :
    ((netkeyer_init answering).fd ≡ first_open (addresses_of answering))
    × IsTidy (netkeyer_init answering)
    × ((netkeyer_close (pos 0) (netkeyer_init answering)).1.closed
        ≡ (netkeyer_init answering).opened)
netkeyer_init_lem_example =
    netkeyer_init_lem answering (pos 0) (inr refl, (inr refl, (inl refl, tt)))
