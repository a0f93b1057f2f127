-- ===== src/Tests/Keying.antt =====
-- Runs of the daemon through several events, and what they leave behind.
use cwdaemon.Base.{◌≡◌, ◌≤◌, refl, ◌+◌, false, some, [], ◌∷◌, List, arith}
use cwdaemon.World.State.{Daemon}
use cwdaemon.World.Run.{ret, run}
use cwdaemon.World.Keeps.{Returns}
use cwdaemon.Utils.CString.{codes}
use cwdaemon.Ptt.{change_ptt}
use cwdaemon.Reply.{datagram}
use cwdaemon.Escape.Dispatch.{dispatch, tx_delay}
use cwdaemon.Main.{Event, round, tone_queue_low}
use cwdaemon.Traffic.{sent_to, due_to, received_from, react_all}
use cwdaemon.Traffic.Runs.{replies-bounded}
use cwdaemon.Settings.{IsTold}
use cwdaemon.Settings.Runs.{Running-IsTold}
use cwdaemon.Keyer.{view, obey}
use cwdaemon.Keyer.Refines.{dispatch-obey}
use cwdaemon.Invariant.Runs.{Running-IsIdle}
use cwdaemon.Tests.{
  test_env, test_env-IsLibcw, test_args, started_daemon, start_test, is_Running, daemon_of,
}

-- the client 9 asks for a reply, the tone queue gets low, and the client 8 asks for another one
abbrev asking : List Event
asking =
    round (some (datagram 9 (27 ∷ codes "hcq")))
    ∷ tone_queue_low
    ∷ round (some (datagram 8 (27 ∷ codes "hde")))
    ∷ []

abbrev asked_daemon : Daemon
unfolding react_all run
asked_daemon = daemon_of (react_all test_env asking started_daemon)

asked_test : react_all test_env asking started_daemon ≡ ret tt asked_daemon
unfolding react_all run asked_daemon change_ptt started_daemon
asked_test = refl

replies_test : (sent_to 9 asked_daemon.trace ≡ 1) × (due_to 8 asked_daemon ≡ 1)
unfolding asked_daemon change_ptt started_daemon
replies_test = (refl, refl)

replies-bounded_example :
    sent_to 9 asked_daemon.trace + due_to 9 asked_daemon ≤ received_from 9 asking
replies-bounded_example =
    replies-bounded test_env test_args false asking 9 started_daemon asked_daemon start_test
      asked_test

Running-IsTold_example : IsTold started_daemon.current started_daemon.trace
unfolding started_daemon
Running-IsTold_example = Running-IsTold test_env started_daemon is_Running refl

dispatch-obey_example :
    Returns
      (λ t. view t ≡ obey test_env false tx_delay (codes "20") (codes "d20") (view started_daemon))
      (dispatch test_env tx_delay (codes "20") (codes "d20") started_daemon)
dispatch-obey_example =
    dispatch-obey test_env tx_delay (codes "20") (codes "d20") started_daemon test_env-IsLibcw
      (λ t c. refl) (λ t. (λ a. refl, refl))
      (Running-IsIdle test_env-IsLibcw started_daemon is_Running) (λ h. cc) (ground arith)
