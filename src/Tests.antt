-- ===== src/Tests.antt =====
-- Runs of the model at concrete inputs: the daemon as a whole, with a sound card that opens.
pub mod Parsing
pub mod Handlers
pub mod Lifecycle
pub mod Ports
pub mod Keying
pub mod Texts
use cwdaemon.Base.{
  ◌≡◌, ◌≢◌, refl, true, false, none, some, List, [], ◌∷◌, pos, arith, InRange, length, ◌<◌, ◌+◌,
  ◌⊎◌,
}
use cwdaemon.World.Calls.{Env, IsLibcw}
use cwdaemon.World.State.{Daemon, initial_daemon}
use cwdaemon.World.Run.{Outcome, ret, exit, fault, run}
use cwdaemon.Device.Ttys.{set_ttys}
use cwdaemon.Args.{Arg, short}
use cwdaemon.Sound.{set_audio_output}
use cwdaemon.Play.{set_queue}
use cwdaemon.Invariant.{AreInRange, keying_target}
use cwdaemon.Reply.{datagram}
use cwdaemon.Params.{cwdaemon_params_wpm}
use cwdaemon.Utils.{cwdaemon_get_long}
use cwdaemon.Utils.CString.{codes}
use cwdaemon.Play.Caret.{IsCalm}
use cwdaemon.Main.{start, react, round, Running, started}
use cwdaemon.Invariant.Runs.{
  react-ne-fault, start-ne-fault, Running-InRange, Running-keying_target, Running-buffers,
}

-- Every call returns 1; the limits are those of libcw.
abbrev pub test_env : Env
test_env = record {
  returns = λ t c. pos 1;
  speed_min = pos 4;
  speed_max = pos 60;
  frequency_min = pos 0;
  frequency_max = pos 4000;
  volume_min = pos 0;
  volume_max = pos 100;
}

pub test_env-IsLibcw : IsLibcw test_env
test_env-IsLibcw = ground arith

abbrev pub daemon_of : {A : Type 0} → Outcome A → Daemon
daemon_of (ret a s) = s
daemon_of (exit n s) = initial_daemon
daemon_of (fault s) = s

-- `cwdaemon -n -s 30`
abbrev pub test_args : List Arg
test_args = short b'n' [] ∷ short b's' (codes "30") ∷ []

abbrev pub started_daemon : Daemon
unfolding start run set_ttys set_audio_output set_queue cwdaemon_params_wpm cwdaemon_get_long
started_daemon = daemon_of (start test_env test_args false initial_daemon)

pub start_test : start test_env test_args false initial_daemon ≡ ret tt started_daemon
unfolding start run set_ttys set_audio_output set_queue started_daemon cwdaemon_params_wpm
    cwdaemon_get_long
start_test = refl

speed_test : started_daemon.current.morse_speed ≡ pos 30
unfolding started_daemon cwdaemon_get_long
speed_test = refl

pub is_Running : Running test_env started_daemon
is_Running = started test_args false started_daemon start_test

react-ne-fault_example :
    react test_env (round (some (datagram 7 (codes "cq^")))) started_daemon ≢ fault initial_daemon
react-ne-fault_example =
    react-ne-fault test_env-IsLibcw started_daemon initial_daemon
      (round (some (datagram 7 (codes "cq^")))) is_Running

start-ne-fault_example : start test_env test_args false initial_daemon ≢ fault initial_daemon
start-ne-fault_example = start-ne-fault test_env-IsLibcw test_args false initial_daemon

Running-InRange_example :
    AreInRange test_env started_daemon.current
    × AreInRange test_env started_daemon.defaults
    × InRange (pos 4) (pos 60) started_daemon.current.morse_speed
    × InRange (pos 4) (pos 60) started_daemon.defaults.morse_speed
Running-InRange_example = Running-InRange test_env-IsLibcw started_daemon is_Running

Running-keying_target_example :
    (keying_target started_daemon.trace ≡ none)
    ⊎ (keying_target started_daemon.trace ≡ some started_daemon.global_cwdevice)
Running-keying_target_example = Running-keying_target test_env-IsLibcw started_daemon is_Running

Running-buffers_example :
    (started_daemon.request_queue ≡ [])
    × (length started_daemon.reply_buffer < 258)
    × (started_daemon.ptt_flag.echo ≡ true → length started_daemon.reply_buffer + 2 < 258)
Running-buffers_example = Running-buffers test_env-IsLibcw started_daemon is_Running

pub test_env-IsCalm : IsCalm test_env
test_env-IsCalm = record { succeeds = λ t c. refl; no_gap = λ t. refl }
