-- ===== src/Tests/Texts.antt =====
-- A text at a concrete input, with a libcw that remembers its gap.
use cwdaemon.Base.{ℕ, ◌≡◌, refl, false, some, List, [], ◌∷◌, ℤ, ◌+ℤ◌, pos, arith}
use cwdaemon.World.Calls.{Call, Env, IsLibcw, CallsSucceed, cw_get_gap}
use cwdaemon.World.State.{Daemon, initial_daemon}
use cwdaemon.World.Run.{ret, run}
use cwdaemon.World.Keeps.{Returns}
use cwdaemon.Utils.{cwdaemon_get_long}
use cwdaemon.Utils.CString.{codes}
use cwdaemon.Params.{cwdaemon_params_wpm}
use cwdaemon.Device.Ttys.{set_ttys}
use cwdaemon.Sound.{set_audio_output}
use cwdaemon.Play.{set_queue, clamp_speed}
use cwdaemon.Reply.{datagram}
use cwdaemon.Request.{cwdaemon_receive}
use cwdaemon.Main.{start, Running, started}
use cwdaemon.Keyer.Score.{Note, RemembersGap, last_gap, show, score}
use cwdaemon.Keyer.Texts.{from_client, text_of, receive-score}
use cwdaemon.Tests.{test_env, test_args, daemon_of}

abbrev gap_returns : List Call → Call → ℤ
gap_returns t cw_get_gap = pos (last_gap t)
gap_returns t _ = pos 1

abbrev gap_env : Env
gap_env = record test_env { returns = gap_returns }

gap_env-IsLibcw : IsLibcw gap_env
gap_env-IsLibcw = ground arith

gap_env-CallsSucceed : CallsSucceed gap_env
gap_env-CallsSucceed t c = ground arith

gap_env-RemembersGap : RemembersGap gap_env
gap_env-RemembersGap = record { gap_ok = λ t. refl }

abbrev gap_daemon : Daemon
unfolding start run set_ttys set_audio_output set_queue cwdaemon_params_wpm cwdaemon_get_long
gap_daemon = daemon_of (start gap_env test_args false initial_daemon)

gap_start_test : start gap_env test_args false initial_daemon ≡ ret tt gap_daemon
unfolding start run set_ttys set_audio_output set_queue gap_daemon cwdaemon_params_wpm
    cwdaemon_get_long
gap_start_test = refl

gap_daemon-Running : Running gap_env gap_daemon
gap_daemon-Running = started test_args false gap_daemon gap_start_test

abbrev note : ℕ → ℤ → ℕ → Note
note c z n = record { character = c; speed = some z; gap = n }

-- the newest note first
score_test :
    (score gap_env false [] (codes "a++b~c*-d^x") (show initial_daemon)).notes
    ≡ note b'd' (pos 26) 0
      ∷ note b'+' (pos 28) 0
      ∷ note b'c' (pos 28) 2
      ∷ note b'b' (pos 28) 0
      ∷ note b'a' (pos 24) 0
      ∷ []
unfolding score clamp_speed ◌+ℤ◌
score_test = refl

receive-score_example :
    Returns
      (λ t.
        show t
        ≡ score gap_env false [] (text_of (codes "a++b~c*-d^x")) (from_client 7 (show gap_daemon)))
      (cwdaemon_receive gap_env (datagram 7 (codes "a++b~c*-d^x")) gap_daemon)
unfolding gap_daemon
receive-score_example =
    receive-score gap_env 7 (codes "a++b~c*-d^x") gap_daemon gap_env-IsLibcw gap_env-CallsSucceed
      gap_env-RemembersGap gap_daemon-Running refl refl
