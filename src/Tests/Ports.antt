-- ===== src/Tests/Ports.antt =====
-- Runs of the keying devices, of the command line and of the log at concrete inputs.
use cwdaemon.Base.{ℤ, pos, List, ◌∷◌, ◌≡◌, refl, true, false, some, All, ltb, []}
use cwdaemon.World.Calls.{lp, Env, Call, ppigctrl_data}
use cwdaemon.World.State.{Daemon, stderr, initial_daemon}
use cwdaemon.World.Keeps.{Kept, Returns, Follows}
use cwdaemon.Utils.CString.{codes, str_eq}
use cwdaemon.Device.{cwdaemon_cwdevice_set}
use cwdaemon.Device.Lp.{lp_cw, lp_ptt, lp_ssbway, lp_switchband, lp_reset_pins_state}
use cwdaemon.Device.Port.{port, IsPort, put_key, put_ptt, put_soundcard, put_band, lp_outputs}
use cwdaemon.World.Run.{run}
use cwdaemon.Device.Ppi
use cwdaemon.Device.Builds.{control, ppi_port}
use cwdaemon.Device.Choice.{IsCurrent, IsSame, Settles}
use cwdaemon.Device.Picked.{IsPicked, IsBarred, cwdevice_set_lem}
use cwdaemon.Reply.{nothing}
use cwdaemon.Main.{react, round}
use cwdaemon.Main.Footswitch.{is_down, footswitch_round}
use mathlib.Core.List.Memᴰ.{head, tail}
use cwdaemon.Args.{long, short, cwdaemon_args_parse}
use cwdaemon.Args.Spelling.{nothing_left, same, shortened, args_parse-Respelled}
use cwdaemon.Log.{log_message, cwdaemon_debug}
use cwdaemon.Log.Filter.{lines, IsPlaced, is_silent, log_message-cwdaemon_debug}
use cwdaemon.Log.Open.{FitsPlace, cwdaemon_debug_open, cwdaemon_debug_open_lem}
use cwdaemon.Escape.{esc_cwdevice}
use cwdaemon.Escape.Cwdevice.{IsRehooked, esc_cwdevice_lem}
use cwdaemon.Invariant.Runs.{Running-IsIdle}
use cwdaemon.Tests.{daemon_of, test_env-IsLibcw, started_daemon, is_Running, test_env}

abbrev lp_daemon : Daemon
lp_daemon = record initial_daemon { global_cwdevice = lp }

lp_outputs_example :
    Returns
      (IsPort lp_daemon (put_key true (port lp_daemon.cwdevice_lp.fd lp_daemon.trace)))
      (lp_cw test_env true lp_daemon)
    × Returns
        (IsPort lp_daemon (put_ptt true (port lp_daemon.cwdevice_lp.fd lp_daemon.trace)))
        (lp_ptt test_env true lp_daemon)
    × Returns
        (IsPort lp_daemon (put_soundcard true (port lp_daemon.cwdevice_lp.fd lp_daemon.trace)))
        (lp_ssbway test_env true lp_daemon)
    × Returns
        (IsPort lp_daemon (put_band 33 (port lp_daemon.cwdevice_lp.fd lp_daemon.trace)))
        (lp_switchband test_env 33 lp_daemon)
    × Returns
        (IsPort lp_daemon
          (record { key_down = false; ptt_on = false; soundcard = false; band = 0 }))
        (lp_reset_pins_state test_env lp_daemon)
lp_outputs_example = lp_outputs test_env lp_daemon true 33 (λ t c. refl)

-- FreeBSD, where the byte of the control register is read back
abbrev ppi_returns : List Call → Call → ℤ
ppi_returns t (ppigctrl_data fd) = pos (control fd t)
ppi_returns t _ = pos 1

abbrev ppi_env : Env
ppi_env = record test_env { returns = ppi_returns }

-- the SSB source is moved to the soundcard and the key is pressed
ppi_test :
    ppi_port lp_daemon.cwdevice_lp.fd (daemon_of (Ppi.lp_ssbway ppi_env true lp_daemon)).trace
    ≡ record { key_down = true; ptt_on = false; soundcard = true; band = 0 }
unfolding Ppi.lp_ssbway run
ppi_test = refl

footswitch_round_example :
    Returns
      (IsPort lp_daemon
        (put_ptt (is_down test_env lp_daemon) (port lp_daemon.cwdevice_lp.fd lp_daemon.trace)))
      (react test_env (round (some nothing)) lp_daemon)
footswitch_round_example = footswitch_round test_env lp_daemon (λ t c. refl) refl

cwdevice_set_lem_example :
    Settles
      (λ t. IsCurrent (codes "ttyS1") t × IsPicked test_env (codes "ttyS1") lp_daemon t)
      (λ t. IsSame lp_daemon t × IsBarred test_env (codes "ttyS1") lp_daemon t)
      (cwdaemon_cwdevice_set test_env (codes "ttyS1") lp_daemon)
cwdevice_set_lem_example = cwdevice_set_lem test_env (codes "ttyS1") lp_daemon

-- `--wpm=30 -n` and `-s 30 -n`
args_parse-Respelled_example :
    cwdaemon_args_parse test_env
      (long (codes "wpm") (codes "30") ∷ short b'n' [] ∷ [])
      false
      initial_daemon
    ≡ cwdaemon_args_parse test_env
        (short b's' (codes "30") ∷ short b'n' [] ∷ [])
        false
        initial_daemon
args_parse-Respelled_example =
    args_parse-Respelled test_env (long (codes "wpm") (codes "30") ∷ short b'n' [] ∷ [])
      (short b's' (codes "30") ∷ short b'n' [] ∷ []) false initial_daemon
      (shortened (codes "wpm") b's' (codes "30") (short b'n' [] ∷ []) (short b'n' [] ∷ [])
        (tail (tail (tail (head refl)))) (same (short b'n' []) [] [] nothing_left))

log_message-cwdaemon_debug_example :
    All
      (IsPlaced (codes "cwdaemon") (some stderr) 3)
      (log_message (codes "cwdaemon") (some stderr) 4 3 (codes "x"))
    × All
        (IsPlaced (codes "cwdaemon") (some stderr) 3)
        (cwdaemon_debug (codes "cwdaemon") (some stderr) 4 3 (codes "x"))
    × (is_silent (log_message (codes "cwdaemon") (some stderr) 4 3 (codes "x")) ≡ ltb 4 3)
    × (lines (cwdaemon_debug (codes "cwdaemon") (some stderr) 4 3 (codes "x"))
        ≡ log_message (codes "cwdaemon") (some stderr) 4 3 (codes "x"))
log_message-cwdaemon_debug_example =
    log_message-cwdaemon_debug (codes "cwdaemon") (some stderr) 4 3 (codes "x")

-- `-f stderr` without `-n`.
abbrev stderr_daemon : Daemon
stderr_daemon = record initial_daemon { debug_f_path = some (codes "stderr") }

cwdaemon_debug_open_lem_example :
    Follows
      (λ t. FitsPlace true t.debug_f)
      (some 1)
      (cwdaemon_debug_open test_env true stderr_daemon)
unfolding cwdaemon_debug_open str_eq
cwdaemon_debug_open_lem_example = cwdaemon_debug_open_lem test_env true stderr_daemon (λ t p. refl)

esc_cwdevice_lem_example :
    Kept
      (IsRehooked (codes "ttyS1") started_daemon)
      (esc_cwdevice test_env (codes "ttyS1") started_daemon)
esc_cwdevice_lem_example =
    esc_cwdevice_lem test_env (codes "ttyS1") started_daemon
      (Running-IsIdle test_env-IsLibcw started_daemon is_Running)
