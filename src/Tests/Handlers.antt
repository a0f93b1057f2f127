-- ===== src/Tests/Handlers.antt =====
-- Runs of the handlers of requests and callbacks at concrete inputs.
use cwdaemon.Base.{◌≡◌, refl, true, false, none, [], ◌∷◌, ◌++◌, pos, arith, ◌⊎◌}
use cwdaemon.Device.{dev_ptt}
use cwdaemon.Device.Lines.{IsMoved, ttys_lines}
use cwdaemon.World.Calls.{ttys}
use cwdaemon.World.State.{Daemon, initial_daemon, no_ptt}
use cwdaemon.World.Run.{ret}
use cwdaemon.Reply.{datagram}
use cwdaemon.Utils.CString.{codes}
use cwdaemon.World.Keeps.{Returns}
use cwdaemon.Play.{cwdaemon_play_request}
use cwdaemon.Play.Caret.{IsDue, caret-prepares_reply}
use cwdaemon.Callback.{cwdaemon_keyingevent, cwdaemon_tone_queue_low_callback}
use cwdaemon.Callback.Echo.{sent, IsReplied, tone_queue_low-reply}
use cwdaemon.Escape.{esc_abort, esc_reset}
use cwdaemon.Escape.Abort.{IsAborted, esc_abort_lem}
use cwdaemon.Escape.Restore.{IsRestored, esc_reset-IsRestored}
use cwdaemon.Reply.{crlf}
use cwdaemon.Ptt.{is_auto_only, ptt_manual_off}
use cwdaemon.Ptt.Release.{IsOff, tone_queue_low-quiet, ptt_manual_off-clears}
use cwdaemon.Request.{cwdaemon_receive}
use cwdaemon.Request.EchoTrip.{echo_trip}
use cwdaemon.Tests.{test_env, test_env-IsCalm}

-- A daemon with "cq^x" queued, that the client 7 has asked.
abbrev caret_daemon : Daemon
caret_daemon = record initial_daemon { request_addr = 7; request_queue = codes "cq^x" }

caret-prepares_reply_example :
    Returns
      (λ t. IsDue 7 (codes "cq") t × (t.request_queue ≡ []))
      (cwdaemon_play_request test_env caret_daemon)
caret-prepares_reply_example =
    caret-prepares_reply test_env (codes "cq") (codes "x") caret_daemon test_env-IsCalm
      (refl, (refl, tt)) (ground arith) refl

-- The same daemon with the reply "cq" due to the client 7.
abbrev due_daemon : Daemon
due_daemon = record initial_daemon {
  reply_addr = 7;
  reply_buffer = codes "cq";
  ptt_flag = record no_ptt { auto = true; echo = true };
}

tone_queue_low-reply_example :
    Returns (IsReplied due_daemon) (cwdaemon_tone_queue_low_callback test_env due_daemon)
tone_queue_low-reply_example = tone_queue_low-reply test_env due_daemon refl (ground arith)

esc_abort_lem_example :
    (due_daemon.wordmode ≡ true → esc_abort test_env due_daemon ≡ ret tt due_daemon)
    × (due_daemon.wordmode ≡ false → Returns (IsAborted due_daemon) (esc_abort test_env due_daemon))
esc_abort_lem_example = esc_abort_lem test_env due_daemon (λ t c. refl)

esc_reset-IsRestored_example :
    Returns (IsRestored due_daemon.defaults) (esc_reset test_env due_daemon)
esc_reset-IsRestored_example = esc_reset-IsRestored test_env due_daemon (λ t c. refl)

echo_trip_example :
    Returns
      (λ t.
        Returns
          (λ u. sent u.trace ≡ (9, codes "cq" ++ crlf) ∷ sent initial_daemon.trace)
          (cwdaemon_tone_queue_low_callback test_env t))
      (cwdaemon_receive test_env (datagram 9 (codes "cq" ++ b'^' ∷ [])) initial_daemon)
echo_trip_example =
    echo_trip test_env 9 (codes "cq") initial_daemon test_env-IsCalm (refl, (refl, tt))
      (ground arith) refl

abbrev auto_daemon : Daemon
auto_daemon = record initial_daemon { ptt_flag = record no_ptt { auto = true } }

tone_queue_low-quiet_example :
    Returns
      (λ t.
        (sent t.trace ≡ [])
        × (t.current ≡ auto_daemon.current)
        × ((t.ptt_flag ≡ auto_daemon.ptt_flag)
            ⊎ ((t.ptt_flag ≡ no_ptt)
                × (is_auto_only auto_daemon.ptt_flag ≡ true)
                × (auto_daemon.request_queue ≡ []))))
      (cwdaemon_tone_queue_low_callback test_env auto_daemon)
tone_queue_low-quiet_example = tone_queue_low-quiet test_env auto_daemon (λ t c. refl) refl

-- Manual PTT is on while a reply is due.
abbrev manual_daemon : Daemon
manual_daemon = record due_daemon { ptt_flag = record no_ptt { manual = true; echo = true } }

ptt_manual_off-clears_example :
    Returns (IsOff manual_daemon) (ptt_manual_off test_env manual_daemon)
ptt_manual_off-clears_example =
    ptt_manual_off-clears test_env manual_daemon (λ t c. refl) refl refl refl

-- DTR keys and RTS switches the PTT.
abbrev tty_daemon : Daemon
tty_daemon = record initial_daemon {
  cwdevice_ttys = record { fd = pos 3; desc = none; key_pin = 2; ptt_pin = 4 };
}

ttys_lines_example :
    Returns (IsMoved 2 true 4 tty_daemon) (cwdaemon_keyingevent test_env ttys 1 tty_daemon)
    × Returns (IsMoved 4 true 2 tty_daemon) (dev_ptt test_env ttys true tty_daemon)
ttys_lines_example =
    ttys_lines test_env tty_daemon 1 true (λ t c. refl) (λ h. ground arith) (λ h. ground arith)
      (λ h. ground arith)
