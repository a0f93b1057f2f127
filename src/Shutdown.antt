-- ===== src/Shutdown.antt =====
-- The end of the daemon: `cwdaemon_close_socket` of src/socket.c, and what src/cwdaemon.c does at
-- `exit`, by its handlers, the last registered first.
pub mod Closed
pub mod Release
use cwdaemon.Base.{ℕ, Bool, not, Option, none, some, ℤ, negsuc, if◌then◌else◌}
use cwdaemon.World.Calls.{Env, close}
use cwdaemon.World.State.{Daemon}
use cwdaemon.World.Run.{
  Outcome, ret, exit, fault, Void, ◌>>=◌, ◌>>◌, skip, stop, gets, modify, call, when,
}
use cwdaemon.Device.Ttys.{failed}
use cwdaemon.Device.{cwdaemon_cwdevice_free, cwdaemon_cwdevices_free}
use cwdaemon.Sound.{cwdaemon_close_libcw_output}
use cwdaemon.Log.Open.{cwdaemon_debug_close}

-- `cwdaemon_catch_sigint`
unfoldable pub cwdaemon_catch_sigint : Void
cwdaemon_catch_sigint = stop 0

module _ (e : Env) where
  unfoldable pub cwdaemon_close_socket : Void
  cwdaemon_close_socket = do
    fd ← gets (λ s. s.socket_descriptor)
    when (not (failed fd)) (do
      rc ← call e (close fd)
      if failed rc then stop 1 else skip
      modify (λ s. record s { socket_descriptor = negsuc 0 }))

  -- the handlers that `main` has registered when its loop begins
  unfoldable pub exit_handlers : Void
  unfolding cwdaemon_close_libcw_output cwdaemon_close_socket cwdaemon_debug_close
      cwdaemon_cwdevice_free cwdaemon_cwdevices_free
  exit_handlers = do
    cwdaemon_close_libcw_output
    cwdaemon_close_socket
    cwdaemon_debug_close
    cwdaemon_cwdevice_free e
    cwdaemon_cwdevices_free

-- What becomes of a run that exits.
unfoldable pub at_exit : {A : Type 0} → Void → Outcome A → Outcome (Unit {0})
at_exit handlers (exit n s) = handlers s
at_exit handlers (ret a s) = ret tt s
at_exit handlers (fault s) = fault s
