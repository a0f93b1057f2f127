-- ===== src/Background.antt =====
-- `main` of src/cwdaemon.c: how the process goes to the background, or says that it stays in the
-- foreground.
use cwdaemon.Base.{Bool, true, false, ◌||◌, ℤ, pos, ltb_ℤ, eqb_ℤ, if◌then◌else◌}
use cwdaemon.Utils.CString.{codes}
use cwdaemon.World.Calls.{
  Env, fork, setsid, umask, openlog, chdir, dup2, open_file, close, signal_sigint,
}
use cwdaemon.World.Run.{Void, ◌>>=◌, ◌>>◌, skip, stop, call, perform}
use cwdaemon.Device.Ttys.{failed}

module _ (e : Env) where
  -- `if (… < 0) exit(EXIT_FAILURE)`
  unfoldable pub or_exit : Bool → Void
  or_exit refused = if refused then stop 1 else skip

  -- Replace stdin, stdout and stderr by `fd`.
  unfoldable pub replace_streams : ℤ → Void
  unfolding or_exit
  replace_streams fd = do
    input ← call e (dup2 fd 0)
    or_exit (failed input)
    output ← call e (dup2 fd 1)
    or_exit (failed output)
    errors ← call e (dup2 fd 2)
    or_exit (failed errors)
    if eqb_ℤ fd (pos 0) || eqb_ℤ fd (pos 1) || eqb_ℤ fd (pos 2) then skip else perform (close fd)

  -- what the child does
  unfoldable pub detach : Void
  unfolding or_exit replace_streams
  detach = do
    perform openlog
    sid ← call e setsid
    or_exit (ltb_ℤ sid (pos 0))
    changed ← call e (chdir (codes "/"))
    or_exit (ltb_ℤ changed (pos 0))
    perform umask
    fd ← call e (open_file (codes "/dev/null") false)
    or_exit (failed fd)
    replace_streams fd

  -- the `if (g_forking)`; the parent exits with 0
  unfoldable pub go_to_background : Bool → Void
  unfolding or_exit detach
  go_to_background true = do
    pid ← call e fork
    or_exit (ltb_ℤ pid (pos 0))
    if ltb_ℤ (pos 0) pid then stop 0 else detach
  go_to_background false = perform signal_sigint
