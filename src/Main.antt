-- ===== src/Main.antt =====
-- `main` of src/cwdaemon.c: the start of the daemon, as its child process runs it, and its main
-- loop.
pub mod Footswitch
use cwdaemon.Base.{
  ℕ, ◌+◌, ◌≡◌, Bool, false, not, ◌||◌, Option, none, some, List, [], ltb, ◌==◌, if◌then◌else◌, pos,
  eqb_ℤ, ltb_ℤ,
}
use cwdaemon.Params.{log_err, log_warning, log_notice, log_info, log_debug}
use cwdaemon.Log.Open.{set_debug_f, cwdaemon_debug_open}
use cwdaemon.Background.{go_to_background}
use cwdaemon.World.Calls.{
  DebugLevel, debug_none, debug_error, debug_warning, debug_info, debug_debug, cw_debug_set_flags,
  cw_debug_level, Env, Kind, socket, bind_socket, fcntl_getfl, fcntl_setfl, setpriority,
}
use cwdaemon.World.State.{Daemon, initial_daemon, stdout}
use cwdaemon.World.Run.{
  M, Void, ret, ◌>>=◌, ◌>>◌, pure, skip, gets, modify, stop, call, perform, when,
}
use cwdaemon.Device.{cwdaemon_cwdevices_init, cwdaemon_cwdevice_init, dev_ptt, dev_footswitch}
use cwdaemon.Device.Ttys.{failed}
use cwdaemon.Sound.{cwdaemon_reset_almost_all}
use cwdaemon.Play.{set_queue}
use cwdaemon.Reply.{Incoming}
use cwdaemon.Request.{cwdaemon_receive}
use cwdaemon.Callback.{cwdaemon_keyingevent, cwdaemon_tone_queue_low_callback}
use cwdaemon.Args.{Arg, cwdaemon_args_parse}

-- the level that libcw is given
unfoldable pub libcw_level : ℕ → DebugLevel
libcw_level log_threshold =
    if log_threshold == log_err
    then debug_error
    else if log_threshold == log_warning || log_threshold == log_notice
    then debug_warning
    else if log_threshold == log_info
    then debug_info
    else if log_threshold == log_debug
    then debug_debug
    else debug_none

module _ (e : Env) where
  -- `cwdaemon_initialize_socket` of src/socket.c; the address 0 is INADDR_ANY with the port
  unfoldable pub cwdaemon_initialize_socket : M Bool
  cwdaemon_initialize_socket = do
    modify (λ s. record s { request_addr = 0 })
    fd ← call e socket
    modify (λ s. record s { socket_descriptor = fd })
    if failed fd then pure false else (do
      bound ← call e bind_socket
      if failed bound then pure false else (do
        flags ← call e (fcntl_getfl fd)
        if failed flags
            then pure false
            else (do rc ← call e (fcntl_setfl fd); pure (not (failed rc)))))

  -- the process priority, if one was asked for
  unfoldable pub set_priority : Void
  set_priority = do
    priority ← gets (λ s. s.process_priority)
    when (not (eqb_ℤ priority (pos 0)))
        (do rc ← call e (setpriority priority); if ltb_ℤ rc (pos 0) then stop 1 else skip)

  -- `set_libcw_debugging`
  unfoldable pub set_libcw_debugging : ℕ → ℕ → Void
  set_libcw_debugging log_threshold flags = do
    perform (cw_debug_set_flags flags)
    perform (cw_debug_level (libcw_level log_threshold))

  -- from the entry of `main` to its loop
  unfoldable pub start : List Arg → Bool → Void
  unfolding cwdaemon_args_parse cwdaemon_initialize_socket set_priority cwdaemon_reset_almost_all
      cwdaemon_cwdevices_init cwdaemon_cwdevice_init cwdaemon_debug_open go_to_background
      set_libcw_debugging
  start args left = do
    set_debug_f (some stdout)
    cwdaemon_cwdevices_init
    cwdaemon_cwdevice_init
    cwdaemon_args_parse e args left
    forking ← gets (λ s. s.forking)
    cwdaemon_debug_open e forking
    go_to_background e forking
    listening ← cwdaemon_initialize_socket
    if listening then skip else stop 1
    set_priority
    dev ← gets (λ s. s.global_cwdevice)
    ready ← cwdaemon_reset_almost_all e dev
    if ready then skip else stop 1
    flags ← gets (λ s. s.libcw_debug_flags)
    threshold ← gets (λ s. s.current.log_threshold)
    when (not (flags == 0)) (set_libcw_debugging threshold flags)
    set_queue []

  -- the inactivity counter, which chooses the time that `select` waits
  unfoldable pub count_inactivity : Void
  count_inactivity = modify λ s. record s {
    inactivity_seconds =
        if ltb s.inactivity_seconds 30 then s.inactivity_seconds + 1 else s.inactivity_seconds;
  }

  -- the foot switch, on a device that has one
  unfoldable pub follow_footswitch : Option (M ℕ) → Kind → Void
  unfolding dev_ptt
  follow_footswitch none dev = skip
  follow_footswitch (some footswitch) dev = do state ← footswitch; dev_ptt e dev (state == 0)

  unfoldable pub receive_selected : Option Incoming → Void
  unfolding cwdaemon_receive
  receive_selected none = skip
  receive_selected (some incoming) = cwdaemon_receive e incoming >> skip

  -- One round of the loop. `select` either fails, other than by EINTR, or lets the socket be read.
  unfoldable pub main_round : Option Incoming → Void
  unfolding count_inactivity receive_selected follow_footswitch dev_footswitch
  main_round selected = do
    count_inactivity
    receive_selected selected
    dev ← gets (λ s. s.global_cwdevice)
    follow_footswitch (dev_footswitch e dev) dev

-- What happens to the running daemon: a round of its loop, or a callback from a thread of libcw.
-- The model runs one after another, in any order.
pub data Event : Type 0 where
  round : Option Incoming → Event
  tone_queue_low : Event
  -- libcw's key changed its state; the device is the registered one
  keying : Kind → ℕ → Event

unfoldable pub react : Env → Event → Void
unfolding main_round cwdaemon_tone_queue_low_callback cwdaemon_keyingevent
react e (round selected) = main_round e selected
react e tone_queue_low = cwdaemon_tone_queue_low_callback e
react e (keying dev state) = cwdaemon_keyingevent e dev state

-- A running daemon, from its start with some command line through some events.
pub data Running (e : Env) : Daemon → Type 0 where
  started :
      (args : List Arg) (left : Bool) (s : Daemon)
      → start e args left initial_daemon ≡ ret tt s
      → Running e s
  later : (s t : Daemon) (ev : Event) → Running e s → react e ev s ≡ ret tt t → Running e t
