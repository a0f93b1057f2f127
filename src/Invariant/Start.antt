-- ===== src/Invariant/Start.antt =====
-- The command line and the start of the daemon establish the invariant.
use cwdaemon.Base.{
  ◌≡◌, not, ◌==◌, Option, none, some, Bool-cases, inl, inr, ℕ, Bool, true, false, List, [], ◌∷◌,
  arith, if◌then◌else◌,
}
use cwdaemon.World.Calls.{Env, IsLibcw}
use cwdaemon.World.State.{Daemon, Stream, initial_daemon}
use cwdaemon.World.Run.{◌>>=◌, ◌>>◌, gets, skip, stop, when, run}
use cwdaemon.World.Keeps.{
  Kept, Keeps-gets, Leads, Keeps, Leads->>=, Leads->>, Leads-first, Keeps->>, Keeps-skip,
  Keeps-stop, Keeps-modify,
}
use cwdaemon.Device.Ttys.{tty_init_cwdevice, set_ttys}
use cwdaemon.Device.{cwdaemon_cwdevices_init, cwdaemon_cwdevice_init}
use cwdaemon.Log.Open.{set_debug_f, clashes, debug_open_at, cwdaemon_debug_open}
use cwdaemon.Background.{or_exit, replace_streams, detach, go_to_background}
use cwdaemon.Main.{set_libcw_debugging, cwdaemon_initialize_socket, set_priority, start}
use cwdaemon.Sound.{cwdaemon_reset_almost_all}
use cwdaemon.Play.{set_queue}
use cwdaemon.Invariant.Reset.{known-IsSound, forget, cwdaemon_reset_almost_all-SoundAt}
use cwdaemon.Args.{
  Arg, long, short, cwdaemon_args_process_short, process_long_name, cwdaemon_args_process_long,
  cwdaemon_args_parse,
}
use cwdaemon.Invariant.{IsIdle}
use cwdaemon.Invariant.Rules.{sound_rules, queue-IsSound}
use cwdaemon.Invariant.Options.{
  IsStarting, params_options-IsStarting, cwdevice-IsStarting, nofork-IsStarting, speed-IsStarting,
  volume-IsStarting, tone-IsStarting, weighting-IsStarting, delay-IsStarting, system-IsStarting,
  threshold-IsStarting, inc-IsStarting, debugfile-IsStarting, port-IsStarting, priority-IsStarting,
  flags-IsStarting,
}

module _ {e : Env} where
  short-IsStarting : (c : ℕ) (t : List ℕ) → Keeps (IsStarting e) (cwdaemon_args_process_short e c t)
  unfolding cwdaemon_args_process_short
  short-IsStarting c t =
      search
        (
          sound_rules, cwdevice-IsStarting, nofork-IsStarting, port-IsStarting, priority-IsStarting,
          speed-IsStarting, delay-IsStarting, volume-IsStarting, weighting-IsStarting,
          tone-IsStarting, inc-IsStarting, threshold-IsStarting, flags-IsStarting,
          debugfile-IsStarting, system-IsStarting, params_options-IsStarting,
        )
        depth 24

  long-IsStarting : (n t : List ℕ) → Keeps (IsStarting e) (process_long_name e n t)
  unfolding process_long_name
  long-IsStarting n t =
      search
        (
          sound_rules, cwdevice-IsStarting, nofork-IsStarting, priority-IsStarting,
          speed-IsStarting, delay-IsStarting, volume-IsStarting, weighting-IsStarting,
          tone-IsStarting, debugfile-IsStarting, system-IsStarting,
        )
        depth 18

  args-IsStarting :
      (args : List Arg) (left : Bool)
      → Keeps (IsStarting e) (cwdaemon_args_process_long e args left)
  unfolding cwdaemon_args_process_long
  args-IsStarting [] true = Keeps-stop 1
  args-IsStarting [] false = Keeps-skip
  args-IsStarting (long n t ∷ args) left =
      Keeps->> _ _ (long-IsStarting n t) (args-IsStarting args left)
  args-IsStarting (short c t ∷ args) left =
      Keeps->> _ _ (short-IsStarting c t) (args-IsStarting args left)

  pub cwdaemon_args_parse-IsStarting :
      (args : List Arg) (left : Bool) → Keeps (IsStarting e) (cwdaemon_args_parse e args left)
  unfolding cwdaemon_args_parse
  cwdaemon_args_parse-IsStarting args left = search (sound_rules, args-IsStarting)

module _ {e : Env} (l : IsLibcw e) where
  pub initial-IsStarting : IsStarting e initial_daemon
  initial-IsStarting = ground arith

  devices_init-IsStarting : Keeps (IsStarting e) cwdaemon_cwdevices_init
  unfolding cwdaemon_cwdevices_init tty_init_cwdevice set_ttys run
  devices_init-IsStarting = record { at = λ s i. ground arith }

  device_init-IsStarting : Keeps (IsStarting e) cwdaemon_cwdevice_init
  unfolding cwdaemon_cwdevice_init
  device_init-IsStarting = Keeps-modify _ (λ s i. ground arith)

  socket-IsStarting : Keeps (IsStarting e) (cwdaemon_initialize_socket e)
  unfolding cwdaemon_initialize_socket run
  socket-IsStarting = record { at = λ s i. ground arith }

  debug_f-IsStarting : (f : Option Stream) → Keeps (IsStarting e) (set_debug_f f)
  unfolding set_debug_f
  debug_f-IsStarting f = Keeps-modify _ (λ s i. ground arith)

  open_at-IsStarting :
      (forking : Bool) (path : Option (List ℕ)) (s : Daemon)
      → clashes e forking path ≡ false
      → IsStarting e s
      → Kept (IsStarting e) (debug_open_at e forking path s)
  unfolding debug_open_at run
  open_at-IsStarting true none s h i = ground arith
  open_at-IsStarting false none s h i = ground arith
  open_at-IsStarting true (some path) s h i = ground arith
  open_at-IsStarting false (some path) s h i = ground arith

  debug_open-IsStarting : (forking : Bool) → Keeps (IsStarting e) (cwdaemon_debug_open e forking)
  unfolding cwdaemon_debug_open run
  debug_open-IsStarting forking = record {
    at = λ s i. elim (Bool-cases (clashes e forking s.debug_f_path)) [
      | inl h ↦ rw h tt
      | inr h ↦ rw h (open_at-IsStarting forking s.debug_f_path s h i)
    ];
  }

  detach-IsStarting : Keeps (IsStarting e) (detach e)
  unfolding detach or_exit replace_streams
  detach-IsStarting = search sound_rules depth 24

  background-IsStarting : (forking : Bool) → Keeps (IsStarting e) (go_to_background e forking)
  unfolding go_to_background or_exit
  background-IsStarting true = search (sound_rules, detach-IsStarting)
  background-IsStarting false = search sound_rules

  priority-IsSound : Keeps (IsStarting e) (set_priority e)
  unfolding set_priority
  priority-IsSound = search sound_rules depth 9

  hooked : (s : Daemon) → IsStarting e s → IsIdle e s
  hooked s i = ground arith

  if-IsIdle : (b : Bool) → Keeps (IsIdle e) (if b then skip else stop 1)
  if-IsIdle b = search sound_rules

  libcw_debugging-IsIdle :
      (flags threshold : ℕ)
      → Keeps (IsIdle e) (when (not (flags == 0)) (set_libcw_debugging e threshold flags))
  unfolding set_libcw_debugging
  libcw_debugging-IsIdle flags threshold = search sound_rules

  finish-IsIdle : Keeps (IsIdle e) (
      gets (λ s. s.global_cwdevice) >>= λ dev. cwdaemon_reset_almost_all e dev >>= λ ready.
      (if ready then skip else stop 1)
      >> (gets (λ s. s.libcw_debug_flags) >>= λ flags.
          gets (λ s. s.current.log_threshold) >>= λ threshold.
          when (not (flags == 0)) (set_libcw_debugging e threshold flags) >> set_queue []))
  finish-IsIdle = known-IsSound _ (λ k.
      Leads->>= _ _ _ _ _ (forget _ cwdaemon_reset_almost_all-SoundAt) (λ ready.
        Keeps->> _ _ (if-IsIdle ready)
          (search (sound_rules, libcw_debugging-IsIdle, queue-IsSound))))

  -- `main` up to its loop
  pub start-IsIdle :
      (args : List Arg) (left : Bool) → Leads (IsStarting e) (IsIdle e) (start e args left)
  unfolding start
  start-IsIdle args left = Leads->> _ _ _ _ _ (debug_f-IsStarting _) (
      Leads->> _ _ _ _ _ devices_init-IsStarting (
        Leads->> _ _ _ _ _ device_init-IsStarting (
          Leads->> _ _ _ _ _ (cwdaemon_args_parse-IsStarting args left) (
            Leads->>= _ _ _ _ _ (Keeps-gets _) (λ forking.
              Leads->> _ _ _ _ _ (debug_open-IsStarting forking) (
                Leads->> _ _ _ _ _ (background-IsStarting forking) (
                  Leads->>= _ _ _ _ _ socket-IsStarting (λ listening.
                    Leads->> _ _ _ _ _ (search sound_rules) (
                      Leads->> _ _ _ _ _ priority-IsSound
                        (Leads-first hooked finish-IsIdle))))))))))
