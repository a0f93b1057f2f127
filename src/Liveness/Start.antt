-- ===== src/Liveness/Start.antt =====
-- The start of the daemon: `main` of src/cwdaemon.c from the command line to its loop.
use cwdaemon.Base.{
  ◌≡◌, Bool, true, false, not, some, List, [], ◌∷◌, ℤ, pos, arith, eqb_ℤ, ltb_ℤ, if◌then◌else◌,
  ◌==◌,
}
use cwdaemon.World.Calls.{
  Env, Call, CallsSucceed, IsLibcw, AudioSystem, Kind, cw_generator_new, cw_generator_start, fork,
  socket, bind_socket, fcntl_getfl, fcntl_setfl, setpriority,
}
use cwdaemon.World.State.{Daemon, initial_daemon, stdout}
use cwdaemon.World.Run.{
  Outcome, ret, exit, fault, M, Void, ◌>>=◌, ◌>>◌, gets, call, run, skip, stop, when, modify,
}
use cwdaemon.World.Keeps.{Returns}
use cwdaemon.World.Stays.{
  Stays, HasNoExit, HasNoExit->>=, stays_rules, Stays-answered, Stays-skip, Kept-HasNoExit,
  Stays->>, Stays->>=, Stays-perform, Stays-gets, Stays-when,
}
use cwdaemon.Device.Ttys.{failed}
use cwdaemon.World.Ends.{ends_rules, Ends-modify, Ends-gets}
use cwdaemon.Sound.{
  cwdaemon_reset_libcw_output, cwdaemon_close_libcw_output, configure_libcw, set_audio_output,
  cwdaemon_open_libcw_output, cwdaemon_reset_almost_all,
}
use cwdaemon.Background.{or_exit, replace_streams, detach, go_to_background}
use cwdaemon.Play.{set_queue}
use cwdaemon.Args.{Arg, cwdaemon_args_parse}
use cwdaemon.Device.{cwdaemon_cwdevices_init, cwdaemon_cwdevice_init}
use cwdaemon.Device.Ttys.{set_ttys, tty_init_cwdevice}
use cwdaemon.Log.Open.{
  set_debug_f, clashes, FilesOpen, cwdaemon_debug_open, cwdaemon_debug_open_lem,
}
use cwdaemon.Invariant.{IsIdle}
use cwdaemon.Invariant.Start.{start-IsIdle, initial-IsStarting}
use cwdaemon.Main.{cwdaemon_initialize_socket, set_priority, set_libcw_debugging, start}
use cwdaemon.Liveness.Devices.{answered}
use cwdaemon.World.Succeeds.{
  Succeeds, Succeeds-pure, Succeeds->>=, Succeeds->>, Succeeds-true, Stays-true,
}

-- A sound system opens at the first try.
abbrev pub SoundOpens : Env → Type 0
SoundOpens e =
    (t : List Call)
    → ((a : AudioSystem) → eqb_ℤ (e.returns t (cw_generator_new a)) (pos 0) ≡ false)
      × (eqb_ℤ (e.returns t cw_generator_start) (pos 0) ≡ false)

-- The process that is followed is the child.
abbrev pub IsChild : Env → Type 0
IsChild e = (t : List Call) → e.returns t fork ≡ pos 0

module _ (e : Env) (w : CallsSucceed e) where
  guarded-Stays :
      {A : Type 0} (c : Call) (bad : ℤ → Bool) (m : ℤ → M A)
      → ((rc : ℤ) → ltb_ℤ rc (pos 0) ≡ false → bad rc ≡ false)
      → ((rc : ℤ) → Stays (m rc))
      → Stays (call e c >>= λ rc. or_exit e (bad rc) >> m rc)
  unfolding or_exit
  guarded-Stays c bad m good h =
      Stays-answered e c (λ rc. or_exit e (bad rc) >> m rc) w
        (λ rc k. rw (good rc k) (Stays->> _ _ Stays-skip (h rc)))

  replace_streams-Stays : (fd : ℤ) → Stays (replace_streams e fd)
  unfolding replace_streams
  replace_streams-Stays fd = guarded-Stays _ failed _ answered (λ _.
      guarded-Stays _ failed _ answered
        (λ _. guarded-Stays _ failed _ answered (λ _. search stays_rules)))

  detach-Stays : Stays (detach e)
  unfolding detach
  detach-Stays = Stays->> _ _ (Stays-perform _) (
      guarded-Stays _ (λ rc. ltb_ℤ rc (pos 0)) _ (λ rc k. k)
        (λ _.
          guarded-Stays _ (λ rc. ltb_ℤ rc (pos 0)) _ (λ rc k. k)
            (λ _.
              Stays->> _ _ (Stays-perform _)
                (guarded-Stays _ failed _ answered (λ fd. replace_streams-Stays fd)))))

  go_to_background-Stays : IsChild e → (forking : Bool) → Stays (go_to_background e forking)
  unfolding go_to_background or_exit call ◌>>=◌
  go_to_background-Stays child true = record {
    at = λ s.
        let child_here = child s.trace in
        rw child_here
          ((Stays->> _ _ Stays-skip detach-Stays).at (record s { trace = fork ∷ s.trace }));
  }
  go_to_background-Stays child false = Stays-perform _

  socket-Succeeds : Succeeds (cwdaemon_initialize_socket e)
  unfolding cwdaemon_initialize_socket run
  socket-Succeeds = record {
    at = λ s.
        let fd : ℤ = e.returns s.trace socket in
        let t : List Call = socket ∷ s.trace in
        let opened = answered fd (w s.trace socket) in
        let bound = answered (e.returns t bind_socket) (w t bind_socket) in
        let read =
          answered (e.returns (bind_socket ∷ t) (fcntl_getfl fd))
            (w (bind_socket ∷ t) (fcntl_getfl fd)) in
        let written =
          answered (e.returns (fcntl_getfl fd ∷ bind_socket ∷ t) (fcntl_setfl fd))
            (w (fcntl_getfl fd ∷ bind_socket ∷ t) (fcntl_setfl fd)) in
        rw (opened, bound, read, written) tt;
  }

  set_priority-Stays : Stays (set_priority e)
  unfolding set_priority
  set_priority-Stays = Stays->>= _ _ (Stays-gets _) (λ priority.
      Stays-when _ _ (Stays-answered e (setpriority priority) _ w (λ rc k. rw k Stays-skip)))

module _ (e : Env) (sound : SoundOpens e) where
  pub open-Succeeds : (a : AudioSystem) → Succeeds (cwdaemon_open_libcw_output e a)
  unfolding cwdaemon_open_libcw_output run
  open-Succeeds a = record {
    at = λ s.
        let first = (sound s.trace).0 a in
        let started = (sound (cw_generator_new a ∷ s.trace)).1 in ground arith;
  }

  reset_output-Succeeds : Succeeds (cwdaemon_reset_libcw_output e)
  unfolding cwdaemon_reset_libcw_output cwdaemon_close_libcw_output configure_libcw
  reset_output-Succeeds = Succeeds->> _ _ (search ends_rules) (
      Succeeds->>= _ _ (Ends-gets _) (λ defaults.
        Succeeds-true _ _ (open-Succeeds _)
          (Succeeds->> _ _ (search ends_rules depth 9) Succeeds-pure)))

  reset-Succeeds : (k : Kind) → Succeeds (cwdaemon_reset_almost_all e k)
  unfolding cwdaemon_reset_almost_all set_audio_output
  reset-Succeeds k = Succeeds->> _ _ (Ends-modify _) (
      Succeeds-true _ _ (reset_output-Succeeds)
        (Succeeds->> _ _ (search ends_rules) (Succeeds->> _ _ (search ends_rules) Succeeds-pure)))

-- What `main` does behind the opening of the debug output, and behind the command line.
abbrev behind_output : Env → Bool → Void
behind_output e forking = do
  go_to_background e forking
  listening ← cwdaemon_initialize_socket e
  if listening then skip else stop 1
  set_priority e
  dev ← gets (λ s. s.global_cwdevice)
  ready ← cwdaemon_reset_almost_all e dev
  if ready then skip else stop 1
  flags ← gets (λ s. s.libcw_debug_flags)
  threshold ← gets (λ s. s.current.log_threshold)
  when (not (flags == 0)) (set_libcw_debugging e threshold flags)
  set_queue []

abbrev behind_arguments : Env → Void
behind_arguments e = do
  forking ← gets (λ s. s.forking)
  cwdaemon_debug_open e forking
  behind_output e forking

-- The run of `main` up to the end of the command line.
abbrev pub configured : Env → List Arg → Bool → Outcome (Unit {0})
configured e args left =
    (set_debug_f (some stdout)
        >> (cwdaemon_cwdevices_init >> (cwdaemon_cwdevice_init >> cwdaemon_args_parse e args left)))
      initial_daemon

module _ (e : Env) (w : CallsSucceed e) (sound : SoundOpens e) (child : IsChild e) where
  behind_output-Stays : (forking : Bool) → Stays (behind_output e forking)
  unfolding set_libcw_debugging set_queue
  behind_output-Stays forking = Stays->> _ _ (go_to_background-Stays e w child forking) (
      Stays-true _ _ (socket-Succeeds e w) (
        Stays->> _ _ Stays-skip (
          Stays->> _ _ (set_priority-Stays e w) (
            Stays->>= _ _ (Stays-gets _) (λ dev.
              Stays-true _ _ (reset-Succeeds e sound dev)
                (Stays->> _ _ Stays-skip (search stays_rules depth 10)))))))

  Returns-HasNoExit : (P : Daemon → Type 0) (o : Outcome (Unit {0})) → Returns P o → HasNoExit o
  Returns-HasNoExit P (ret a t) h = tt
  Returns-HasNoExit P (exit n t) h = h
  Returns-HasNoExit P (fault t) h = tt

  behind_arguments-HasNoExit :
      (t : Daemon)
      → FilesOpen e
      → clashes e t.forking t.debug_f_path ≡ false
      → HasNoExit (behind_arguments e t)
  unfolding ◌>>=◌ ◌>>◌ gets
  behind_arguments-HasNoExit t files h =
      HasNoExit->>= (cwdaemon_debug_open e t.forking t) (λ _. behind_output e t.forking)
        (Returns-HasNoExit _ (cwdaemon_debug_open e t.forking t)
          (rw h at (cwdaemon_debug_open_lem e t.forking t files)))
        (λ _. behind_output-Stays t.forking)

HasNoExit-ret :
    (o : Outcome (Unit {0})) (f : Unit {0} → Void) (t : Daemon)
    → o ≡ ret tt t
    → HasNoExit (f tt t)
    → HasNoExit (elim o [ ret a u ↦ f a u | exit n u ↦ exit n u | fault u ↦ fault u ])
HasNoExit-ret o f t q h = rw q h

-- With libcw's limits: from a command line that is accepted, and that does not ask for messages on
-- the terminal of a daemon in the background, the daemon reaches its main loop, in its invariant.
-- No call returns a negative number, the sound system opens at the first try, no file is refused,
-- and the process that is followed is the child.
pub start-Returns :
    (e : Env) (args : List Arg) (left : Bool) (t : Daemon)
    → IsLibcw e
    → CallsSucceed e
    → SoundOpens e
    → IsChild e
    → FilesOpen e
    → configured e args left ≡ ret tt t
    → clashes e t.forking t.debug_f_path ≡ false
    → Returns (IsIdle e) (start e args left initial_daemon)
unfolding start ◌>>=◌ ◌>>◌ set_debug_f modify cwdaemon_cwdevices_init cwdaemon_cwdevice_init
    tty_init_cwdevice set_ttys
start-Returns e args left t l w sound child files q h =
    Kept-HasNoExit (IsIdle e) (start e args left initial_daemon)
      ((start-IsIdle l args left).at initial_daemon (initial-IsStarting l))
      (HasNoExit-ret (configured e args left) (λ _. behind_arguments e) t q
        (behind_arguments-HasNoExit e w sound child t files h))
