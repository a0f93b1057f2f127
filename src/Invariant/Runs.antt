-- ===== src/Invariant/Runs.antt =====
-- The invariant of every daemon that runs: from any command line, through any events in any order.
use cwdaemon.Base.{
  ◌≡◌, Bool, true, Option, none, some, List, [], ◌≢◌, ◌⊎◌, arith, length, ◌+◌, ◌<◌, InRange,
}
use cwdaemon.World.Calls.{Env, IsLibcw, Kind, lp}
use cwdaemon.World.State.{Daemon, initial_daemon}
use cwdaemon.World.Run.{Outcome, ret, fault}
use cwdaemon.World.Keeps.{Keeps, Kept, Keeps->>, Keeps->>=, Keeps-skip, Keeps-gets, Keeps-modify}
use cwdaemon.Device.{dev_footswitch}
use cwdaemon.Reply.{Incoming}
use cwdaemon.Args.{Arg}
use cwdaemon.Main.{
  start, count_inactivity, follow_footswitch, receive_selected, main_round, Event, round,
  tone_queue_low, keying, react, Running, started, later,
}
use cwdaemon.Invariant.{AreInRange, IsIdle, keying_target}
use cwdaemon.Invariant.Devices.{dev_ptt-IsSound, lp_footswitch-IsSound}
use cwdaemon.Invariant.Receive.{cwdaemon_receive-IsIdle}
use cwdaemon.Invariant.Callbacks.{
  cwdaemon_keyingevent-IsSound, cwdaemon_tone_queue_low_callback-IsSound,
}
use cwdaemon.Invariant.Start.{start-IsIdle, initial-IsStarting}

module _ {e : Env} (l : IsLibcw e) where
  count-IsIdle : Keeps (IsIdle e) (count_inactivity e)
  unfolding count_inactivity
  count-IsIdle = Keeps-modify _ (λ s i. ground arith)

  receive-IsIdle : (selected : Option Incoming) → Keeps (IsIdle e) (receive_selected e selected)
  unfolding receive_selected
  receive-IsIdle none = Keeps-skip
  receive-IsIdle (some incoming) = Keeps->> _ _ (cwdaemon_receive-IsIdle l incoming) Keeps-skip

  footswitch-IsIdle :
      (k dev : Kind) → Keeps (IsIdle e) (follow_footswitch e (dev_footswitch e k) dev)
  unfolding follow_footswitch dev_footswitch
  footswitch-IsIdle lp dev = Keeps->>= _ _ lp_footswitch-IsSound (λ state. dev_ptt-IsSound dev _)
  footswitch-IsIdle _ dev = Keeps-skip

  main_round-IsIdle : (selected : Option Incoming) → Keeps (IsIdle e) (main_round e selected)
  unfolding main_round
  main_round-IsIdle selected = Keeps->> _ _ count-IsIdle (
      Keeps->> _ _ (receive-IsIdle selected)
        (Keeps->>= _ _ (Keeps-gets _) (λ dev. footswitch-IsIdle dev dev)))

  -- Every event keeps the invariant and does not fault.
  pub react-IsIdle : (ev : Event) → Keeps (IsIdle e) (react e ev)
  unfolding react
  react-IsIdle (round selected) = main_round-IsIdle selected
  react-IsIdle tone_queue_low = cwdaemon_tone_queue_low_callback-IsSound
  react-IsIdle (keying k state) = cwdaemon_keyingevent-IsSound k state

  returned :
      {A : Type 0} (P : Daemon → Type 0) (o : Outcome A) (a : A) (s : Daemon)
      → Kept P o
      → o ≡ ret a s
      → P s
  returned P o a s h q = rw q at h

  -- Every daemon that runs, from whatever command line and through whatever events, keeps the
  -- invariant.
  pub Running-IsIdle : (s : Daemon) → Running e s → IsIdle e s
  Running-IsIdle s (started args left t h) =
      returned (IsIdle e) _ tt s
        ((start-IsIdle l args left).at initial_daemon (initial-IsStarting l)) h
  Running-IsIdle s (later t u ev r h) =
      returned (IsIdle e) _ tt s ((react-IsIdle ev).at t (Running-IsIdle t r)) h

  faultless :
      {A : Type 0} (P : Daemon → Type 0) (o : Outcome A) (t : Daemon) → Kept P o → o ≢ fault t
  faultless P o t h q = rw q at h

  -- With libcw's limits: whatever happens next to a daemon that runs, be it a datagram of any
  -- bytes, a change of libcw's key or a low tone queue, no write leaves its buffer and no `assert`
  -- fails.
  pub react-ne-fault : (s t : Daemon) (ev : Event) → Running e s → react e ev s ≢ fault t
  react-ne-fault s t ev r =
      faultless (IsIdle e) (react e ev s) t ((react-IsIdle ev).at s (Running-IsIdle s r))

  -- With libcw's limits, the start of the daemon from any command line does not fault.
  pub start-ne-fault :
      (args : List Arg) (left : Bool) (t : Daemon) → start e args left initial_daemon ≢ fault t
  start-ne-fault args left t =
      faultless (IsIdle e) (start e args left initial_daemon) t
        ((start-IsIdle l args left).at initial_daemon (initial-IsStarting l))

  -- With libcw's limits: in every daemon that runs the current values of the speed, the tone, the
  -- volume, the weighting and the PTT delay are within their limits, and so are the default ones.
  pub Running-InRange :
      (s : Daemon)
      → Running e s
      → AreInRange e s.current
        × AreInRange e s.defaults
        × InRange e.speed_min e.speed_max s.current.morse_speed
        × InRange e.speed_min e.speed_max s.defaults.morse_speed
  Running-InRange s r = let i = Running-IsIdle s r in ground arith

  -- With libcw's limits: in every daemon that runs the keying callback is registered with the
  -- current keying device, or is not registered.
  pub Running-keying_target :
      (s : Daemon)
      → Running e s
      → (keying_target s.trace ≡ none) ⊎ (keying_target s.trace ≡ some s.global_cwdevice)
  Running-keying_target s r = let i = Running-IsIdle s r in ground arith

  -- With libcw's limits: in every daemon that runs no text is left queued, the reply and its NUL
  -- fit the buffer of 258 bytes, and a reply that is due leaves room for a CR and an LF more.
  pub Running-buffers :
      (s : Daemon)
      → Running e s
      → (s.request_queue ≡ [])
        × (length s.reply_buffer < 258)
        × (s.ptt_flag.echo ≡ true → length s.reply_buffer + 2 < 258)
  Running-buffers s r = let i = Running-IsIdle s r in ground arith
