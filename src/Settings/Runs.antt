-- ===== src/Settings/Runs.antt =====
-- libcw has the values of every daemon that runs.
use cwdaemon.Base.{◌≡◌, Bool, true, Option, none, some, List}
use cwdaemon.World.Calls.{Env}
use cwdaemon.World.State.{Daemon, initial_daemon}
use cwdaemon.World.Yields.{
  Takes, Holds, Yields-ret, Takes->>=, Holds-skip, Holds->>, after->>, after->>=,
}
use cwdaemon.Args.{Arg}
use cwdaemon.Play.{set_queue}
use cwdaemon.Reply.{Incoming}
use cwdaemon.Main.{
  set_libcw_debugging, start, receive_selected, main_round, Event, round, tone_queue_low, keying,
  react, Running, started, later,
}
use cwdaemon.Frame.Handlers.{footswitch-Keeps, keyingevent-Keeps}
use cwdaemon.Settings.{IsTold, Agrees}
use cwdaemon.Settings.Requests.{agrees_rules, reset_all-Agrees}
use cwdaemon.Settings.Playing.{receive-Agrees, callback-Agrees}

module _ (e : Env) where
  start-Agrees : (args : List Arg) (left : Bool) → Takes (λ _. Unit) Agrees (start e args left)
  unfolding start set_libcw_debugging set_queue
  start-Agrees args left = after->> _ _ (
      after->> _ _ (
        after->> _ _ (
          after->> _ _ (
            after->>= _ _ (λ forking. after->> _ _ (
              after->> _ _ (
                after->>= _ _ (λ listening. after->> _ _ (
                  after->> _ _ (
                    after->>= _ _ (λ dev.
                      Takes->>= _ Agrees _ _ _ (reset_all-Agrees e dev)
                        (λ ready. search agrees_rules depth 12))))))))))))

  selected-Agrees : (selected : Option Incoming) → Holds Agrees (receive_selected e selected)
  unfolding receive_selected
  selected-Agrees none = Holds-skip
  selected-Agrees (some incoming) = Holds->> _ _ (receive-Agrees e incoming) Holds-skip

  react-Agrees : (ev : Event) → Holds Agrees (react e ev)
  unfolding react main_round
  react-Agrees (round selected) = search (agrees_rules, selected-Agrees, footswitch-Keeps) depth 9
  react-Agrees tone_queue_low = callback-Agrees e
  react-Agrees (keying k state) = search (agrees_rules, keyingevent-Keeps)

  Running-Agrees : (s : Daemon) → Running e s → Agrees s
  Running-Agrees s (started args left t h) =
      Yields-ret Agrees (start e args left initial_daemon) tt s
        ((start-Agrees args left).at initial_daemon tt) h
  Running-Agrees s (later t u ev r h) =
      Yields-ret Agrees (react e ev t) tt s ((react-Agrees ev).at t (Running-Agrees t r)) h

-- In every daemon that runs, from whatever command line and through whatever events, and that has a
-- sound output: the last speed and the last weighting that libcw was told are the current ones, and
-- unless the tone is 0 so are the last frequency and the last volume; with a tone of 0 the last
-- volume is the current one or 0.
pub Running-IsTold :
    (e : Env) (s : Daemon) → Running e s → s.has_audio_output ≡ true → IsTold s.current s.trace
Running-IsTold e s r o = Running-Agrees e s r o
