-- ===== src/Traffic/Start.antt =====
-- The start of the daemon sends no datagram and makes no reply due.
use cwdaemon.Base.{ℕ, Bool, true, false, Option, none, some, List, [], ◌∷◌}
use cwdaemon.Utils.CString.{codes}
use cwdaemon.Utils.{find_opt_value, OptT, opt_success}
use cwdaemon.World.Calls.{Env, Address, Kind, ttys}
use cwdaemon.World.State.{Daemon}
use cwdaemon.World.Yields.{
  state_rules, call-Holds, Holds, Keeps-Holds, Holds-skip, Holds-pure, Takes-stop, Holds->>,
  Holds->>=, Holds-gets,
}
use cwdaemon.Device.{dev_optparse, cwdaemon_cwdevices_init, cwdaemon_cwdevice_init}
use cwdaemon.Device.Ttys.{
  set_ttys, tty_init_cwdevice, set_key_pin, set_ptt_pin, ptt_option, key_option, ttys_optparse,
}
use cwdaemon.Args.{
  Arg, long, short, store_or_exit, option_cwdevice_or_exit, cwdaemon_params_nofork,
  params_options_of, cwdaemon_params_options, cwdaemon_args_process_short, process_long_name,
  cwdaemon_args_process_long, cwdaemon_args_parse,
}
use cwdaemon.Log.Open.{set_debug_f, debug_open_at, cwdaemon_debug_open}
use cwdaemon.Background.{or_exit, replace_streams, detach, go_to_background}
use cwdaemon.Sound.{
  configure_libcw, cwdaemon_reset_almost_all, cwdaemon_reset_libcw_output, set_audio_output,
}
use cwdaemon.Play.{set_queue}
use cwdaemon.Main.{cwdaemon_initialize_socket, set_priority, set_libcw_debugging, start}
use cwdaemon.Frame.Devices.{ttys_cw-Keeps, ttys_ptt-Keeps}
use cwdaemon.Frame.Handlers.{open_output-Keeps, close_output-Keeps, option_cwdevice-Keeps}
use cwdaemon.Traffic.Rules.{Count, Count-IsFrame, Count-IsRemote}

ruleset start_rules = (state_rules, call-Holds, Keeps-Holds, Count-IsFrame, Count-IsRemote)

store_or_exit-Holds :
    {A : Type 0} {P : Daemon → Type 0} (o : Option A) (f : A → Daemon → Daemon)
    → ((x : A) (s : Daemon) → P s → P (f x s))
    → Holds P (store_or_exit o f)
unfolding store_or_exit
store_or_exit-Holds none f h = Takes-stop 1
store_or_exit-Holds (some x) f h = search (state_rules)

module _ (e : Env) (a : Address) (n : ℕ) where
  key_pin-Count : (o : Option ℕ) → Holds (Count a n) (set_key_pin e o)
  unfolding set_key_pin set_ttys
  key_pin-Count none = Holds-pure false
  key_pin-Count (some pin) = search (start_rules, ttys_cw-Keeps)

  ptt_pin-Count : (o : Option ℕ) → Holds (Count a n) (set_ptt_pin e o)
  unfolding set_ptt_pin set_ttys
  ptt_pin-Count none = Holds-pure false
  ptt_pin-Count (some pin) = search (start_rules, ttys_ptt-Keeps)

  ptt_option-Count : (o : OptT) → Holds (Count a n) (ptt_option e o)
  unfolding ptt_option
  ptt_option-Count (opt_success v) = ptt_pin-Count _
  ptt_option-Count _ = Holds-pure false

  key_option-Count : (o : OptT) (option : List ℕ) → Holds (Count a n) (key_option e o option)
  unfolding key_option
  key_option-Count (opt_success v) option = key_pin-Count _
  key_option-Count _ option = ptt_option-Count (find_opt_value option (codes "ptt"))

  optparse-Count :
      (k : Kind) (text : List ℕ) → Holds (Count a n) (params_options_of e (dev_optparse e k) text)
  unfolding params_options_of dev_optparse ttys_optparse
  optparse-Count ttys text = key_option-Count (find_opt_value text (codes "key")) text
  optparse-Count _ text = Holds-pure false

  options-Count : (text : List ℕ) → Holds (Count a n) (cwdaemon_params_options e text)
  unfolding cwdaemon_params_options
  options-Count text = Holds->>= _ _ (Holds-gets _) (λ k. optparse-Count k text)

  cwdevice-Count : (text : List ℕ) → Holds (Count a n) (option_cwdevice_or_exit e text)
  unfolding option_cwdevice_or_exit
  cwdevice-Count text = search (start_rules, option_cwdevice-Keeps)

  short-Count : (c : ℕ) (t : List ℕ) → Holds (Count a n) (cwdaemon_args_process_short e c t)
  unfolding cwdaemon_args_process_short cwdaemon_params_nofork
  short-Count c t =
      search (start_rules, cwdevice-Count, store_or_exit-Holds, options-Count) depth 24

  long-Count : (name t : List ℕ) → Holds (Count a n) (process_long_name e name t)
  unfolding process_long_name cwdaemon_params_nofork
  long-Count name t = search (start_rules, cwdevice-Count, store_or_exit-Holds) depth 18

  args-Count :
      (args : List Arg) (left : Bool) → Holds (Count a n) (cwdaemon_args_process_long e args left)
  unfolding cwdaemon_args_process_long
  args-Count [] true = Takes-stop 1
  args-Count [] false = Holds-skip
  args-Count (long name t ∷ args) left = Holds->> _ _ (long-Count name t) (args-Count args left)
  args-Count (short c t ∷ args) left = Holds->> _ _ (short-Count c t) (args-Count args left)

  args_parse-Count :
      (args : List Arg) (left : Bool) → Holds (Count a n) (cwdaemon_args_parse e args left)
  unfolding cwdaemon_args_parse
  args_parse-Count args left = search (start_rules, args-Count)

  open_at-Count : (b : Bool) (path : Option (List ℕ)) → Holds (Count a n) (debug_open_at e b path)
  unfolding debug_open_at set_debug_f
  open_at-Count true none = search start_rules
  open_at-Count false none = search start_rules
  open_at-Count b (some path) = search start_rules depth 12

  background-Count : (b : Bool) → Holds (Count a n) (go_to_background e b)
  unfolding go_to_background detach or_exit replace_streams
  background-Count true = search start_rules depth 30
  background-Count false = search start_rules

  reset-Count : (k : Kind) → Holds (Count a n) (cwdaemon_reset_almost_all e k)
  unfolding cwdaemon_reset_almost_all cwdaemon_reset_libcw_output set_audio_output configure_libcw
  reset-Count k = search (start_rules, open_output-Keeps, close_output-Keeps) depth 16

  socket-Count : Holds (Count a n) (cwdaemon_initialize_socket e)
  unfolding cwdaemon_initialize_socket
  socket-Count = search start_rules depth 16

  -- Whatever the command line.
  pub start-Count : (args : List Arg) (left : Bool) → Holds (Count a n) (start e args left)
  unfolding start set_debug_f cwdaemon_cwdevices_init tty_init_cwdevice cwdaemon_cwdevice_init
      set_ttys cwdaemon_debug_open set_priority set_libcw_debugging set_queue
  start-Count args left =
      search
        (start_rules, args_parse-Count, open_at-Count, background-Count, reset-Count, socket-Count)
        depth 30
