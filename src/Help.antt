-- ===== src/Help.antt =====
-- src/help.c, and what it and `cwdaemon_params_version` say on the command line of src/cwdaemon.c.
use Prim.Native.Nat.{bit_and}
use cwdaemon.Base.{ℕ, ◌/◌, ◌^◌, List, [], ◌∷◌, ◌++◌, ℤ, pos, negsuc}
use cwdaemon.Utils.CString.{codes}
use cwdaemon.World.Calls.{Env}
use cwdaemon.World.State.{initial_params}
use cwdaemon.Params.{ptt_delay_max, to_uint32}
use cwdaemon.Log.{newline}

-- PACKAGE is `name`, and `shown` is what `printf` makes of an `int` by `%d`.
module _ (name : List ℕ) (shown : ℤ → List ℕ) (e : Env) where
  -- The texts that are printed, one for each call of `printf`.
  unfoldable pub cwdaemon_args_help : List (List ℕ)
  cwdaemon_args_help =
      (codes "Usage: " ++ (name ++ (codes " [options]" ++ newline)))
      ∷ (codes "Available options:" ++ newline)
      ∷ (codes "-h, --help" ++ newline)
      ∷ (codes "        Print this help and exit." ++ newline)
      ∷ (codes "-V, --version" ++ newline)
      ∷ (codes "        Print version information and exit." ++ newline)
      ∷ (codes "-d, --cwdevice <device>" ++ newline)
      ∷ (codes "        Use a keying device other than the default" ++ newline)
      ∷ (codes "        (e.g. ttyS0,1,2, parport0,1, etc. default: parport0)" ++ newline)
      ∷ (codes "        You can also specify a full path to the device in /dev/ dir." ++ newline)
      ∷ (codes "        Use \"null\" for dummy device (no rig keying, no ssb keying, etc.)."
          ++ newline)
      ∷ (codes "-o, --options <option>" ++ newline)
      ∷ (codes "        Specify <option> to configure device selected by -d / --cwdevice option."
          ++ newline)
      ∷ (codes "        Multiple <option> values can be passed in multiple -o invocations."
          ++ newline)
      ∷ (codes "        These options can be used only after the -d / --cwdevice option" ++ newline)
      ∷ (codes "        on the command line (first use '-d' and only then you can append '-o')."
          ++ newline)
      ∷ (codes "        Driver for serial line devices understands the following options:"
          ++ newline)
      ∷ (codes "        key=DTR|RTS|none (without spaces, default is DTR)" ++ newline)
      ∷ (codes "        ptt=RTS|DTR|none (without spaces, default is RTS)" ++ newline)
      ∷ (codes "-n, --nofork" ++ newline)
      ∷ (codes "        Do not fork. Print messages to stdout." ++ newline)
      ∷ (codes "-p, --port <port>" ++ newline)
      ∷ (codes "        Set a number of UDP port to listen on." ++ newline)
      ∷ (codes "        Valid values are in range <"
          ++ (shown (pos 1024)
              ++ (codes " - " ++ (shown (pos 65535) ++ (codes ">, inclusive." ++ newline)))))
      ∷ (codes "        Default value is " ++ (shown (pos 6789) ++ (codes "." ++ newline)))
      ∷ (codes "-P, --priority <priority>" ++ newline)
      ∷ (codes "        Set program's priority (-20 - 20, default: 0)." ++ newline)
      ∷ (codes "-s, --wpm <speed>" ++ newline)
      ∷ (codes "        Set Morse speed [wpm]." ++ newline)
      ∷ (codes "        Valid values are in range <"
          ++ (shown e.speed_min
              ++ (codes " - " ++ (shown e.speed_max ++ (codes ">, inclusive." ++ newline)))))
      ∷ (codes "        Default value is "
          ++ (shown initial_params.morse_speed ++ (codes "." ++ newline)))
      ∷ (codes "-t, --pttdelay <time>" ++ newline)
      ∷ (codes "        Set PTT delay [ms]." ++ newline)
      ∷ (codes "        Valid values are in range <"
          ++ (shown (pos 0)
              ++ (codes " - "
                  ++ (shown (pos ptt_delay_max) ++ (codes ">, inclusive." ++ newline)))))
      ∷ (codes "        Default value is "
          ++ (shown (pos initial_params.ptt_delay_ms) ++ (codes "." ++ newline)))
      ∷ (codes "-x, --system <sound system>" ++ newline)
      ∷ (codes "        Use a specific sound system:" ++ newline)
      ∷ (codes "        c = console buzzer (default)" ++ newline)
      ∷ (codes "        o = OSS" ++ newline)
      ∷ (codes "        a = ALSA" ++ newline)
      ∷ (codes "        p = PulseAudio" ++ newline)
      ∷ (codes "        n = null (no audio)" ++ newline)
      ∷ (codes "        s = soundcard (autoselect from OSS/ALSA/PulseAudio)" ++ newline)
      ∷ (codes "-v, --volume <volume>" ++ newline)
      ∷ (codes "        Set volume for soundcard output [%]." ++ newline)
      ∷ (codes "        Valid values are in range <"
          ++ (shown e.volume_min
              ++ (codes " - " ++ (shown e.volume_max ++ (codes ">, inclusive." ++ newline)))))
      ∷ (codes "        Default value is "
          ++ (shown initial_params.morse_volume ++ (codes "." ++ newline)))
      ∷ (codes "-w, --weighting <weight>" ++ newline)
      ∷ (codes "        Set weighting of Morse code." ++ newline)
      ∷ (codes "        Valid values are in range <"
          ++ (shown (negsuc 49)
              ++ (codes " - " ++ (shown (pos 50) ++ (codes ">, inclusive." ++ newline)))))
      ∷ (codes "        Default value is "
          ++ (shown initial_params.weighting ++ (codes "." ++ newline)))
      ∷ (codes "-T, --tone <tone>" ++ newline)
      ∷ (codes "        Set tone (frequency) of played Morse code [Hz]." ++ newline)
      ∷ (codes "        Valid values are in range <"
          ++ (shown e.frequency_min
              ++ (codes " - " ++ (shown e.frequency_max ++ (codes ">, inclusive." ++ newline)))))
      ∷ (codes "        Default value is "
          ++ (shown initial_params.morse_tone ++ (codes "." ++ newline)))
      ∷ (codes "-i" ++ newline)
      ∷ (codes "        Increase verbosity of debug messages printed by cwdaemon." ++ newline)
      ∷ (codes "        Repeat for even more verbosity (e.g. -iii)." ++ newline)
      ∷ (codes "        Alternatively you can use -y/--verbosity option." ++ newline)
      ∷ (codes "-y, --verbosity <threshold>" ++ newline)
      ∷ (codes "        Set verbosity threshold for debug messages printed by cwdaemon." ++ newline)
      ∷ (codes "        Recognized values:" ++ newline)
      ∷ (codes "        n = none (don't print any messages)" ++ newline)
      ∷ (codes "        e = error" ++ newline)
      ∷ (codes "        w = warning (default)" ++ newline)
      ∷ (codes "        i = information" ++ newline)
      ∷ (codes "        d = debug" ++ newline)
      ∷ (codes "        Alternatively you can use -i option." ++ newline)
      ∷ (codes "-I, --libcwflags <flags>" ++ newline)
      ∷ (codes "        Specify value (as decimal number) of flags passed to libcw for" ++ newline)
      ∷ (codes "        purposes of debugging of the libcw library." ++ newline)
      ∷ (codes "-f, --debugfile <output>" ++ newline)
      ∷ (codes "        Print debug information to <output> instead of stdout." ++ newline)
      ∷ (codes "        Value of <output> can be explicitly stated as \"stdout\"" ++ newline)
      ∷ (codes "        (when not forking)." ++ newline)
      ∷ (codes "        Value of <output> can be also \"stderr\" (when not forking)." ++ newline)
      ∷ (codes "        Special value of <output> being \"syslog\" is reserved for" ++ newline)
      ∷ (codes "        future use. For now it will be rejected as invalid." ++ newline)
      ∷ (codes "        Passing path to disc file as value of <output> works in both" ++ newline)
      ∷ (codes "        situations: when forking and when not forking." ++ newline)
      ∷ newline
      ∷ []

-- The halves of `(uint32_t) cw_version()`.
abbrev pub version_current : ℤ → ℕ
version_current v = bit_and (to_uint32 v) 0xffff0000 / 2 ^ 16

abbrev pub version_revision : ℤ → ℕ
version_revision v = bit_and (to_uint32 v) 0x0000ffff

-- `cwdaemon_params_version` of src/cwdaemon.c, where PACKAGE is `name`, VERSION is `version` and
-- `cw_version()` is `linked`.
unfoldable pub cwdaemon_params_version : List ℕ → List ℕ → (ℤ → List ℕ) → ℤ → List (List ℕ)
cwdaemon_params_version name version shown linked =
    (name ++ (codes " version " ++ (version ++ newline)))
    ∷ (codes "Linked with libcw version: "
        ++ (shown (pos (version_current linked))
            ++ (codes "." ++ (shown (pos (version_revision linked)) ++ newline))))
    ∷ []
