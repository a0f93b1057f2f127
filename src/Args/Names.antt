-- ===== src/Args/Names.antt =====
-- The long options of src/cwdaemon.c that have a short form of the same meaning.
use cwdaemon.Base.{ℕ, ◌≡◌, refl, List, [], ◌∷◌, All}
use cwdaemon.Utils.CString.{codes, str_eq}
use cwdaemon.World.Calls.{Env}
use cwdaemon.World.State.{Daemon}
use cwdaemon.Args.{cwdaemon_args_process_short, process_long_name}

-- `cwdaemon_args_short`
abbrev pub cwdaemon_args_short : List ℕ
cwdaemon_args_short = codes "d:hniy:I:f:o:p:P:s:t:T:v:Vw:x:"

-- `cwdaemon_args_long`: the names, and what `getopt_long` answers, 0 or a letter
abbrev pub cwdaemon_args_long : List (List ℕ × ℕ)
cwdaemon_args_long =
    (codes "cwdevice", 0)
    ∷ (codes "nofork", 0)
    ∷ (codes "port", b'p')
    ∷ (codes "priority", 0)
    ∷ (codes "wpm", 0)
    ∷ (codes "pttdelay", 0)
    ∷ (codes "volume", 0)
    ∷ (codes "version", 0)
    ∷ (codes "weighting", 0)
    ∷ (codes "tone", 0)
    ∷ (codes "verbosity", b'y')
    ∷ (codes "libcwflags", b'I')
    ∷ (codes "debugfile", 0)
    ∷ (codes "system", 0)
    ∷ (codes "options", b'o')
    ∷ (codes "help", b'h')
    ∷ []

-- The long options that `getopt_long` answers with 0, by their names, with the letter of the short
-- form.
abbrev pub named : List (List ℕ × ℕ)
named =
    (codes "cwdevice", b'd')
    ∷ (codes "nofork", b'n')
    ∷ (codes "priority", b'P')
    ∷ (codes "wpm", b's')
    ∷ (codes "pttdelay", b't')
    ∷ (codes "volume", b'v')
    ∷ (codes "version", b'V')
    ∷ (codes "weighting", b'w')
    ∷ (codes "tone", b'T')
    ∷ (codes "debugfile", b'f')
    ∷ (codes "system", b'x')
    ∷ []

-- Each long option that has no letter in the table of `getopt_long` does what its short form does,
-- with every value and on every daemon.
pub long-short :
    (e : Env) (optarg : List ℕ) (s : Daemon)
    → All (λ o. process_long_name e o.0 optarg s ≡ cwdaemon_args_process_short e o.1 optarg s) named
unfolding cwdaemon_args_process_short process_long_name str_eq
long-short e optarg s =
    (refl, (refl, (refl, (refl, (refl, (refl, (refl, (refl, (refl, (refl, (refl, tt)))))))))))
