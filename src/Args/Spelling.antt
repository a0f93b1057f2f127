-- ===== src/Args/Spelling.antt =====
-- The two spellings of an option on the command line of src/cwdaemon.c.
use mathlib.Core.Path.{fun_ext, ap₂}
use mathlib.Core.List.{Memᴰ}
use mathlib.Core.List.Memᴰ.{head, tail}
use cwdaemon.Base.{ℕ, ◌≡◌, refl, ap, Bool, List, [], ◌∷◌, All, subst, sym, if◌then◌else◌}
use cwdaemon.World.Calls.{Env}
use cwdaemon.World.State.{Daemon}
use cwdaemon.World.Run.{Void, ◌>>◌, ◌>>=◌, gets, skip, stop}
use cwdaemon.Device.{dev_optvalidate}
use cwdaemon.Args.{
  Arg, long, short, cwdaemon_args_process_short, process_long_name, cwdaemon_args_process_long,
  cwdaemon_args_parse,
}
use cwdaemon.Args.Names.{named, long-short}

-- Two command lines that differ in the spelling of some options alone.
pub data Respelled : List Arg → List Arg → Type 0 where
  nothing_left : Respelled [] []
  same :
      (o : Arg) (args others : List Arg) → Respelled args others → Respelled (o ∷ args) (o ∷ others)
  shortened :
      (name : List ℕ) (letter : ℕ) (optarg : List ℕ) (args others : List Arg)
      → Memᴰ (name, letter) named
      → Respelled args others
      → Respelled (long name optarg ∷ args) (short letter optarg ∷ others)

All-member {ℓ κ} : {A : Type ℓ} (P : A → Type κ) (x : A) (xs : List A) → All P xs → Memᴰ x xs → P x
All-member P x [] h m = elim m [ ]
All-member P x (y ∷ xs) h (head e) = subst P (sym e) h.0
All-member P x (y ∷ xs) h (tail m) = All-member P x xs h.1 m

one_option :
    (e : Env) (name : List ℕ) (letter : ℕ) (optarg : List ℕ)
    → Memᴰ (name, letter) named
    → process_long_name e name optarg ≡ cwdaemon_args_process_short e letter optarg
one_option e name letter optarg m = fun_ext λ s.
    All-member (λ o. process_long_name e o.0 optarg s ≡ cwdaemon_args_process_short e o.1 optarg s)
      (name, letter) named (long-short e optarg s) m

-- A command line is processed alike in either spelling of its options.
process-Respelled :
    (e : Env) (args others : List Arg) (left : Bool)
    → Respelled args others
    → cwdaemon_args_process_long e args left ≡ cwdaemon_args_process_long e others left
unfolding cwdaemon_args_process_long
process-Respelled e args others left nothing_left = refl
process-Respelled e args others left (same (long name v) more rest r) =
    ap (λ m. process_long_name e name v >> m) (process-Respelled e more rest left r)
process-Respelled e args others left (same (short c v) more rest r) =
    ap (λ m. cwdaemon_args_process_short e c v >> m) (process-Respelled e more rest left r)
process-Respelled e args others left (shortened name c v more rest m r) =
    ap₂ (λ (m n : Void). m >> n) (one_option e name c v m) (process-Respelled e more rest left r)

-- A command line, with any of its options that have two spellings in the other one, does the same
-- to every daemon: the same values are stored, the same calls made, and it is refused alike.
pub args_parse-Respelled :
    (e : Env) (args others : List Arg) (left : Bool) (s : Daemon)
    → Respelled args others
    → cwdaemon_args_parse e args left s ≡ cwdaemon_args_parse e others left s
unfolding cwdaemon_args_parse
args_parse-Respelled e args others left s r =
    ap
      (λ m.
        (m
            >> (gets (λ s. dev_optvalidate s.global_cwdevice s) >>= λ valid.
                if valid then skip else stop 1))
          s)
      (process-Respelled e args others left r)
