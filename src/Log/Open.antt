-- ===== src/Log/Open.antt =====
-- The opening and the closing of the debug output, and where it goes (src/log.c).
use cwdaemon.Base.{
  ℕ, ◌≡◌, ◌≢◌, refl, Bool, true, false, not, ◌||◌, Option, none, some, List, pos, eqb_ℤ,
  if◌then◌else◌, arith, Bool-cases, inl, inr,
}
use cwdaemon.Utils.CString.{codes, str_eq}
use cwdaemon.World.Calls.{Env, Call, fopen, fclose}
use cwdaemon.World.State.{Daemon, Stream, stdout, stderr, disc_file}
use cwdaemon.World.Run.{Void, ◌>>=◌, ◌>>◌, skip, stop, gets, modify, require, call, perform, run}
use cwdaemon.World.Keeps.{Kept, Returns, Follows}

unfoldable pub set_debug_f : Option Stream → Void
set_debug_f f = modify (λ s. record s { debug_f = f })

abbrev pub is_stdout : List ℕ → Bool
is_stdout path = str_eq path (codes "stdout")

abbrev pub is_stderr : List ℕ → Bool
is_stderr path = str_eq path (codes "stderr")

module _ (e : Env) where
  -- the valid situations, by `cwdaemon_debug_f_path`
  unfoldable pub debug_open_at : Bool → Option (List ℕ) → Void
  unfolding set_debug_f
  debug_open_at true none = set_debug_f none
  debug_open_at false none = set_debug_f (some stdout)
  debug_open_at forking (some path) =
      if is_stdout path
      then (do require (not forking); set_debug_f (some stdout))
      else if is_stderr path
      then (do require (not forking); set_debug_f (some stderr))
      else (do
        file ← call e (fopen path)
        if eqb_ℤ file (pos 0)
            then set_debug_f none >> stop 1
            else set_debug_f (some (disc_file path)))

  -- the clash of command line arguments
  abbrev pub clashes : Bool → Option (List ℕ) → Bool
  clashes true (some path) = is_stdout path || is_stderr path
  clashes _ _ = false

  unfoldable pub cwdaemon_debug_open : Bool → Void
  unfolding debug_open_at
  cwdaemon_debug_open forking = do
    path ← gets (λ s. s.debug_f_path)
    if clashes forking path then stop 1 else debug_open_at forking path

-- Only a file on disc is closed.
unfoldable pub close_stream : Option Stream → Void
unfolding set_debug_f
close_stream (some (disc_file path)) = do perform fclose; set_debug_f none
close_stream _ = skip

unfoldable pub cwdaemon_debug_close : Void
unfolding close_stream
cwdaemon_debug_close = do f ← gets (λ s. s.debug_f); close_stream f

-- The stream that a daemon prints to fits its place: in the background it is not the terminal's,
-- and in the foreground there is one.
abbrev pub FitsPlace : Bool → Option Stream → Type 0
FitsPlace true f = (f ≢ some stdout) × (f ≢ some stderr)
FitsPlace false f = f ≢ none

-- No file is refused.
abbrev pub FilesOpen : Env → Type 0
FilesOpen e = (t : List Call) (path : List ℕ) → eqb_ℤ (e.returns t (fopen path)) (pos 0) ≡ false

open_at-Kept :
    (e : Env) (forking : Bool) (path : Option (List ℕ)) (s : Daemon)
    → clashes e forking path ≡ false
    → Kept (λ t. FitsPlace forking t.debug_f) (debug_open_at e forking path s)
unfolding debug_open_at run
open_at-Kept e true none s h = (λ q. cc, λ q. cc)
open_at-Kept e false none s h = λ q. cc
open_at-Kept e true (some path) s h = ground arith
open_at-Kept e false (some path) s h = ground arith

pub cwdaemon_debug_open-Kept :
    (e : Env) (forking : Bool) (s : Daemon)
    → Kept (λ t. FitsPlace forking t.debug_f) (cwdaemon_debug_open e forking s)
unfolding cwdaemon_debug_open run
cwdaemon_debug_open-Kept e forking s = elim (Bool-cases (clashes e forking s.debug_f_path)) [
  | inl h ↦ rw h tt
  | inr h ↦ rw h (open_at-Kept e forking s.debug_f_path s h)
]

open_at-Returns :
    (e : Env) (forking : Bool) (path : Option (List ℕ)) (s : Daemon)
    → FilesOpen e
    → clashes e forking path ≡ false
    → Returns (λ t. FitsPlace forking t.debug_f) (debug_open_at e forking path s)
unfolding debug_open_at run
open_at-Returns e true none s o h = (λ q. cc, λ q. cc)
open_at-Returns e false none s o h = λ q. cc
open_at-Returns e true (some path) s o h = let opened = o s.trace path in ground arith
open_at-Returns e false (some path) s o h = let opened = o s.trace path in ground arith

-- The opening of the debug output exits with 1 if the terminal is asked for by a daemon that runs
-- in the background. Else it returns, none of its assertions fails, and the stream fits the place
-- of the daemon. Every file can be opened.
pub cwdaemon_debug_open_lem :
    (e : Env) (forking : Bool) (s : Daemon)
    → FilesOpen e
    → Follows
        (λ t. FitsPlace forking t.debug_f)
        (if clashes e forking s.debug_f_path then some 1 else none)
        (cwdaemon_debug_open e forking s)
unfolding cwdaemon_debug_open run
cwdaemon_debug_open_lem e forking s o = elim (Bool-cases (clashes e forking s.debug_f_path)) [
  | inl h ↦ rw h refl
  | inr h ↦ rw h (open_at-Returns e forking s.debug_f_path s o h)
]
