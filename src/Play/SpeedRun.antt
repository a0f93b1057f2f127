-- ===== src/Play/SpeedRun.antt =====
-- A run of '+' and '-' in a text (src/cwdaemon.c, `cwdaemon_play_request`).
use cwdaemon.Base.{
  ℕ, ◌≡◌, refl, true, false, List, [], ◌∷◌, ◌++◌, ◌==◌, ℤ, pos, negsuc, ◌+ℤ◌, arith, All,
  if◌then◌else◌, Bool-cases, inl, inr,
}
use cwdaemon.World.Calls.{Env, cw_set_send_speed}
use cwdaemon.World.State.{Daemon}
use cwdaemon.World.Run.{ret, run}
use cwdaemon.Play.{is_speed_sign, clamp_speed, set_speed, change_speed, play_loop}

-- Two more for each '+', two less for each '-'.
abbrev pub run_total : ℤ → List ℕ → ℤ
run_total z [] = z
run_total z (c ∷ t) = if c == b'+' then run_total (z +ℤ pos 2) t else run_total (z +ℤ negsuc 1) t

abbrev pub with_speed : ℤ → Daemon → Daemon
with_speed z s = record s {
  current = record s.current { morse_speed = z };
  trace = cw_set_send_speed z ∷ s.trace;
}

step_of : ℕ → ℤ
step_of c = if c == b'+' then pos 2 else negsuc 1

add_speed : ℤ → Daemon → Daemon
add_speed z s = record s { current = record s.current { morse_speed = s.current.morse_speed +ℤ z } }

total_step : (z : ℤ) (c : ℕ) (t : List ℕ) → run_total z (c ∷ t) ≡ run_total (z +ℤ step_of c) t
unfolding step_of
total_step z c t = elim (Bool-cases (c == b'+')) [ inl p ↦ rw p refl | inr p ↦ rw p refl ]

loop_step :
    (e : Env) (done : List ℕ) (c d : ℕ) (t : List ℕ) (s : Daemon)
    → is_speed_sign c ≡ true
    → is_speed_sign d ≡ true
    → play_loop e false done (c ∷ d ∷ t) s
      ≡ play_loop e false (done ++ c ∷ []) (d ∷ t) (add_speed (step_of c) s)
unfolding play_loop change_speed set_speed add_speed step_of run
loop_step e done c d t s p q =
    let no_star : (c == b'*') ≡ false = ground arith in rw (no_star, p, q) refl

-- A run of '+' and '-' that ends the text changes the speed by the sum of its steps, and clips it
-- to the limits of libcw once, at the end of the run; libcw is told the new speed, once, and
-- nothing else of the daemon changes.
pub play_loop-speed_run :
    (e : Env) (done : List ℕ) (c : ℕ) (t : List ℕ) (s : Daemon)
    → All (λ d. is_speed_sign d ≡ true) (c ∷ t)
    → play_loop e false done (c ∷ t) s
      ≡ ret tt (with_speed (clamp_speed e (run_total s.current.morse_speed (c ∷ t))) s)
unfolding play_loop change_speed set_speed add_speed step_of run
play_loop-speed_run e done c [] s (p, ps) = ground arith
play_loop-speed_run e done c (d ∷ t) s (p, (q, ps)) =
    rw (loop_step e done c d t s p q, total_step s.current.morse_speed c (d ∷ t))
      (play_loop-speed_run e (done ++ c ∷ []) d t (add_speed (step_of c) s) (q, ps))
