-- ===== src/Invariant/Playing.antt =====
-- Playing a text keeps the invariant: the speed is back within its limits at the end of every run
-- of '+' and '-', and the reply of a '^' fits its buffer.
use cwdaemon.Base.{
  ℕ, ◌+◌, ◌≤◌, ◌≡◌, refl, Bool, true, false, not, ◌&&◌, List, [], ◌∷◌, ◌++◌, ℤ, arith,
  if◌then◌else◌, length, length-append, InRange, ◌==◌,
}
use cwdaemon.World.Calls.{Env, IsLibcw}
use cwdaemon.World.State.{Daemon}
use cwdaemon.World.Run.{run}
use cwdaemon.World.Keeps.{
  Leads, Keeps, Leads->>=, Leads->>, Leads-if, Leads-first, Keeps->>, Keeps-when, Keeps-skip,
}
use cwdaemon.Play.{
  set_speed, is_speed_sign, head_is, clamp_speed, change_speed, play_character, after_character,
  handle_caret, play_loop,
}
use cwdaemon.Invariant.{Phase, playing, running, IsSound}
use cwdaemon.Invariant.Rules.{sound_rules, queue_text-IsSound, perform-IsSound}
use cwdaemon.Invariant.Handlers.{cwdaemon_set_ptt_on-IsSound, cwdaemon_prepare_reply-IsSound}

-- A clipped speed is within the limits of libcw.
pub clamp_speed_bounds :
    (e : Env) (z : ℤ) → IsLibcw e → InRange e.speed_min e.speed_max (clamp_speed e z)
unfolding clamp_speed
clamp_speed_bounds e z l = ground arith

-- Whether the speed may be out of range at a character.
abbrev pub run_phase : Bool → Phase
run_phase true = running
run_phase false = playing

abbrev pub in_run : Bool → List ℕ → Phase
in_run jump rest = run_phase (not jump && head_is is_speed_sign rest)

module _ {e : Env} (l : IsLibcw e) where
  pub loosen : (b : Bool) (s : Daemon) → IsSound e playing false s → IsSound e (run_phase b) false s
  loosen true s i = ground arith
  loosen false s i = i

  settle :
      (c : ℕ) (rest : List ℕ)
      → is_speed_sign c ≡ false
      → (s : Daemon) → IsSound e (in_run false (c ∷ rest)) false s
      → IsSound e playing false s
  settle c rest h s i = rw h at i

  change_speed-IsSound :
      (b : Bool) (c : ℕ) (rest : List ℕ)
      → Leads
          (IsSound e (run_phase b) false)
          (IsSound e (in_run false rest) false)
          (change_speed e c rest)
  unfolding change_speed set_speed run
  change_speed-IsSound b c rest = record { at = λ s i. ground (arith, clamp_speed_bounds e _ l) }

  play_character-IsSound : (c : ℕ) → Keeps (IsSound e playing false) (play_character e c)
  unfolding play_character
  play_character-IsSound c = search (sound_rules, cwdaemon_set_ptt_on-IsSound)

  after_character-IsSound :
      (rest : List ℕ) → Keeps (IsSound e playing false) (after_character e rest)
  unfolding after_character
  after_character-IsSound rest = search sound_rules depth 8

  handle_caret-IsSound :
      (done : List ℕ) → length done ≤ 255 → Keeps (IsSound e playing false) (handle_caret e done)
  unfolding handle_caret
  handle_caret-IsSound done h =
      Keeps->> _ _ (queue_text-IsSound done) (cwdaemon_prepare_reply-IsSound done h)

  pub play_loop-IsSound :
      (jump : Bool) (done rest : List ℕ)
      → length done + length rest ≤ 256
      → Leads
          (IsSound e (in_run jump rest) false)
          (IsSound e playing false)
          (play_loop e jump done rest)
  unfolding play_loop
  play_loop-IsSound true done [] h = Keeps-skip
  play_loop-IsSound false done [] h = Keeps-skip
  play_loop-IsSound true done (c ∷ rest) h =
      Leads-first (loosen (head_is is_speed_sign rest))
        (play_loop-IsSound false (done ++ c ∷ []) rest (omega (arith, length-append done (c ∷ []))))
  play_loop-IsSound false done (c ∷ rest) h =
      let c' : ℕ = if c == b'*' then b'+' else c in
      let next = λ (b : Bool).
        play_loop-IsSound b (done ++ c' ∷ []) rest (omega (arith, length-append done (c' ∷ []))) in
      Leads-if (is_speed_sign c) _ _
        (λ sign. Leads->> _ _ _ _ _ (change_speed-IsSound (is_speed_sign c) c rest) (next false))
        (λ other. Leads-first (settle c rest other) (
          Leads-if (c == b'~') _ _
            (λ gap.
              Leads->> _ _ _ _ _ (perform-IsSound _ refl)
                (Leads-first (loosen (head_is is_speed_sign rest)) (next false)))
            (λ not_gap.
              Leads-if (c == b'^') _ _ (λ caret. handle_caret-IsSound done (omega arith))
                (λ plain. Leads->> _ _ _ _ _ (Keeps-when _ _ (queue_text-IsSound _)) (
                  Leads->> _ _ _ _ _ (play_character-IsSound c') (
                    Leads->>= _ _ _ _ _ (after_character-IsSound rest) (λ jumps.
                      Leads-first (loosen (not jumps && head_is is_speed_sign rest))
                        (next jumps))))))))
