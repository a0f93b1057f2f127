-- ===== src/Client/Ending.antt =====
-- What the session of examples/example.c leaves in the daemon: its last two requests are a reset and
-- a text.
use cwdaemon.Base.{
  ℕ, zero, suc, ◌≡◌, refl, Bool, true, false, List, [], ◌∷◌, ◌++◌, ◌==◌, if◌then◌else◌, All, arith,
  drop, Option, none, some,
}
use cwdaemon.World.Calls.{Env, Address}
use cwdaemon.World.State.{Daemon}
use cwdaemon.World.Run.{skip, M}
use cwdaemon.World.Yields.{
  Takes, Holds, state_rules, Keeps-Holds, Holds-if, Holds->>, Holds->>=, Holds-skip, Holds-gets,
  Takes->>, Takes-read, Takes-modify, Takes-if, after->>, anything, Yields-map, Kept-Yields,
  Holds-pure,
}
use cwdaemon.Utils.CString.{codes}
use cwdaemon.Ptt.{change_ptt}
use cwdaemon.Reply.{cwdaemon_prepare_reply, append_bounded}
use cwdaemon.Play.{set_queue, is_speed_sign, handle_caret, play_loop, cwdaemon_play_request}
use cwdaemon.Request.{receive_text}
use cwdaemon.Escape.{esc_reset}
use cwdaemon.Escape.Dispatch.{dispatch}
use cwdaemon.Escape.Restore.{IsRestored, esc_reset-Kept}
use cwdaemon.Main.{count_inactivity}
use cwdaemon.Frame.{IsFrame, IsFlagFree, IsRemote}
use cwdaemon.Frame.Handlers.{after_character-Keeps, count-Keeps, footswitch-Keeps}
use cwdaemon.Frame.Flags.{play_character-Keeps}
use cwdaemon.Client.{Step, key, sleep, session, k_reset, k_message}
use cwdaemon.Client.Trip.{asked}
use cwdaemon.Client.Rounds.{round_of, for_client, carry_out}

-- The defaults are in force, and the words are not kept together.
abbrev pub IsDefaulted : Daemon → Type 0
IsDefaulted s = (s.current ≡ s.defaults) × (s.wordmode ≡ false)

-- So they are, and no text is queued.
abbrev IsFresh : Daemon → Type 0
IsFresh s = IsDefaulted s × (s.request_queue ≡ [])

IsDefaulted-IsFrame : IsFrame IsDefaulted
IsDefaulted-IsFrame = record {
  call_ok = λ c s h i. i;
  ttys_ok = λ d s i. i;
  lp_ok = λ d s i. i;
  null_ok = λ d s i. i;
}

IsDefaulted-IsFlagFree : IsFlagFree IsDefaulted
IsDefaulted-IsFlagFree = record { flag_ok = λ g s h i. i }

IsFresh-IsFrame : IsFrame IsFresh
IsFresh-IsFrame = record {
  call_ok = λ c s h i. i;
  ttys_ok = λ d s i. i;
  lp_ok = λ d s i. i;
  null_ok = λ d s i. i;
}

IsFresh-IsRemote : IsRemote IsFresh
IsFresh-IsRemote = record { kind_ok = λ k s i. i; register_ok = λ d s i. i; idle_ok = λ n s i. i }

ruleset plain_rules = (state_rules, Keeps-Holds, IsDefaulted-IsFrame, IsDefaulted-IsFlagFree)

module _ (e : Env) where
  caret-IsDefaulted : (done : List ℕ) → Holds IsDefaulted (handle_caret e done)
  unfolding handle_caret set_queue cwdaemon_prepare_reply change_ptt
  caret-IsDefaulted done = search state_rules depth 12

  -- A text without '+' and '-' changes no value.
  play_loop-IsDefaulted :
      (jump : Bool) (done rest : List ℕ)
      → All (λ c. is_speed_sign c ≡ false) rest
      → Holds IsDefaulted (play_loop e jump done rest)
  unfolding play_loop set_queue
  play_loop-IsDefaulted jump done [] h = Holds-skip
  play_loop-IsDefaulted true done (c ∷ rest) (h, hs) =
      play_loop-IsDefaulted false (done ++ c ∷ []) rest hs
  play_loop-IsDefaulted false done (c ∷ rest) (h, hs) =
      let c' : ℕ = if c == b'*' then b'+' else c in
      let next = λ (b : Bool). play_loop-IsDefaulted b (done ++ c' ∷ []) rest hs in
      Takes-if (is_speed_sign c) _ _ (λ b. absurd (ground arith))
        (λ b. Holds-if (c == b'~') _ _ (Holds->> _ _ (search state_rules) (next false)) (
          Holds-if (c == b'^') _ _ (caret-IsDefaulted done) (
            Holds->> _ _ (search state_rules) (
              Holds->> _ _ (search (plain_rules, play_character-Keeps))
                (Holds->>= _ _ (search (plain_rules, after_character-Keeps)) next)))))

  play_request-IsDefaulted :
      (text : List ℕ)
      → All (λ c. is_speed_sign c ≡ false) text
      → Takes (λ s. IsDefaulted s × (s.request_queue ≡ text)) IsDefaulted (cwdaemon_play_request e)
  unfolding cwdaemon_play_request set_queue
  play_request-IsDefaulted text h =
      Takes-read _ _ text (λ s i. i.1)
        (Takes->> _ IsDefaulted _ _ _
          (record { at = λ s i. (play_loop-IsDefaulted false [] text h).at s i.0 })
          (search state_rules))

  paris-IsDefaulted : Takes IsFresh IsDefaulted (receive_text e (codes "paris paris"))
  unfolding receive_text set_queue append_bounded
  paris-IsDefaulted =
      Takes-read _ _ [] (λ s i. i.1)
        (Takes->> _ (λ s. IsDefaulted s × (s.request_queue ≡ codes "paris paris")) _ _ _
          (Takes-modify _ (λ s i. (i.0, refl)))
          (Takes->> _ IsDefaulted _ _ _
            (play_request-IsDefaulted (codes "paris paris") (ground arith)) (Holds-pure 1)))

  reset-IsFresh : Takes (λ _. Unit) IsFresh (esc_reset e)
  reset-IsFresh = record {
    at = λ s _.
        Yields-map (IsRestored s.defaults) IsFresh (esc_reset e s) (λ t i. ground arith)
          (Kept-Yields (IsRestored s.defaults) (esc_reset e s) (esc_reset-Kept e s));
  }

  -- A round, where what is read takes one condition to another.
  round-Takes :
      (P Q : Daemon → Type 0) (m : M ℕ)
      → Holds P (count_inactivity e)
      → IsFrame Q
      → Takes P Q m
      → Takes P Q (round_of e m)
  round-Takes P Q m c f h = Takes->> P P Q _ _ c (
      Takes->> P Q Q _ _ (Takes->> P Q Q m skip h Holds-skip)
        (Holds->>= _ _ (Holds-gets _) (λ dev. Keeps-Holds (footswitch-Keeps e f dev dev))))

  -- What is read comes from a client.
  for_client-Takes :
      (P Q : Daemon → Type 0) (addr : Address) (m : M ℕ)
      → ((s : Daemon) → P s → P (record s { request_addr = addr }))
      → Takes P Q m
      → Takes P Q (for_client addr m)
  for_client-Takes P Q addr m k h = record {
    at = λ s i. h.at (record s { request_addr = addr }) (k s i);
  }

  module _ (addr : Address) where
    reset-round : Takes (λ _. Unit) IsFresh (round_of e (for_client addr (asked e k_reset [])))
    unfolding dispatch
    reset-round =
        round-Takes (λ _. Unit) IsFresh _ (anything _) IsFresh-IsFrame
          (for_client-Takes _ IsFresh addr _ (λ s i. tt)
            (Takes->> _ IsFresh IsFresh _ _ reset-IsFresh (Holds-pure 0)))

    text-round :
        Takes IsFresh IsDefaulted
          (round_of e (for_client addr (asked e k_message (codes "paris paris"))))
    text-round =
        round-Takes IsFresh IsDefaulted _
          (Keeps-Holds (count-Keeps e IsFresh-IsFrame IsFresh-IsRemote)) IsDefaulted-IsFrame
          (for_client-Takes _ IsDefaulted addr _ (λ s i. i) paris-IsDefaulted)

    last-IsDefaulted :
        Takes
          (λ _. Unit)
          IsDefaulted
          (carry_out e addr (key k_reset [] ∷ key k_message (codes "paris paris") ∷ []))
    last-IsDefaulted =
        Takes->> _ IsFresh IsDefaulted _ _ reset-round
          (Takes->> _ IsDefaulted IsDefaulted _ _ text-round Holds-skip)

    -- What the last steps do holds of all of them.
    earlier-steps :
        {P : Daemon → Type 0} (n : ℕ) (steps : List Step)
        → Takes (λ _. Unit) P (carry_out e addr (drop n steps))
        → Takes (λ _. Unit) P (carry_out e addr steps)
    earlier-steps zero steps h = h
    earlier-steps (suc n) [] h = h
    earlier-steps (suc n) (sleep k ∷ steps) h = earlier-steps n steps h
    earlier-steps (suc n) (key r value ∷ steps) h = after->> _ _ (earlier-steps n steps h)

    pub session-IsDefaulted :
        (device : Option (List ℕ))
        → Takes (λ _. Unit) IsDefaulted (carry_out e addr (session device))
    unfolding session
    session-IsDefaulted none = earlier-steps 51 (session none) last-IsDefaulted
    session-IsDefaulted (some name) = earlier-steps 52 (session (some name)) last-IsDefaulted
