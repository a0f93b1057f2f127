-- ===== src/Request/Silent.antt =====
-- A text sends no datagram while it is received and played (`cwdaemon_receive` and
-- `cwdaemon_play_request` of src/cwdaemon.c).
use cwdaemon.Base.{ℕ, ◌≡◌, Bool, true, false, List, [], ◌∷◌, ◌++◌, ◌==◌, if◌then◌else◌, arith}
use cwdaemon.World.Calls.{Env, Address}
use cwdaemon.World.State.{Daemon}
use cwdaemon.World.Yields.{
  Holds, state_rules, Keeps-Holds, Holds-if, Holds->>, Holds->>=, Holds-skip, Holds-gets,
}
use cwdaemon.Ptt.{change_ptt}
use cwdaemon.Reply.{cwdaemon_prepare_reply}
use cwdaemon.Play.{
  set_queue, set_speed, is_speed_sign, change_speed, handle_caret, play_loop, cwdaemon_play_request,
}
use cwdaemon.Request.{receive_text}
use cwdaemon.Callback.Echo.{sent}
use cwdaemon.Frame.{IsFrame, IsFlagFree}
use cwdaemon.Frame.Handlers.{after_character-Keeps}
use cwdaemon.Frame.Flags.{play_character-Keeps}

-- The datagrams that were sent so far.
abbrev pub HasSent : List (Address × List ℕ) → Daemon → Type 0
HasSent l s = sent s.trace ≡ l

module _ {l : List (Address × List ℕ)} where
  HasSent-IsFrame : IsFrame (HasSent l)
  HasSent-IsFrame = record {
    call_ok = λ c s h i. ground arith;
    ttys_ok = λ d s i. i;
    lp_ok = λ d s i. i;
    null_ok = λ d s i. i;
  }

  HasSent-IsFlagFree : IsFlagFree (HasSent l)
  HasSent-IsFlagFree = record { flag_ok = λ g s h i. i }

  ruleset sent_rules = (state_rules, Keeps-Holds, HasSent-IsFrame, HasSent-IsFlagFree)

  module _ (e : Env) where
    speeds-HasSent : (c : ℕ) (rest : List ℕ) → Holds (HasSent l) (change_speed e c rest)
    unfolding change_speed set_speed
    speeds-HasSent c rest = search state_rules depth 12

    caret-HasSent : (done : List ℕ) → Holds (HasSent l) (handle_caret e done)
    unfolding handle_caret set_queue cwdaemon_prepare_reply change_ptt
    caret-HasSent done = search state_rules depth 12

    play_loop-HasSent :
        (jump : Bool) (done rest : List ℕ) → Holds (HasSent l) (play_loop e jump done rest)
    unfolding play_loop set_queue
    play_loop-HasSent jump done [] = Holds-skip
    play_loop-HasSent true done (c ∷ rest) = play_loop-HasSent false (done ++ c ∷ []) rest
    play_loop-HasSent false done (c ∷ rest) =
        let c' : ℕ = if c == b'*' then b'+' else c in
        let next = λ (b : Bool). play_loop-HasSent b (done ++ c' ∷ []) rest in
        Holds-if (is_speed_sign c) _ _ (Holds->> _ _ (speeds-HasSent c rest) (next false)) (
          Holds-if (c == b'~') _ _ (Holds->> _ _ (search state_rules) (next false)) (
            Holds-if (c == b'^') _ _ (caret-HasSent done) (
              Holds->> _ _ (search state_rules) (
                Holds->> _ _ (search (sent_rules, play_character-Keeps))
                  (Holds->>= _ _ (search (sent_rules, after_character-Keeps)) next)))))

    play_request-HasSent : Holds (HasSent l) (cwdaemon_play_request e)
    unfolding cwdaemon_play_request set_queue
    play_request-HasSent =
        Holds->>= _ _ (Holds-gets _)
          (λ queue. Holds->> _ _ (play_loop-HasSent false [] queue) (search state_rules))

    pub text-HasSent : (text : List ℕ) → Holds (HasSent l) (receive_text e text)
    unfolding receive_text set_queue
    text-HasSent text = search (state_rules, play_request-HasSent) depth 9
