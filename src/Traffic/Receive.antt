-- ===== src/Traffic/Receive.antt =====
-- A datagram makes one reply due to its sender at most: `cwdaemon_receive` and
-- `cwdaemon_play_request` of src/cwdaemon.c, and the callbacks of libcw.
use cwdaemon.Base.{
  ℕ, ◌+◌, ◌≡◌, refl, Bool, true, false, not, ◌&&◌, List, [], ◌∷◌, ◌++◌, ◌==◌, arith, if◌then◌else◌,
  ap, ◌∙◌, take, leb, length, get_or,
}
use cwdaemon.Utils.CString.{c_str}
use cwdaemon.Utils.{is_empty}
use cwdaemon.World.Calls.{Env, Address, cw_get_tone_queue_length}
use cwdaemon.World.State.{Daemon, PttFlag}
use cwdaemon.World.Run.{run, ◌>>=◌, ◌>>◌, when, call, skip}
use cwdaemon.World.Yields.{
  state_rules, Takes, Holds, Keeps-Holds, Takes->>=, Takes->>, Takes-if, Takes-first, Takes-gets,
  Takes-when, Holds-skip, Holds-pure, Takes-stop, Holds->>=, Holds-gets,
}
use cwdaemon.Ptt.{change_ptt, is_auto_only, cwdaemon_set_ptt_off}
use cwdaemon.Reply.{
  cwdaemon_sendto, datagram, accept_bytes, Received, shut_down, error, no_request, request,
  cwdaemon_recvfrom,
}
use cwdaemon.Play.{
  set_queue, set_speed, is_speed_sign, change_speed, handle_caret, play_loop, cwdaemon_play_request,
}
use cwdaemon.Escape.Dispatch.{cwdaemon_handle_escaped_request}
use cwdaemon.Request.{receive_text, receive_request, ascii_esc, act_on, cwdaemon_receive}
use cwdaemon.Callback.{queue_is_low, send_reply, cwdaemon_tone_queue_low_callback}
use cwdaemon.Frame.{IsFrame, call-Keeps}
use cwdaemon.Frame.Handlers.{after_character-Keeps, queue_is_low-Keeps}
use cwdaemon.Frame.Flags.{play_character-Keeps, set_ptt_off-Keeps}
use cwdaemon.Traffic.{one_if}
use cwdaemon.Traffic.Rules.{Count, Fresh, Count-IsFrame, Count-IsFlagFree}
use cwdaemon.Traffic.Requests.{fresh_rules, settled, prepare-Count, dispatch-Count}

module _ (e : Env) (a addr : Address) (n : ℕ) where
  abbrev Done : Daemon → Type 0
  Done = Count a (n + one_if (addr == a))

  speeds-Fresh : (c : ℕ) (rest : List ℕ) → Holds (Fresh a addr n) (change_speed e c rest)
  unfolding change_speed set_speed
  speeds-Fresh c rest = search fresh_rules depth 12

  caret-Done : (done : List ℕ) → Takes (Fresh a addr n) Done (handle_caret e done)
  unfolding handle_caret set_queue
  caret-Done done =
      Takes->> _ (Fresh a addr n) _ _ _ (search fresh_rules) (prepare-Count e a addr n done _)

  play_loop-Done :
      (jump : Bool) (done rest : List ℕ) → Takes (Fresh a addr n) Done (play_loop e jump done rest)
  unfolding play_loop set_queue
  play_loop-Done jump done [] = settled e a addr n Holds-skip
  play_loop-Done true done (c ∷ rest) = play_loop-Done false (done ++ c ∷ []) rest
  play_loop-Done false done (c ∷ rest) =
      let c' : ℕ = if c == b'*' then b'+' else c in
      let next = λ (b : Bool). play_loop-Done b (done ++ c' ∷ []) rest in
      Takes-if (is_speed_sign c) _ _
        (λ sign. Takes->> _ (Fresh a addr n) _ _ _ (speeds-Fresh c rest) (next false))
        (λ other.
          Takes-if (c == b'~') _ _
            (λ gap. Takes->> _ (Fresh a addr n) _ _ _ (search fresh_rules) (next false))
            (λ not_gap.
              Takes-if (c == b'^') _ _ (λ caret. caret-Done done)
                (λ plain. Takes->> _ (Fresh a addr n) _ _ _ (search fresh_rules) (
                  Takes->> _ (Fresh a addr n) _ _ _ (search (fresh_rules, play_character-Keeps)) (
                    Takes->>= _ (Fresh a addr n) _ _ _ (search (fresh_rules, after_character-Keeps))
                      next)))))

  play_request-Done : Takes (Fresh a addr n) Done (cwdaemon_play_request e)
  unfolding cwdaemon_play_request set_queue
  play_request-Done =
      Takes->>= _ (Fresh a addr n) _ _ _ (Holds-gets _)
        (λ queue. Takes->> _ Done _ _ _ (play_loop-Done false [] queue) (search state_rules))

  text-Done : (text : List ℕ) → Takes (Fresh a addr n) Done (receive_text e text)
  unfolding receive_text set_queue
  text-Done text = Takes->>= _ (Fresh a addr n) _ _ _ (Holds-gets _) (λ queue.
      Takes-if (leb (length text + length queue) 3999) _ _
        (λ room.
          Takes->> _ (Fresh a addr n) _ _ _ (search fresh_rules)
            (Takes->> _ Done _ _ _ play_request-Done (Holds-pure 1)))
        (λ full. settled e a addr n (Holds-pure 1)))

  request-Done : (bytes : List ℕ) → Takes (Fresh a addr n) Done (receive_request e bytes)
  unfolding receive_request cwdaemon_handle_escaped_request
  request-Done bytes =
      Takes-if (not (get_or bytes 0 0 == ascii_esc)) _ _ (λ text. text-Done (c_str bytes))
        (λ esc. Takes->> _ Done _ _ _ (dispatch-Count e a addr n _ _ _) (Holds-pure 0))

  act_on-Done : (r : Received) → Takes (Fresh a addr n) Done (act_on e r)
  unfolding act_on
  act_on-Done shut_down = settled e a addr n (Holds-pure 0)
  act_on-Done error = Takes-stop 1
  act_on-Done no_request = settled e a addr n (Holds-pure 0)
  act_on-Done (request bytes) = request-Done bytes

  -- The datagram's sender is noted, and its bytes are acted on.
  pub datagram-Done :
      (bytes : List ℕ) → Takes (Count a n) Done (cwdaemon_receive e (datagram addr bytes))
  unfolding cwdaemon_receive cwdaemon_recvfrom run
  datagram-Done bytes = record {
    at = λ s i.
        (act_on-Done (accept_bytes (take 256 bytes))).at (record s { request_addr = addr })
          (i, refl);
  }

module _ (e : Env) (a : Address) (n : ℕ) where
  -- a reply that is due is sent, and due no more
  send_reply-Count : Takes (λ s. Count a n s × (s.ptt_flag.echo ≡ true)) (Count a n) (send_reply e)
  unfolding send_reply change_ptt cwdaemon_sendto run
  send_reply-Count = record { at = λ s i. ground arith }

-- The flag is still what was read of it.
abbrev Flagged : Address → ℕ → PttFlag → Daemon → Type 0
Flagged a n f s = Count a n s × (s.ptt_flag ≡ f)

module _ (e : Env) (a : Address) (n : ℕ) (f : PttFlag) where
  Flagged-IsFrame : IsFrame (Flagged a n f)
  Flagged-IsFrame = record {
    call_ok = λ c s h i. ((Count-IsFrame a n).call_ok c s h i.0, i.1);
    ttys_ok = λ d s i. i;
    lp_ok = λ d s i. i;
    null_ok = λ d s i. i;
  }

  branches-Count :
      (low : Bool)
      → Takes
          (Flagged a n f)
          (Count a n)
          (if low then cwdaemon_set_ptt_off e else when f.echo (send_reply e))
  branches-Count true =
      Takes-first (λ s i. i.0)
        (search (state_rules, Keeps-Holds, set_ptt_off-Keeps, Count-IsFrame, Count-IsFlagFree))
  branches-Count false =
      Takes-when f.echo _
        (λ due. Takes-first (λ s i. (i.0, ap (λ g. g.echo) i.1 ∙ due)) (send_reply-Count e a n))
        (λ quiet s i. i.0)

  low_queue-Count :
      (queue : List ℕ)
      → Takes (Flagged a n f) (Count a n) (do
        low ← queue_is_low e (is_auto_only f && is_empty queue)
        if low then cwdaemon_set_ptt_off e else when f.echo (send_reply e)
        final ← call e cw_get_tone_queue_length
        skip)
  low_queue-Count queue =
      Takes->>= _ (Flagged a n f) _ _ _ (Keeps-Holds (queue_is_low-Keeps e Flagged-IsFrame _))
        (λ low.
          Takes->> _ (Count a n) _ _ _ (branches-Count low)
            (search (state_rules, Keeps-Holds, call-Keeps, Count-IsFrame)))

module _ (e : Env) (a : Address) (n : ℕ) where
  pub callback-Count : Holds (Count a n) (cwdaemon_tone_queue_low_callback e)
  unfolding cwdaemon_tone_queue_low_callback
  callback-Count =
      Holds->>= _ _ (search (state_rules, Keeps-Holds, call-Keeps, Count-IsFrame)) (λ len.
        Takes-gets _ _
          (λ f. Takes->>= _ (Flagged a n f) _ _ _ (Holds-gets _) (low_queue-Count e a n f)))
