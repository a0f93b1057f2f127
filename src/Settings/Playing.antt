-- ===== src/Settings/Playing.antt =====
-- The playing of a text (`cwdaemon_play_request` of src/cwdaemon.c) tells libcw the speed at the
-- end of every run of '+' and '-'.
use cwdaemon.Base.{
  ℕ, ◌≡◌, refl, Bool, true, false, not, ◌&&◌, List, [], ◌∷◌, ◌++◌, ◌==◌, if◌then◌else◌, Bool-cases,
  inl, inr,
}
use cwdaemon.World.Calls.{Env}
use cwdaemon.World.State.{Daemon}
use cwdaemon.World.Run.{run}
use cwdaemon.World.Yields.{
  Takes, Holds, state_rules, Takes->>=, Takes->>, Takes-if, Takes-first, Holds-skip, Holds-pure,
  Takes-stop, Holds->>, Holds->>=, Holds-gets,
}
use cwdaemon.Play.{
  set_queue, set_speed, is_speed_sign, head_is, change_speed, handle_caret, play_loop,
  cwdaemon_play_request,
}
use cwdaemon.Escape.Dispatch.{cwdaemon_handle_escaped_request}
use cwdaemon.Reply.{
  Incoming, Received, shut_down, error, no_request, request, cwdaemon_recvfrom, datagram, nothing,
  failure,
}
use cwdaemon.Request.{receive_text, receive_request, act_on, cwdaemon_receive}
use cwdaemon.Callback.{send_reply, cwdaemon_tone_queue_low_callback}
use cwdaemon.Frame.{call-Keeps}
use cwdaemon.Frame.Handlers.{after_character-Keeps, queue_is_low-Keeps}
use cwdaemon.Frame.Flags.{play_character-Keeps, set_ptt_off-Keeps, drop_echo-Keeps}
use cwdaemon.Settings.{Agrees, AgreesNearly}
use cwdaemon.Settings.Requests.{agrees_rules, prepare-Agrees, sendto-Agrees, dispatch-Agrees}

-- Whether libcw may still have an older speed at a character.
abbrev MayLag : Bool → Daemon → Type 0
MayLag true = AgreesNearly
MayLag false = Agrees

abbrev InRun : Bool → List ℕ → Daemon → Type 0
InRun jump rest = MayLag (not jump && head_is is_speed_sign rest)

loosen : (b : Bool) (s : Daemon) → Agrees s → MayLag b s
loosen true s i = λ o. (i o).1
loosen false s i = i

settle :
    (c : ℕ) (rest : List ℕ)
    → is_speed_sign c ≡ false
    → (s : Daemon) → InRun false (c ∷ rest) s
    → Agrees s
settle c rest h s i = rw h at i

nearly : (b : Bool) (s : Daemon) → MayLag b s → AgreesNearly s
nearly true s i = i
nearly false s i = λ o. (i o).1

module _ (e : Env) where
  change_speed-InRun :
      (c : ℕ) (rest : List ℕ) → Takes AgreesNearly (InRun false rest) (change_speed e c rest)
  unfolding change_speed set_speed run
  change_speed-InRun c rest = record {
    at = λ s i. elim (Bool-cases (head_is is_speed_sign rest)) [
      | inl h ↦ rw h i
      | inr h ↦ rw h (λ o. (refl, i o))
    ];
  }

  caret-Agrees : (done : List ℕ) → Holds Agrees (handle_caret e done)
  unfolding handle_caret set_queue
  caret-Agrees done = search (state_rules, prepare-Agrees)

  play_loop-Agrees :
      (jump : Bool) (done rest : List ℕ)
      → Takes (InRun jump rest) Agrees (play_loop e jump done rest)
  unfolding play_loop set_queue
  play_loop-Agrees true done [] = Holds-skip
  play_loop-Agrees false done [] = Holds-skip
  play_loop-Agrees true done (c ∷ rest) =
      Takes-first (loosen (head_is is_speed_sign rest))
        (play_loop-Agrees false (done ++ c ∷ []) rest)
  play_loop-Agrees false done (c ∷ rest) =
      let c' : ℕ = if c == b'*' then b'+' else c in
      let next = λ (b : Bool). play_loop-Agrees b (done ++ c' ∷ []) rest in
      Takes-if (is_speed_sign c) _ _
        (λ sign.
          Takes->> _ _ _ _ _ (Takes-first (nearly (is_speed_sign c)) (change_speed-InRun c rest))
            (next false))
        (λ other. Takes-first (settle c rest other) (
          Takes-if (c == b'~') _ _
            (λ gap.
              Takes->> _ Agrees _ _ _ (search agrees_rules)
                (Takes-first (loosen (head_is is_speed_sign rest)) (next false)))
            (λ not_gap.
              Takes-if (c == b'^') _ _ (λ caret. caret-Agrees done)
                (λ plain. Takes->> _ Agrees _ _ _ (search agrees_rules) (
                  Takes->> _ Agrees _ _ _ (search (agrees_rules, play_character-Keeps)) (
                    Takes->>= _ Agrees _ _ _ (search (agrees_rules, after_character-Keeps))
                      (λ jumps.
                        Takes-first (loosen (not jumps && head_is is_speed_sign rest))
                          (next jumps))))))))

  play_request-Agrees : Holds Agrees (cwdaemon_play_request e)
  unfolding cwdaemon_play_request set_queue
  play_request-Agrees = Holds->>= _ _ (Holds-gets _) (λ queue.
      Holds->> _ _
        (Takes-first (loosen (head_is is_speed_sign queue)) (play_loop-Agrees false [] queue))
        (search state_rules))

  text-Agrees : (text : List ℕ) → Holds Agrees (receive_text e text)
  unfolding receive_text set_queue
  text-Agrees text = search (state_rules, play_request-Agrees) depth 9

  request-Agrees : (bytes : List ℕ) → Holds Agrees (receive_request e bytes)
  unfolding receive_request cwdaemon_handle_escaped_request
  request-Agrees bytes = search (state_rules, text-Agrees, dispatch-Agrees) depth 9

  act_on-Agrees : (r : Received) → Holds Agrees (act_on e r)
  unfolding act_on
  act_on-Agrees shut_down = Holds-pure 0
  act_on-Agrees error = Takes-stop 1
  act_on-Agrees no_request = Holds-pure 0
  act_on-Agrees (request bytes) = request-Agrees bytes

  recvfrom-Agrees : (incoming : Incoming) (n : ℕ) → Holds Agrees (cwdaemon_recvfrom incoming n)
  unfolding cwdaemon_recvfrom
  recvfrom-Agrees nothing n = Holds-pure _
  recvfrom-Agrees failure n = Holds-pure _
  recvfrom-Agrees (datagram addr bytes) n = search state_rules

  pub receive-Agrees : (incoming : Incoming) → Holds Agrees (cwdaemon_receive e incoming)
  unfolding cwdaemon_receive
  receive-Agrees incoming = search (state_rules, recvfrom-Agrees, act_on-Agrees)

  send_reply-Agrees : Holds Agrees (send_reply e)
  unfolding send_reply
  send_reply-Agrees = search (agrees_rules, drop_echo-Keeps, sendto-Agrees) depth 12

  pub callback-Agrees : Holds Agrees (cwdaemon_tone_queue_low_callback e)
  unfolding cwdaemon_tone_queue_low_callback
  callback-Agrees =
      search (agrees_rules, call-Keeps, send_reply-Agrees, queue_is_low-Keeps, set_ptt_off-Keeps)
        depth 12
