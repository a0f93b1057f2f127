-- ===== src/Keyer/Scored.antt =====
-- A text from its datagram to libcw (`cwdaemon_receive` of src/cwdaemon.c).
use cwdaemon.Base.{
  sym, ◌≤◌, ◌+◌, take, get_or, ℕ, ◌≡◌, refl, Bool, true, false, List, [], ◌∷◌, ◌++◌, ◌==◌, arith,
  Bool-cases, inl, inr, ◌∙◌, length, leb, take_all,
}
use cwdaemon.World.Calls.{Env, IsLibcw}
use cwdaemon.World.Yields.{
  Takes, state_rules, Takes->>, Takes-if, Takes-first, Holds-pure, Takes-modify, Holds-skip,
  Takes-read, Holds-when,
}
use cwdaemon.Utils.CString.{c_str, length-c_str}
use cwdaemon.Request.{receive_text, receive_request, act_on}
use cwdaemon.Invariant.Receive.{length-trim_crlf}
use cwdaemon.Reply.{append_bounded, received_of, accept_bytes, trim_crlf}
use cwdaemon.Play.{set_queue, is_speed_sign, play_loop, cwdaemon_play_request}
use cwdaemon.Keyer.Settled.{
  At, waits, Shown, Settled, ready, change_speed-Waits, gap-Settled, caret-Shown, queue-Settled,
  settle-IsSettled, settle_again,
}
use cwdaemon.Keyer.Characters.{play_character-Settled, after_character-Settled}
use cwdaemon.Keyer.Score.{RemembersGap, Station, hasten, settle, key, starred, score}

module _ (e : Env) (w : RemembersGap e) where
  pub play_loop-Scored :
      (l : IsLibcw e) (literal : Bool) (before rest : List ℕ) (st : Station)
      → Takes
          (At e literal rest st)
          (Shown (score e literal before rest st))
          (play_loop e literal before rest)
  unfolding play_loop score
  play_loop-Scored l true before [] st = Takes-first (waits e false st) Holds-skip
  play_loop-Scored l false before [] st = Holds-skip
  play_loop-Scored l true before (c ∷ rest) st =
      Takes-first (ready e false rest st) (play_loop-Scored l false (before ++ c ∷ []) rest st)
  play_loop-Scored l false before (c ∷ rest) st =
      let u : Station = settle e st in
      let on = λ (b : Bool) (v : Station).
        Takes-first (ready e b rest v) (play_loop-Scored l b (before ++ starred c ∷ []) rest v) in
      elim (Bool-cases (is_speed_sign c)) [
        | inl sign ↦
            rw (sign, score)
              (Takes->> _ _ _ _ _ (change_speed-Waits e c rest st)
                (play_loop-Scored l false (before ++ starred c ∷ []) rest (hasten c st)))
        | inr other ↦
            rw (other, score)
              (Takes-first {R = Settled e u} (λ s i. (i, settle-IsSettled e st l))
                (Takes-if (c == b'~') _ _
                  (λ gap.
                    rw (gap, score)
                      (Takes->> _ _ _ _ _ (gap-Settled e 2 u) (on false (record u { gap = 2 }))))
                  (λ not_gap.
                    rw (not_gap, score)
                      (Takes-if (c == b'^') _ _
                        (λ caret.
                          rw (caret, score) (Takes-first (λ s i. i.0) (caret-Shown e before u)))
                        (λ plain.
                          rw (plain, score)
                            (Takes->> _ (Settled e u) _ _ _
                              (Holds-when (c == b'*') _ (queue-Settled e _ u))
                              (Takes->> _ (Settled e (key (starred c) u)) _ _ _
                                (play_character-Settled e (starred c) u)
                                (after_character-Settled e w rest (key (starred c) u) _ _
                                  (on _ _)))))))))
      ]

  pub play_request-Scored :
      (text : List ℕ) (st : Station)
      → IsLibcw e
      → Takes
          (λ s. Settled e st s × (s.request_queue ≡ text))
          (Shown (score e false [] text st))
          (cwdaemon_play_request e)
  unfolding cwdaemon_play_request set_queue
  play_request-Scored text st l =
      Takes-read _ _ text (λ s i. i.1)
        (Takes->> _ (Shown (score e false [] text st)) _ _ _
          (Takes-first (λ s i. ready e false text st s i.0) (play_loop-Scored l false [] text st))
          (search state_rules))

  -- The text as it stands in the queue, which holds nothing else.
  receive_text-Scored :
      (text : List ℕ) (st : Station)
      → IsLibcw e
      → length text ≤ 256
      → Takes
          (λ s. Settled e st s × (s.request_queue ≡ []))
          (Shown (score e false [] text st))
          (receive_text e text)
  unfolding receive_text set_queue append_bounded
  receive_text-Scored text st l b =
      let fits : leb (length text + 0) 3999 ≡ true = ground arith in
      let whole : take 3999 text ≡ text = take_all 3999 text (omega arith) in
      Takes-read _ _ [] (λ s i. i.1)
        (rw (fits, whole)
          (Takes->> _ (λ s. Settled e st s × (s.request_queue ≡ text)) _ _ _
            (Takes-modify _ (λ t i. (i.0, refl)))
            (Takes->> _ (Shown (score e false [] text st)) _ _ _ (play_request-Scored text st l)
              (Holds-pure 1))))

  received-Scored :
      (bytes : List ℕ) (st : Station)
      → IsLibcw e
      → (get_or bytes 0 0 == 27) ≡ false
      → length bytes ≤ 256
      → Takes
          (λ s. Settled e st s × (s.request_queue ≡ []))
          (Shown (score e false [] (c_str bytes) st))
          (act_on e (received_of bytes))
  unfolding act_on receive_request c_str score
  received-Scored [] st l h b =
      Takes-first (λ s i. i.0.0 ∙ sym (settle_again e st i.0.1)) (Holds-pure 0)
  received-Scored (c ∷ s) st l h b =
      rw h (receive_text-Scored (c_str (c ∷ s)) st l (omega (arith, length-c_str (c ∷ s))))

  pub accepted-Scored :
      (bytes : List ℕ) (st : Station)
      → IsLibcw e
      → (get_or (trim_crlf bytes) 0 0 == 27) ≡ false
      → length bytes ≤ 256
      → Takes
          (λ s. Settled e st s × (s.request_queue ≡ []))
          (Shown (score e false [] (c_str (trim_crlf bytes)) st))
          (act_on e (accept_bytes bytes))
  unfolding act_on trim_crlf
  accepted-Scored [] st l h b = received-Scored [] st l h b
  accepted-Scored (c ∷ s) st l h b =
      received-Scored (trim_crlf (c ∷ s)) st l h (omega (arith, length-trim_crlf (c ∷ s)))
