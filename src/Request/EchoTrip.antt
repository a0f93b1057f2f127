-- ===== src/Request/EchoTrip.antt =====
-- A text with a '^' from its datagram to the reply: `cwdaemon_receive` of src/cwdaemon.c, then
-- `cwdaemon_tone_queue_low_callback`.
use cwdaemon.Base.{
  ℕ, ◌+◌, ◌≤◌, ◌≡◌, refl, ap, ◌∙◌, Bool, true, false, not, ◌&&◌, List, [], ◌∷◌, ◌++◌, ◌==◌, arith,
  length, All, leb, take, take_all, length-append, get_or,
}
use cwdaemon.Utils.CString.{c_str}
use cwdaemon.World.Calls.{Env, Address}
use cwdaemon.World.State.{Daemon}
use cwdaemon.World.Keeps.{Returns, Returns-map, Returns->>=}
use cwdaemon.World.Run.{run, pure}
use cwdaemon.Reply.{
  crlf, datagram, trim_crlf, accept_bytes, append_bounded, request, cwdaemon_recvfrom,
}
use cwdaemon.Play.{set_queue, cwdaemon_play_request}
use cwdaemon.Play.Caret.{IsCalm, IsDue, is_plain, caret-prepares_reply}
use cwdaemon.Callback.{cwdaemon_tone_queue_low_callback}
use cwdaemon.Callback.Echo.{sent, IsReplied, tone_queue_low-reply}
use cwdaemon.Request.Silent.{HasSent, text-HasSent}
use cwdaemon.World.Yields.{Returns-both}
use cwdaemon.Request.{cwdaemon_receive, receive_text, receive_request, act_on}

-- An ordinary character that is neither NUL nor ESC.
abbrev pub is_spoken : ℕ → Bool
is_spoken c = is_plain c && not (c == 0) && not (c == 27)

-- `text^`
abbrev with_caret : List ℕ → List ℕ
with_caret text = text ++ b'^' ∷ []

spoken-plain :
    (text : List ℕ) → All (λ c. is_spoken c ≡ true) text → All (λ c. is_plain c ≡ true) text
spoken-plain [] h = tt
spoken-plain (c ∷ t) (h, hs) = (ground arith, spoken-plain t hs)

c_str-caret :
    (text : List ℕ) → All (λ c. is_spoken c ≡ true) text → c_str (with_caret text) ≡ with_caret text
unfolding c_str
c_str-caret [] h = refl
c_str-caret (c ∷ t) (h, hs) =
    let no_nul : (c == 0) ≡ false = ground arith in rw no_nul (ap (λ l. c ∷ l) (c_str-caret t hs))

trim_crlf-caret : (text : List ℕ) → trim_crlf (with_caret text) ≡ with_caret text
unfolding trim_crlf
trim_crlf-caret [] = refl
trim_crlf-caret (c ∷ []) = refl
trim_crlf-caret (c ∷ d ∷ t) = rw (trim_crlf-caret (d ∷ t)) refl

accept_bytes-caret : (text : List ℕ) → accept_bytes (with_caret text) ≡ request (with_caret text)
accept_bytes-caret [] = rw (trim_crlf-caret []) refl
accept_bytes-caret (c ∷ t) = rw (trim_crlf-caret (c ∷ t)) refl

first-caret :
    (text : List ℕ)
    → All (λ c. is_spoken c ≡ true) text
    → (get_or (with_caret text) 0 0 == 27) ≡ false
first-caret [] h = refl
first-caret (c ∷ t) (h, hs) = ground arith

receive_text-IsDue :
    (e : Env) (text : List ℕ) (s : Daemon)
    → IsCalm e
    → All (λ c. is_spoken c ≡ true) text
    → length text ≤ 255
    → s.request_queue ≡ []
    → Returns (IsDue s.request_addr text) (receive_text e (with_caret text) s)
unfolding receive_text set_queue append_bounded run
receive_text-IsDue e text s w h b q =
    let len = length-append text (b'^' ∷ []) in
    let fits : leb (length (with_caret text) + 0) 3999 ≡ true = ground arith in
    let whole : take 3999 (with_caret text) ≡ with_caret text = take_all 3999 _ (omega arith) in
    let queued : Daemon = record s { request_queue = with_caret text } in
    rw (q, fits, whole)
      (Returns->>= (λ t. IsDue s.request_addr text t × (t.request_queue ≡ []))
        (IsDue s.request_addr text) (cwdaemon_play_request e queued) (λ _. pure 1)
        (caret-prepares_reply e text [] queued w (spoken-plain text h) (omega arith) refl)
        (λ _ t d. d.0))

-- A daemon with the reply `text` due to `a` sends it.
due-sent :
    (e : Env) (a : Address) (text : List ℕ) (before : List (Address × List ℕ)) (t : Daemon)
    → length text ≤ 255
    → IsDue a text t
    → HasSent before t
    → Returns
        (λ u. sent u.trace ≡ (a, text ++ crlf) ∷ before)
        (cwdaemon_tone_queue_low_callback e t)
due-sent e a text before t b (buffer, addr, due) silent =
    Returns-map (IsReplied t) _ (cwdaemon_tone_queue_low_callback e t)
      (tone_queue_low-reply e t due (rw buffer b))
      (λ u r.
        rw (← addr, ← buffer) (r.0 ∙ ap (λ l. (t.reply_addr, t.reply_buffer ++ crlf) ∷ l) silent))

-- The datagram as a text, at the end of which its reply is due and nothing has been sent.
received-IsDue :
    (e : Env) (text : List ℕ) (s : Daemon)
    → IsCalm e
    → All (λ c. is_spoken c ≡ true) text
    → length text ≤ 255
    → s.request_queue ≡ []
    → Returns
        (λ t. IsDue s.request_addr text t × HasSent (sent s.trace) t)
        (receive_text e (with_caret text) s)
received-IsDue e text s w h b q =
    Returns-both (IsDue s.request_addr text) (HasSent (sent s.trace))
      (receive_text e (with_caret text) s) (receive_text-IsDue e text s w h b q)
      ((text-HasSent e (with_caret text)).at s refl)

-- A datagram from `a` that is a text of at most 255 ordinary characters with a '^' behind it, and
-- then a low tone queue: over both, exactly one datagram is sent, to `a`, and it is the text with a
-- CR and an LF behind it. No text is queued before, no call returns a negative number, no '~' is in
-- force, and the text has no NUL and no ESC.
pub echo_trip :
    (e : Env) (a : Address) (text : List ℕ) (s : Daemon)
    → IsCalm e
    → All (λ c. is_spoken c ≡ true) text
    → length text ≤ 255
    → s.request_queue ≡ []
    → Returns
        (λ t.
          Returns
            (λ u. sent u.trace ≡ (a, text ++ crlf) ∷ sent s.trace)
            (cwdaemon_tone_queue_low_callback e t))
        (cwdaemon_receive e (datagram a (text ++ b'^' ∷ [])) s)
unfolding cwdaemon_receive cwdaemon_recvfrom act_on receive_request run
echo_trip e a text s w h b q =
    let len = length-append text (b'^' ∷ []) in
    let whole : take 256 (with_caret text) ≡ with_caret text = take_all 256 _ (omega arith) in
    let asked : Daemon = record s { request_addr = a } in
    rw (whole, accept_bytes-caret text, first-caret text h, c_str-caret text h)
      (Returns-map (λ t. IsDue a text t × HasSent (sent s.trace) t) _
        (receive_text e (with_caret text) asked) (received-IsDue e text asked w h b q)
        (λ t (d, silent). due-sent e a text (sent s.trace) t b d silent))
