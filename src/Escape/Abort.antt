-- ===== src/Escape/Abort.antt =====
-- The request `<ESC>4` (src/cwdaemon.c, `cwdaemon_handle_escaped_request`).
use cwdaemon.Base.{ℕ, ◌≡◌, refl, true, false, List, [], ◌∷◌, ◌++◌, pos, arith, ltb_ℤ, if◌then◌else◌}
use cwdaemon.World.Calls.{Env, Call, Address, sendto, cw_flush_tone_queue, cw_wait_for_tone_queue}
use cwdaemon.World.State.{Daemon, no_ptt}
use cwdaemon.World.Keeps.{Returns}
use cwdaemon.World.Run.{ret, run}
use cwdaemon.Ptt.{change_ptt}
use cwdaemon.Reply.{cwdaemon_sendto}
use cwdaemon.Ptt.Release.{cwdaemon_set_ptt_off_lem}
use cwdaemon.Play.{set_queue}
use cwdaemon.Callback.Echo.{sent}
use cwdaemon.Escape.{esc_abort, break_text}

-- The datagrams that an abort sends, if a reply is due.
abbrev pub breaks : Daemon → List (Address × List ℕ)
breaks s = if s.ptt_flag.echo then (s.reply_addr, break_text) ∷ [] else []

-- What an abort leaves behind.
abbrev pub IsAborted : Daemon → Daemon → Type 0
IsAborted s t =
    (t.request_queue ≡ [])
    × (t.ptt_flag ≡ no_ptt)
    × (sent t.trace ≡ breaks s ++ sent s.trace)
    × (t.current ≡ s.current)

-- In word mode an abort changes nothing. In character mode it empties the queue and clears the PTT
-- flag; a client whose reply is due is sent "break" in its place, and no one else is sent anything.
-- No call returns a negative number.
pub esc_abort_lem :
    (e : Env) (s : Daemon)
    → ((t : List Call) (c : Call) → ltb_ℤ (e.returns t c) (pos 0) ≡ false)
    → (s.wordmode ≡ true → esc_abort e s ≡ ret tt s)
      × (s.wordmode ≡ false → Returns (IsAborted s) (esc_abort e s))
unfolding esc_abort change_ptt cwdaemon_sendto set_queue run
esc_abort_lem e s w =
    let quiet : List Call = cw_wait_for_tone_queue ∷ cw_flush_tone_queue ∷ s.trace in
    let told : List Call =
      cw_wait_for_tone_queue
      ∷ cw_flush_tone_queue
      ∷ sendto s.socket_descriptor s.reply_addr break_text
      ∷ s.trace in
    let quiet_off = cwdaemon_set_ptt_off_lem e (record s { request_queue = []; trace = quiet }) w in
    let told_off = cwdaemon_set_ptt_off_lem e (record s { request_queue = []; trace = told }) w in
    (λ h. rw h refl, λ h. rw h (ground arith))
