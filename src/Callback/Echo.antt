-- ===== src/Callback/Echo.antt =====
-- The reply that `cwdaemon_tone_queue_low_callback` of src/cwdaemon.c sends.
use cwdaemon.Base.{ℕ, ◌≤◌, ◌≡◌, Bool, true, false, ◌&&◌, List, [], ◌∷◌, ◌++◌, arith, length}
use cwdaemon.World.Calls.{Env, Call, Address, sendto, cw_get_tone_queue_length}
use cwdaemon.Utils.{is_empty}
use cwdaemon.World.State.{Daemon, PttFlag}
use cwdaemon.World.Keeps.{Returns}
use cwdaemon.World.Run.{run}
use cwdaemon.Ptt.{change_ptt, drop_echo, is_auto_only}
use cwdaemon.Reply.{crlf, cwdaemon_sendto}
use cwdaemon.Callback.{queue_is_low, send_reply, cwdaemon_tone_queue_low_callback}
use cwdaemon.Invariant.Callbacks.{ends_crlf-append, append_bounded-crlf}

abbrev sent_by : Call → List (Address × List ℕ)
sent_by (sendto fd addr bytes) = (addr, bytes) ∷ []
sent_by _ = []

-- The datagrams that were sent, the newest first.
abbrev pub sent : List Call → List (Address × List ℕ)
sent [] = []
sent (c ∷ t) = sent_by c ++ sent t

-- What a reply that is sent leaves behind.
abbrev pub IsReplied : Daemon → Daemon → Type 0
IsReplied s t =
    (sent t.trace ≡ (s.reply_addr, s.reply_buffer ++ crlf) ∷ sent s.trace)
    × (t.ptt_flag ≡ drop_echo s.ptt_flag)
    × (t.reply_buffer ≡ s.reply_buffer ++ crlf)
    × (t.current ≡ s.current)

not_low : (f : PttFlag) (b : Bool) → f.echo ≡ true → (is_auto_only f && b) ≡ false
not_low f b h = ground arith

pub send_reply_lem :
    (e : Env) (s : Daemon) → length s.reply_buffer ≤ 255 → Returns (IsReplied s) (send_reply e s)
unfolding send_reply change_ptt cwdaemon_sendto run
send_reply_lem e s b =
    let text = append_bounded-crlf s.reply_buffer b in
    let crlf_ok = ends_crlf-append s.reply_buffer in rw (text, crlf_ok) (ground arith)

-- While a reply is due and its buffer holds at most 255 bytes, the low tone queue sends exactly one
-- datagram, the reply with a CR and an LF behind it to the client that asked for it, clears the
-- echo bit alone and keeps the parameters.
pub tone_queue_low-reply :
    (e : Env) (s : Daemon)
    → s.ptt_flag.echo ≡ true
    → length s.reply_buffer ≤ 255
    → Returns (IsReplied s) (cwdaemon_tone_queue_low_callback e s)
unfolding cwdaemon_tone_queue_low_callback queue_is_low run
tone_queue_low-reply e s h b =
    let r = send_reply_lem e (record s { trace = cw_get_tone_queue_length ∷ s.trace }) b in
    rw (not_low s.ptt_flag (is_empty s.request_queue) h) (ground arith)
