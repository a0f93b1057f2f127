-- ===== src/Callback.antt =====
-- The functions of src/cwdaemon.c that libcw calls: `cwdaemon_keyingevent` and
-- `cwdaemon_tone_queue_low_callback`.
pub mod Echo
use cwdaemon.Base.{
  ℕ, Bool, true, false, not, ◌&&◌, List, [], ◌∷◌, if◌then◌else◌, ◌==◌, ℤ, pos, ltb_ℤ,
}
use cwdaemon.Utils.{is_empty}
use cwdaemon.World.Calls.{Call, Env, Kind, cw_get_tone_queue_length, cw_queue_tone}
use cwdaemon.World.State.{Daemon, PttFlag}
use cwdaemon.World.Run.{M, Void, ◌>>=◌, ◌>>◌, pure, skip, gets, modify, call, perform, when}
use cwdaemon.Device.{dev_cw}
use cwdaemon.Ptt.{change_ptt, drop_echo, is_auto_only, cwdaemon_set_ptt_off}
use cwdaemon.Reply.{reply_size_max, crlf, append_bounded, cwdaemon_sendto}

module _ (e : Env) where
  -- `dev` is the device that the callback was registered with.
  unfoldable pub cwdaemon_keyingevent : Kind → ℕ → Void
  unfolding dev_cw
  cwdaemon_keyingevent dev keystate = do
    dev_cw e dev (keystate == 1)
    modify (λ s. record s { inactivity_seconds = 0 })

  -- the third condition, read only if the first two hold
  unfoldable pub queue_is_low : Bool → M Bool
  queue_is_low false = pure false
  queue_is_low true = do len ← call e cw_get_tone_queue_length; pure (not (ltb_ℤ (pos 1) len))

  -- branch 2: the reply is sent
  unfoldable pub send_reply : Void
  unfolding append_bounded cwdaemon_sendto
  send_reply = do
    change_ptt drop_echo
    modify (λ s. record s { reply_buffer = append_bounded 258 s.reply_buffer crlf })
    reply ← gets (λ s. s.reply_buffer)
    cwdaemon_sendto e reply
    flag ← gets (λ s. s.ptt_flag)
    when (is_auto_only flag)
        (do perform (cw_queue_tone 1 (pos 0)); perform (cw_queue_tone 1 (pos 0)))

  unfoldable pub cwdaemon_tone_queue_low_callback : Void
  unfolding queue_is_low send_reply cwdaemon_set_ptt_off
  cwdaemon_tone_queue_low_callback = do
    len ← call e cw_get_tone_queue_length
    flag ← gets (λ s. s.ptt_flag)
    queue ← gets (λ s. s.request_queue)
    low ← queue_is_low (is_auto_only flag && is_empty queue)
    if low then cwdaemon_set_ptt_off e else when flag.echo send_reply
    final ← call e cw_get_tone_queue_length
    skip
