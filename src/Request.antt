-- ===== src/Request.antt =====
-- `cwdaemon_receive` of src/cwdaemon.c: one request, from the socket to its handler.
pub mod Silent
pub mod EchoTrip
use cwdaemon.Base.{ℕ, ◌+◌, not, List, leb, ◌==◌, if◌then◌else◌, length, get_or}
use cwdaemon.Utils.CString.{c_str}
use cwdaemon.World.Calls.{Env}
use cwdaemon.World.Run.{M, ◌>>=◌, ◌>>◌, pure, gets, stop}
use cwdaemon.Reply.{
  request_size_max, append_bounded, Incoming, Received, shut_down, error, no_request, request,
  cwdaemon_recvfrom,
}
use cwdaemon.Play.{set_queue, cwdaemon_play_request}
use cwdaemon.Escape.Dispatch.{cwdaemon_handle_escaped_request}

-- CWDAEMON_REQUEST_QUEUE_SIZE_MAX
abbrev pub request_queue_size_max : ℕ
request_queue_size_max = 4000

abbrev pub ascii_esc : ℕ
ascii_esc = 27

module _ (e : Env) where
  -- a request that does not begin with ESC, as a C string
  unfoldable pub receive_text : List ℕ → M ℕ
  unfolding append_bounded cwdaemon_play_request
  receive_text text = do
    queue ← gets (λ s. s.request_queue)
    if leb (length text + length queue) 3999
        then (do
          set_queue (append_bounded request_queue_size_max queue text)
          cwdaemon_play_request e
          pure 1)
        else pure 1

  unfoldable pub receive_request : List ℕ → M ℕ
  unfolding receive_text cwdaemon_handle_escaped_request c_str
  receive_request bytes =
      if not (get_or bytes 0 0 == ascii_esc)
      then receive_text (c_str bytes)
      else (do cwdaemon_handle_escaped_request e bytes; pure 0)

  unfoldable pub act_on : Received → M ℕ
  unfolding receive_request
  act_on shut_down = pure 0
  act_on error = stop 1
  act_on no_request = pure 0
  act_on (request bytes) = receive_request bytes

  unfoldable pub cwdaemon_receive : Incoming → M ℕ
  unfolding cwdaemon_recvfrom act_on
  cwdaemon_receive incoming = do
    received ← cwdaemon_recvfrom incoming request_size_max
    act_on received
