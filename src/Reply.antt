-- ===== src/Reply.antt =====
-- `cwdaemon_prepare_reply` of src/cwdaemon.c, and the sending and receiving of src/socket.c.
pub mod Trim
use cwdaemon.Base.{
  ℕ, zero, suc, ◌+◌, ◌-◌, Bool, true, false, not, ◌&&◌, ◌||◌, Option, none, some, List, [], ◌∷◌,
  ◌++◌, leb, ◌==◌, if◌then◌else◌, ℤ, pos, negsuc, length, take,
}
use cwdaemon.World.Calls.{Call, Env, Address, sendto}
use cwdaemon.World.State.{Daemon, PttFlag}
use cwdaemon.World.Run.{M, Void, ◌>>=◌, ◌>>◌, pure, skip, gets, modify, require, call, perform}
use cwdaemon.Ptt.{add_echo, change_ptt}

-- CWDAEMON_REQUEST_SIZE_MAX and CWDAEMON_REPLY_SIZE_MAX; the reply's buffer has a byte for NUL too.
abbrev pub request_size_max : ℕ
request_size_max = 256

abbrev pub reply_size_max : ℕ
reply_size_max = 257

abbrev pub crlf : List ℕ
crlf = 13 ∷ 10 ∷ []

-- `reply` is always `reply_buffer`, where the write of `reply[n]` needs `n <= 257`.
unfoldable pub cwdaemon_prepare_reply : List ℕ → ℕ → Void
cwdaemon_prepare_reply request n = do
  change_ptt add_echo
  modify (λ s. record s { reply_addr = s.request_addr })
  require (leb n reply_size_max)
  modify (λ s. record s { reply_buffer = take n request })

-- `reply[len - 2] == '\r' && reply[len - 1] == '\n'`; a shorter reply is read out of bounds.
unfoldable pub ends_crlf : List ℕ → Bool
ends_crlf [] = false
ends_crlf (a ∷ []) = false
ends_crlf (a ∷ b ∷ []) = a == 13 && b == 10
ends_crlf (a ∷ b ∷ c ∷ s) = ends_crlf (b ∷ c ∷ s)

module _ (e : Env) where
  unfoldable pub cwdaemon_sendto : List ℕ → M ℤ
  unfolding ends_crlf
  cwdaemon_sendto reply = do
    require (ends_crlf reply)
    fd ← gets (λ s. s.socket_descriptor)
    addr ← gets (λ s. s.reply_addr)
    call e (sendto fd addr reply)

-- `snprintf(buf + len, size - len, "%s", text)`, where `buf` holds `s` and has `size` bytes.
unfoldable pub append_bounded : ℕ → List ℕ → List ℕ → List ℕ
append_bounded size s text = s ++ take (size - length s - 1) text

-- What `recvfrom` finds on the socket.
pub data Incoming : Type 0 where
  datagram : Address → List ℕ → Incoming
  -- EAGAIN or EWOULDBLOCK; any other error
  nothing failure : Incoming

-- The results of `cwdaemon_recvfrom`: -2, -1, 0, or the bytes of a request.
pub data Received : Type 0 where
  shut_down error no_request : Received
  request : List ℕ → Received

abbrev is_crlf : ℕ → Bool
is_crlf c = c == 10 || c == 13

-- The loop that removes the trailing CRs and LFs.
unfoldable pub trim_crlf : List ℕ → List ℕ
trim_crlf [] = []
trim_crlf (c ∷ s) = elim (trim_crlf s) [ [] ↦ if is_crlf c then [] else c ∷ [] | d ∷ t ↦ c ∷ d ∷ t ]

abbrev pub received_of : List ℕ → Received
received_of [] = no_request
received_of (c ∷ s) = request (c ∷ s)

abbrev pub accept_bytes : List ℕ → Received
accept_bytes [] = shut_down
accept_bytes (c ∷ s) = received_of (trim_crlf (c ∷ s))

-- At most `size` bytes of a datagram are stored.
unfoldable pub cwdaemon_recvfrom : Incoming → ℕ → M Received
unfolding trim_crlf
cwdaemon_recvfrom nothing size = pure no_request
cwdaemon_recvfrom failure size = pure error
cwdaemon_recvfrom (datagram addr bytes) size = do
  modify (λ s. record s { request_addr = addr })
  pure (accept_bytes (take size bytes))
