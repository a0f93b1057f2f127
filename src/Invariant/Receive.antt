-- ===== src/Invariant/Receive.antt =====
-- The bytes of a datagram are cut to the size of the buffer, so every datagram keeps the invariant.
use cwdaemon.Base.{ℕ, ◌≤◌, ◌≡◌, List, [], ◌∷◌, arith, length, take, length-take}
use cwdaemon.World.Calls.{Env, IsLibcw}
use cwdaemon.World.State.{Daemon}
use cwdaemon.World.Run.{run}
use cwdaemon.World.Keeps.{Keeps}
use cwdaemon.Reply.{
  Incoming, datagram, nothing, failure, no_request, error, request, trim_crlf, accept_bytes,
  received_of, cwdaemon_recvfrom,
}
use cwdaemon.Request.{cwdaemon_receive}
use cwdaemon.Invariant.{IsIdle}
use cwdaemon.Invariant.Requests.{act_on-IsIdle}

pub length-trim_crlf : (s : List ℕ) → length (trim_crlf s) ≤ length s
unfolding trim_crlf
length-trim_crlf [] = omega arith
length-trim_crlf (c ∷ s) = ground (arith, length-trim_crlf s)

received_of-request : (s bytes : List ℕ) → received_of s ≡ request bytes → bytes ≡ s
received_of-request [] bytes h = cc
received_of-request (c ∷ s) bytes h = cc

accept_bytes-length : (s bytes : List ℕ) → accept_bytes s ≡ request bytes → length bytes ≤ length s
accept_bytes-length [] bytes h = cc
accept_bytes-length (c ∷ s) bytes h =
    rw (received_of-request (trim_crlf (c ∷ s)) bytes h) (length-trim_crlf (c ∷ s))

module _ {e : Env} (l : IsLibcw e) where
  from-IsIdle : (addr : ℕ) (s : Daemon) → IsIdle e s → IsIdle e (record s { request_addr = addr })
  from-IsIdle addr s i = ground arith

  -- Whatever the socket delivers, the daemon's variables stay within their limits, the registered
  -- keying callback stays the current device's, a reply that is due has room for its CR and LF, no
  -- text is left queued, and no write leaves its buffer and no `assert` fails, unless the daemon
  -- exits.
  pub cwdaemon_receive-IsIdle :
      (incoming : Incoming) → Keeps (IsIdle e) (cwdaemon_receive e incoming)
  unfolding cwdaemon_receive cwdaemon_recvfrom run
  cwdaemon_receive-IsIdle nothing = act_on-IsIdle l no_request (λ b h. cc)
  cwdaemon_receive-IsIdle failure = act_on-IsIdle l error (λ b h. cc)
  cwdaemon_receive-IsIdle (datagram addr bytes) = record {
    at = λ s i.
        (act_on-IsIdle l (accept_bytes (take 256 bytes)) (λ b h.
            omega (arith, accept_bytes-length (take 256 bytes) b h, length-take {0} 256 bytes))).at
          (record s { request_addr = addr }) (from-IsIdle addr s i);
  }
