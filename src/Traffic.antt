-- ===== src/Traffic.antt =====
-- The datagrams that come in and go out: src/socket.c, and the requests and callbacks of
-- src/cwdaemon.c that prepare and send replies.
pub mod Rules
pub mod Requests
pub mod Receive
pub mod Start
pub mod Runs
use cwdaemon.Base.{ℕ, ◌+◌, Bool, true, false, ◌&&◌, List, [], ◌∷◌, ◌==◌, if◌then◌else◌, some, none}
use cwdaemon.World.Calls.{Call, Env, Address, sendto}
use cwdaemon.World.State.{Daemon, PttFlag}
use cwdaemon.World.Run.{Void, ◌>>◌, skip}
use cwdaemon.Reply.{Incoming, datagram}
use cwdaemon.Main.{Event, round, tone_queue_low, keying, react}

abbrev pub one_if : Bool → ℕ
one_if true = 1
one_if false = 0

-- The datagrams that were sent to an address.
abbrev pub sent_to : Address → List Call → ℕ
sent_to a [] = 0
sent_to a (sendto fd addr bytes ∷ t) = one_if (addr == a) + sent_to a t
sent_to a (_ ∷ t) = sent_to a t

-- The reply that is due to an address.
abbrev pub due_to : Address → Daemon → ℕ
due_to a s = one_if (s.ptt_flag.echo && s.reply_addr == a)

-- The datagrams that an event brings from an address.
abbrev pub arrives_from : Address → Event → ℕ
arrives_from a (round (some (datagram addr bytes))) = one_if (addr == a)
arrives_from a _ = 0

abbrev pub received_from : Address → List Event → ℕ
received_from a [] = 0
received_from a (ev ∷ evs) = arrives_from a ev + received_from a evs

-- A running daemon through events, the first one first.
unfoldable pub react_all : Env → List Event → Void
unfolding react
react_all e [] = skip
react_all e (ev ∷ evs) = react e ev >> react_all e evs
