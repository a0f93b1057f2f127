-- ===== src/Keyer/Texts.antt =====
-- What a client's text makes of a running daemon (`cwdaemon_receive` of src/cwdaemon.c).
use cwdaemon.Base.{
  ℕ, InRange, ◌≡◌, refl, true, false, List, [], ◌==◌, arith, get_or, take, length-take,
}
use cwdaemon.Utils.CString.{c_str}
use cwdaemon.World.Calls.{Env, Address, IsLibcw, CallsSucceed}
use cwdaemon.World.State.{Daemon}
use cwdaemon.World.Run.{run}
use cwdaemon.World.Keeps.{Returns}
use cwdaemon.World.Stays.{Kept-HasNoExit}
use cwdaemon.World.Yields.{Yields, Yields-Returns}
use cwdaemon.Reply.{datagram, trim_crlf, cwdaemon_recvfrom}
use cwdaemon.Request.{cwdaemon_receive}
use cwdaemon.Main.{Running}
use cwdaemon.Invariant.{IsIdle}
use cwdaemon.Invariant.Receive.{cwdaemon_receive-IsIdle}
use cwdaemon.Invariant.Runs.{Running-IsIdle}
use cwdaemon.Liveness.Runs.{asks_exit, receive-Stays, get_or-trim_crlf, get_or-take}
use cwdaemon.Settings.Runs.{Running-IsTold}
use cwdaemon.Keyer.Score.{RemembersGap, Station, show, score}
use cwdaemon.Keyer.Settled.{Shown, IsSettled, clamp_speed_within}
use cwdaemon.Keyer.Scored.{accepted-Scored}

abbrev pub from_client : Address → Station → Station
from_client a st = record st { keyer = record st.keyer { client = a } }

-- A text of the buffer's size, as a C string without its CRs and LFs at the end.
abbrev pub text_of : List ℕ → List ℕ
text_of bytes = c_str (trim_crlf (take 256 bytes))

first-trim_crlf :
    (bytes : List ℕ)
    → (get_or bytes 0 0 == 27) ≡ false
    → (get_or (trim_crlf (take 256 bytes)) 0 0 == 27) ≡ false
first-trim_crlf bytes h =
    let a = get_or-trim_crlf (take 256 bytes) 0 in let b = get_or-take 256 bytes 0 in ground arith

Running-IsSettled :
    (e : Env) (s : Daemon)
    → IsLibcw e
    → Running e s
    → s.has_audio_output ≡ true
    → IsSettled e (show s)
Running-IsSettled e s l r o =
    let i : IsIdle e s = Running-IsIdle l s r in
    let range : InRange e.speed_min e.speed_max s.current.morse_speed =
      let ok = i.speed_ok in ground arith in
    (clamp_speed_within e _ range, (Running-IsTold e s r o).0)

receive-Yields :
    (e : Env) (a : Address) (bytes : List ℕ) (s : Daemon)
    → IsLibcw e
    → RemembersGap e
    → IsIdle e s
    → IsSettled e (show s)
    → (get_or bytes 0 0 == 27) ≡ false
    → Yields
        (Shown (score e false [] (text_of bytes) (from_client a (show s))))
        (cwdaemon_receive e (datagram a bytes) s)
unfolding cwdaemon_receive cwdaemon_recvfrom run
receive-Yields e a bytes s l w i h first =
    (accepted-Scored e w (take 256 bytes) (from_client a (show s)) l (first-trim_crlf bytes first)
        (omega (arith, length-take {0} 256 bytes))).at
      (record s { request_addr = a }) ((refl, h), ground arith)

-- In a running daemon that has a sound output, a datagram that does not begin with ESC is handled to
-- its end. It makes of the keyer, and of what libcw was told, what `score` makes of the datagram's
-- text: the characters that are sent, each at its speed and with its gap, the speed, the PTT flag
-- and the reply; nothing else of the keyer changes but the client that it heard last. With libcw's
-- limits; no call returns a negative number, and libcw remembers the gap that it was told.
pub receive-score :
    (e : Env) (a : Address) (bytes : List ℕ) (s : Daemon)
    → IsLibcw e
    → CallsSucceed e
    → RemembersGap e
    → Running e s
    → s.has_audio_output ≡ true
    → (get_or bytes 0 0 == 27) ≡ false
    → Returns
        (λ t. show t ≡ score e false [] (text_of bytes) (from_client a (show s)))
        (cwdaemon_receive e (datagram a bytes) s)
receive-score e a bytes s l c w r o first =
    let i : IsIdle e s = Running-IsIdle l s r in
    let stays : asks_exit bytes ≡ false = rw first refl in
    Yields-Returns (IsIdle e) _ (cwdaemon_receive e (datagram a bytes) s)
      (Kept-HasNoExit (IsIdle e) (cwdaemon_receive e (datagram a bytes) s)
        ((cwdaemon_receive-IsIdle l (datagram a bytes)).at s i)
        ((receive-Stays e c (datagram a bytes) (rw stays refl)).at s))
      (receive-Yields e a bytes s l w i (Running-IsSettled e s l r o) first)
