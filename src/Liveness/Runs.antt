-- ===== src/Liveness/Runs.antt =====
-- Which events end the process: `main` of src/cwdaemon.c and what it calls.
use cwdaemon.Base.{
  ℕ, zero, suc, ◌≡◌, ◌≢◌, refl, Bool, true, false, ◌&&◌, ◌⊎◌, inl, inr, Option, none, some, List,
  [], ◌∷◌, ◌==◌, arith, get_or, take, if◌then◌else◌, Bool-cases, subst, sym,
}
use cwdaemon.Utils.CString.{c_str}
use cwdaemon.World.Calls.{Env, CallsSucceed, IsLibcw, Kind, lp, Address}
use cwdaemon.World.State.{Daemon}
use cwdaemon.World.Run.{run}
use cwdaemon.World.Keeps.{Returns, Follows}
use cwdaemon.World.Stays.{
  Stays, Stays-skip, Stays->>, Stays->>=, Stays-pure, Stays-gets, Stays-modify, Kept-HasNoExit,
}
use cwdaemon.Device.{dev_footswitch}
use cwdaemon.Reply.{
  Incoming, datagram, nothing, failure, trim_crlf, received_of, accept_bytes, cwdaemon_recvfrom,
}
use cwdaemon.Escape.Dispatch.{exit_daemon, esc_code, cwdaemon_handle_escaped_request}
use cwdaemon.Request.{receive_request, act_on, cwdaemon_receive}
use cwdaemon.Main.{
  Event, round, tone_queue_low, keying, react, count_inactivity, follow_footswitch,
  receive_selected, main_round, Running,
}
use cwdaemon.Invariant.{IsIdle}
use cwdaemon.Invariant.Runs.{react-IsIdle, Running-IsIdle}
use cwdaemon.Shutdown.Release.{react-exit}
use cwdaemon.Liveness.Devices.{dev_ptt-Stays, lp_footswitch-Stays}
use cwdaemon.Liveness.Handlers.{keyingevent-Stays, callback-Stays}
use cwdaemon.Liveness.Requests.{dispatch-Stays, receive_text-Stays}

-- `<ESC>5`, with anything behind it.
abbrev pub asks_exit : List ℕ → Bool
asks_exit bytes = get_or bytes 0 0 == 27 && get_or bytes 1 0 == b'5'

-- The status that an event makes the process exit with.
abbrev pub exit_status : Event → Option ℕ
exit_status (round (some (datagram addr bytes))) = if asks_exit bytes then some 0 else none
exit_status (round (some failure)) = some 1
exit_status _ = none

-- A byte of a trimmed text is that of the text, or lies behind its end.
pub get_or-trim_crlf :
    (s : List ℕ) (i : ℕ)
    → (get_or (trim_crlf s) i 0 ≡ 0) ⊎ (get_or (trim_crlf s) i 0 ≡ get_or s i 0)
unfolding trim_crlf
get_or-trim_crlf [] i = inl refl
get_or-trim_crlf (c ∷ s) zero = ground arith
get_or-trim_crlf (c ∷ s) (suc i) = let rest = get_or-trim_crlf s i in ground arith

pub get_or-take :
    (n : ℕ) (s : List ℕ) (i : ℕ)
    → (get_or (take n s) i 0 ≡ 0) ⊎ (get_or (take n s) i 0 ≡ get_or s i 0)
get_or-take zero s i = inl refl
get_or-take (suc n) [] i = inl refl
get_or-take (suc n) (c ∷ s) zero = inr refl
get_or-take (suc n) (c ∷ s) (suc i) = get_or-take n s i

-- A request that was cut to its buffer and trimmed does not ask for the exit if its datagram does
-- not.
asks_exit-trim_crlf :
    (n : ℕ) (bytes : List ℕ)
    → asks_exit bytes ≡ false
    → asks_exit (trim_crlf (take n bytes)) ≡ false
asks_exit-trim_crlf n bytes h =
    let a = get_or-trim_crlf (take n bytes) 0 in
    let b = get_or-trim_crlf (take n bytes) 1 in
    let c = get_or-take n bytes 0 in let d = get_or-take n bytes 1 in ground arith

none-asks_exit :
    (addr : Address) (bytes : List ℕ)
    → exit_status (round (some (datagram addr bytes))) ≡ none
    → asks_exit bytes ≡ false
none-asks_exit addr bytes h = ground arith

code-ne-exit : (c : ℕ) → (c == b'5') ≡ false → esc_code c ≢ exit_daemon
unfolding esc_code
code-ne-exit c h q = ground arith

module _ (e : Env) (w : CallsSucceed e) where
  receive_request-Stays :
      (bytes : List ℕ) → asks_exit bytes ≡ false → Stays (receive_request e bytes)
  unfolding receive_request cwdaemon_handle_escaped_request
  receive_request-Stays bytes h = elim (Bool-cases (get_or bytes 0 0 == 27)) [
    | inl p ↦ rw p (
        Stays->> _ _ (dispatch-Stays e w _ _ _ (code-ne-exit (get_or bytes 1 0) (rw p at h)))
          (Stays-pure 0))
    | inr p ↦ rw p (receive_text-Stays e w (c_str bytes))
  ]

  received-Stays : (bytes : List ℕ) → asks_exit bytes ≡ false → Stays (act_on e (received_of bytes))
  unfolding act_on
  received-Stays [] h = Stays-pure 0
  received-Stays (c ∷ s) h = receive_request-Stays (c ∷ s) h

  accepted-Stays :
      (bytes : List ℕ) → asks_exit (trim_crlf bytes) ≡ false → Stays (act_on e (accept_bytes bytes))
  unfolding act_on
  accepted-Stays [] h = Stays-pure 0
  accepted-Stays (c ∷ s) h = received-Stays (trim_crlf (c ∷ s)) h

  pub receive-Stays :
      (incoming : Incoming)
      → exit_status (round (some incoming)) ≡ none
      → Stays (cwdaemon_receive e incoming)
  unfolding cwdaemon_receive cwdaemon_recvfrom act_on run
  receive-Stays nothing h = record { at = λ s. tt }
  receive-Stays failure h = absurd (ground arith)
  receive-Stays (datagram addr bytes) h = record {
    at = λ s.
        (accepted-Stays (take 256 bytes)
            (asks_exit-trim_crlf 256 bytes (none-asks_exit addr bytes h))).at
          (record s { request_addr = addr });
  }

  selected-Stays :
      (selected : Option Incoming)
      → exit_status (round selected) ≡ none
      → Stays (receive_selected e selected)
  unfolding receive_selected
  selected-Stays none h = Stays-skip
  selected-Stays (some incoming) h = Stays->> _ _ (receive-Stays incoming h) Stays-skip

  footswitch-Stays : (k dev : Kind) → Stays (follow_footswitch e (dev_footswitch e k) dev)
  unfolding follow_footswitch dev_footswitch
  footswitch-Stays lp dev =
      Stays->>= _ _ (lp_footswitch-Stays e w) (λ state. dev_ptt-Stays e w dev _)
  footswitch-Stays _ dev = Stays-skip

  react-Stays : (ev : Event) → exit_status ev ≡ none → Stays (react e ev)
  unfolding react main_round count_inactivity
  react-Stays (round selected) h = Stays->> _ _ (Stays-modify _) (
      Stays->> _ _ (selected-Stays selected h)
        (Stays->>= _ _ (Stays-gets _) (λ dev. footswitch-Stays dev dev)))
  react-Stays tone_queue_low h = callback-Stays e w
  react-Stays (keying k state) h = keyingevent-Stays e w k state

asks_exit-shape :
    (bytes : List ℕ) → asks_exit bytes ≡ true → (rest : List ℕ) × (bytes ≡ 27 ∷ b'5' ∷ rest)
asks_exit-shape [] h = absurd (ground arith)
asks_exit-shape (a ∷ []) h = absurd (ground arith)
asks_exit-shape (a ∷ b ∷ rest) h = (rest, ground arith)

module _ (e : Env) (l : IsLibcw e) (w : CallsSucceed e) where
  react-Returns :
      (s : Daemon) (ev : Event)
      → Running e s
      → exit_status ev ≡ none
      → Returns (IsIdle e) (react e ev s)
  react-Returns s ev r h =
      Kept-HasNoExit (IsIdle e) (react e ev s) ((react-IsIdle l ev).at s (Running-IsIdle l s r))
        ((react-Stays e w ev h).at s)

  datagram-Follows :
      (addr : Address) (bytes : List ℕ) (s : Daemon)
      → Running e s
      → Follows
          (IsIdle e)
          (exit_status (round (some (datagram addr bytes))))
          (react e (round (some (datagram addr bytes))) s)
  datagram-Follows addr bytes s r = elim (Bool-cases (asks_exit bytes)) [
    | inl p ↦
        let (rest, q) = asks_exit-shape bytes p in
        subst
          (λ b.
            Follows (IsIdle e) (exit_status (round (some (datagram addr b))))
              (react e (round (some (datagram addr b))) s))
          (sym q) (subst (Follows (IsIdle e) (some 0)) (sym (react-exit e addr rest s)) refl)
    | inr p ↦ rw p (react-Returns s (round (some (datagram addr bytes))) r (rw p refl))
  ]

  -- With libcw's limits, and if no call returns a negative number: a daemon that runs exits with
  -- the status 0 when it gets `<ESC>5`, with anything behind it, and with 1 when its socket cannot
  -- be read. Every other event, be it any other datagram, a low tone queue or a change of the key,
  -- is handled to its end and leaves the daemon with no text queued and with the rest of its
  -- invariant.
  pub react-Follows :
      (s : Daemon) (ev : Event) → Running e s → Follows (IsIdle e) (exit_status ev) (react e ev s)
  unfolding react main_round count_inactivity receive_selected cwdaemon_receive cwdaemon_recvfrom
      act_on run
  react-Follows s (round (some (datagram addr bytes))) r = datagram-Follows addr bytes s r
  react-Follows s (round (some failure)) r = refl
  react-Follows s (round (some nothing)) r = react-Returns s (round (some nothing)) r refl
  react-Follows s (round none) r = react-Returns s (round none) r refl
  react-Follows s tone_queue_low r = react-Returns s tone_queue_low r refl
  react-Follows s (keying k state) r = react-Returns s (keying k state) r refl
