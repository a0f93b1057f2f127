-- ===== src/Client/Session.antt =====
-- The whole session of examples/example.c with a running daemon.
use cwdaemon.Base.{
  ℕ, ◌≤◌, ◌≡◌, refl, false, Option, none, some, List, [], ◌∷◌, ℤ, length, All, arith, ◌∙◌, ap, sym,
  fun_ext, get_or,
}
use cwdaemon.World.Calls.{Env, CallsSucceed, IsLibcw, Address}
use cwdaemon.World.State.{Daemon, initial_daemon}
use cwdaemon.World.Run.{Outcome, ret, exit, fault, Void, ◌>>◌, ◌>>=◌, skip}
use cwdaemon.World.Keeps.{Returns, Returns->>=}
use cwdaemon.Reply.{datagram, Incoming}
use cwdaemon.Request.{cwdaemon_receive}
use cwdaemon.Main.{round, react, Running, later, main_round, receive_selected}
use cwdaemon.Invariant.{IsIdle}
use cwdaemon.Liveness.Runs.{asks_exit, react-Follows}
use cwdaemon.Client.{Step, key, sleep, netkeyer, session, Keyed, Request}
use cwdaemon.Client.Rounds.{round_of, for_client, carry_out}
use cwdaemon.Client.Ending.{IsDefaulted, session-IsDefaulted}
use cwdaemon.World.Yields.{Returns-both}
use cwdaemon.Client.Buffer.{NoNul}
use cwdaemon.Client.Trip.{IsCarried, is_stop, netkeyer-sends, asked, keyed}

-- The datagrams of a row of steps, the first first; `none` is a write outside of the client's
-- buffer.
abbrev joined : Option Keyed → Option (List (List ℕ)) → Option (List (List ℕ))
joined none rest = none
joined (some k) none = none
joined (some k) (some rest) = some (elim k.datagrams [ [] ↦ rest | d ∷ _ ↦ d ∷ rest ])

abbrev pub datagrams_of : (List ℕ → ℤ) → List Step → Option (List (List ℕ))
datagrams_of send [] = some []
datagrams_of send (sleep n ∷ steps) = datagrams_of send steps
datagrams_of send (key r value ∷ steps) = joined (netkeyer send r value) (datagrams_of send steps)

-- The daemon gets them, one in each of some rounds of its loop.
abbrev pub serve : Env → Address → List (List ℕ) → Void
serve e addr [] = skip
serve e addr (d ∷ ds) = react e (round (some (datagram addr d))) >> serve e addr ds

-- A step that does not end the daemon, with a value that its request can carry.
abbrev pub IsOrdinary : Step → Type 0
IsOrdinary (sleep n) = Unit
IsOrdinary (key r value) = (is_stop r ≡ false) × IsCarried r value

Returns-ret :
    {P : Daemon → Type 0} (o : Outcome (Unit {0}))
    → Returns P o
    → (t : Daemon) × (o ≡ ret tt t) × P t
Returns-ret (ret tt t) h = (t, refl, h)
Returns-ret (exit n t) h = elim h [ ]
Returns-ret (fault t) h = elim h [ ]

abbrev sent_first : Option Keyed → List ℕ
sent_first none = []
sent_first (some k) = get_or k.datagrams 0 []

module _ (e : Env) (l : IsLibcw e) (w : CallsSucceed e) (addr : Address) where
  round-round_of :
      (incoming : Incoming)
      → react e (round (some incoming)) ≡ round_of e (cwdaemon_receive e incoming)
  unfolding react main_round receive_selected
  round-round_of incoming = refl

  datagram-Running :
      (d : List ℕ) (s : Daemon)
      → Running e s
      → asks_exit d ≡ false
      → Returns (Running e) (react e (round (some (datagram addr d))) s)
  datagram-Running d s r h =
      let follows = react-Follows e l w s (round (some (datagram addr d))) r in
      let ends : Returns (IsIdle e) (react e (round (some (datagram addr d))) s) =
        rw h at follows in
      let (t, q, _) =
        Returns-ret {P = IsIdle e} (react e (round (some (datagram addr d))) s) ends in
      rw q (later s t (round (some (datagram addr d))) r q)

  serve-Running :
      (ds : List (List ℕ)) (s : Daemon)
      → All (λ d. asks_exit d ≡ false) ds
      → Running e s
      → Returns (Running e) (serve e addr ds s)
  unfolding ◌>>◌ ◌>>=◌ skip
  serve-Running [] s h r = r
  serve-Running (d ∷ ds) s (h, hs) r =
      Returns->>= (Running e) (Running e) (react e (round (some (datagram addr d))) s)
        (λ _. serve e addr ds) (datagram-Running d s r h) (λ _ t k. serve-Running ds t hs k)

  module _ (send : List ℕ → ℤ) where
    -- The datagram is the same one whatever the daemon's state is.
    netkeyer-receives :
        (r : Request) (value : List ℕ)
        → IsCarried r value
        → (buf : List ℕ) × (netkeyer send r value ≡ some (keyed send buf))
          × (asks_exit buf ≡ is_stop r)
          × (cwdaemon_receive e (datagram addr buf) ≡ for_client addr (asked e r value))
    netkeyer-receives r value h =
        let (buf, sends, stops, _) = netkeyer-sends e send r value addr initial_daemon h in
        (
          buf,
          sends,
          stops,
          fun_ext λ s.
              let (buf_s, sends_s, _, received) = netkeyer-sends e send r value addr s h in
              let same : buf ≡ buf_s = ap sent_first (sym sends ∙ sends_s) in rw same received,
        )

    steps-served :
        (steps : List Step)
        → All IsOrdinary steps
        → (ds : List (List ℕ)) × (datagrams_of send steps ≡ some ds)
          × All (λ d. asks_exit d ≡ false) ds
          × (serve e addr ds ≡ carry_out e addr steps)
    steps-served [] h = ([], refl, tt, refl)
    steps-served (sleep n ∷ steps) (_, hs) = steps-served steps hs
    steps-served (key r value ∷ steps) ((goes_on, carried), hs) =
        let (d, sends, stops, received) = netkeyer-receives r value carried in
        let (ds, rest, ordinary, served) = steps-served steps hs in
        (
          d ∷ ds,
          rw (sends, rest) refl,
          (stops ∙ goes_on, ordinary),
          ap (λ m. m >> serve e addr ds)
                (round-round_of (datagram addr d) ∙ ap (round_of e) received)
              ∙ ap (λ k. round_of e (for_client addr (asked e r value)) >> k) served,
        )

    steps-Running :
        (steps : List Step) (s : Daemon)
        → All IsOrdinary steps
        → Running e s
        → (ds : List (List ℕ)) × (datagrams_of send steps ≡ some ds)
          × (serve e addr ds ≡ carry_out e addr steps)
          × Returns (Running e) (carry_out e addr steps s)
    steps-Running steps s h r =
        let (ds, sends, ordinary, served) = steps-served steps h in
        let ends = serve-Running ds s ordinary r in (ds, sends, served, rw (sym served) ends)

-- The name of a device that the client's buffer can hold.
abbrev pub IsName : Option (List ℕ) → Type 0
IsName none = Unit
IsName (some name) = NoNul name × (length name ≤ 77)

script-IsOrdinary : All IsOrdinary (session none)
unfolding session
script-IsOrdinary = ground arith

session-IsOrdinary : (device : Option (List ℕ)) → IsName device → All IsOrdinary (session device)
unfolding session
session-IsOrdinary none h = script-IsOrdinary
session-IsOrdinary (some name) h = ((refl, h), script-IsOrdinary)

-- With libcw's limits, and if no call returns a negative number: the session of the example client,
-- with or without a device's name of at most 77 bytes and no NUL, stays within the client's buffer,
-- whatever `send` returns. A daemon that receives its datagrams, one in each round of its loop, does
-- exactly what the session's steps ask for by name, in their order and with their values, and
-- nothing else; and a running daemon comes to the end of each of these rounds, still runs, and has
-- its defaults in force again and is not in word mode.
pub session-Running :
    (e : Env) (send : List ℕ → ℤ) (addr : Address) (device : Option (List ℕ)) (s : Daemon)
    → IsLibcw e
    → CallsSucceed e
    → IsName device
    → Running e s
    → (ds : List (List ℕ)) × (datagrams_of send (session device) ≡ some ds)
      × (serve e addr ds ≡ carry_out e addr (session device))
      × Returns (λ t. Running e t × IsDefaulted t) (carry_out e addr (session device) s)
session-Running e send addr device s l w h r =
    let (ds, sends, served, ends) =
      steps-Running e l w addr send (session device) s (session-IsOrdinary device h) r in
    (
      ds,
      sends,
      served,
      Returns-both (Running e) IsDefaulted (carry_out e addr (session device) s) ends
          ((session-IsDefaulted e addr device).at s tt),
    )
