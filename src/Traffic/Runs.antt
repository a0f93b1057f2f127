-- ===== src/Traffic/Runs.antt =====
-- The daemon sends no more datagrams to an address than it received from it.
use cwdaemon.Base.{ℕ, ◌+◌, ◌≤◌, ◌≡◌, Bool, Option, none, some, List, [], ◌∷◌, arith}
use cwdaemon.World.Calls.{Env, Address}
use cwdaemon.World.State.{Daemon, initial_daemon}
use cwdaemon.World.Run.{ret, run}
use cwdaemon.World.Yields.{
  state_rules, Takes, Keeps-Holds, Yields-ret, Takes->>=, Takes->>, Takes-last, Holds-skip,
  Holds-gets,
}
use cwdaemon.Reply.{Incoming, datagram, nothing, failure}
use cwdaemon.Request.{act_on, cwdaemon_receive}
use cwdaemon.Main.{receive_selected, main_round, Event, round, tone_queue_low, keying, react, start}
use cwdaemon.Frame.Handlers.{footswitch-Keeps, keyingevent-Keeps}
use cwdaemon.Traffic.{sent_to, due_to, arrives_from, received_from, react_all}
use cwdaemon.Traffic.Rules.{Count, Count-IsFrame, Count-IsRemote}
use cwdaemon.Args.{Arg}
use cwdaemon.Traffic.Start.{start-Count}
use cwdaemon.Traffic.Receive.{datagram-Done, callback-Count}

module _ (e : Env) (a : Address) where
  ruleset count_rules = (state_rules, Keeps-Holds, Count-IsFrame, Count-IsRemote)

  selected-Count :
      (n : ℕ) (selected : Option Incoming)
      → Takes
          (Count a n)
          (Count a (n + arrives_from a (round selected)))
          (receive_selected e selected)
  unfolding receive_selected cwdaemon_receive act_on run
  selected-Count n none = Takes-last (λ s i. omega (arith, i)) Holds-skip
  selected-Count n (some nothing) = record { at = λ s i. omega (arith, i) }
  selected-Count n (some failure) = record { at = λ s i. tt }
  selected-Count n (some (datagram addr bytes)) =
      Takes->> _ _ _ _ _ (datagram-Done e a addr n bytes) Holds-skip

  react-Count :
      (n : ℕ) (ev : Event) → Takes (Count a n) (Count a (n + arrives_from a ev)) (react e ev)
  unfolding react main_round
  react-Count n (round selected) = Takes->> _ (Count a n) _ _ _ (search count_rules) (
      Takes->> _ _ _ _ _ (selected-Count n selected)
        (Takes->>= _ _ _ _ _ (Holds-gets _) (λ dev. search (count_rules, footswitch-Keeps))))
  react-Count n tone_queue_low = Takes-last (λ s i. omega (arith, i)) (callback-Count e a n)
  react-Count n (keying k state) =
      Takes-last {R = Count a n} (λ s i. omega (arith, i)) (search (count_rules, keyingevent-Keeps))

  all-Count :
      (evs : List Event) (n : ℕ)
      → Takes (Count a n) (Count a (n + received_from a evs)) (react_all e evs)
  unfolding react_all
  all-Count [] n = Takes-last (λ s i. omega (arith, i)) Holds-skip
  all-Count (ev ∷ evs) n =
      Takes->> _ _ _ _ _ (react-Count n ev)
        (Takes-last (λ s i. omega (arith, i)) (all-Count evs (n + arrives_from a ev)))

-- From any state.
pub react_all-bounded :
    (e : Env) (evs : List Event) (a : Address) (s t : Daemon)
    → react_all e evs s ≡ ret tt t
    → sent_to a t.trace + due_to a t ≤ sent_to a s.trace + due_to a s + received_from a evs
react_all-bounded e evs a s t q =
    let n : ℕ = sent_to a s.trace + due_to a s in
    Yields-ret (Count a (n + received_from a evs)) (react_all e evs s) tt t
      ((all-Count e a evs n).at s (omega arith)) q

-- A daemon that was started with any command line, and to which any events happened in any order,
-- has sent no more datagrams to an address than arrived from that address since the start; a reply
-- that is still due to the address counts as one that was sent.
pub replies-bounded :
    (e : Env) (args : List Arg) (left : Bool) (evs : List Event) (a : Address) (s t : Daemon)
    → start e args left initial_daemon ≡ ret tt s
    → react_all e evs s ≡ ret tt t
    → sent_to a t.trace + due_to a t ≤ received_from a evs
replies-bounded e args left evs a s t p q =
    let silent =
      Yields-ret (Count a 0) (start e args left initial_daemon) tt s
        ((start-Count e a 0 args left).at initial_daemon (ground arith)) p in
    omega (arith, silent, react_all-bounded e evs a s t q)
