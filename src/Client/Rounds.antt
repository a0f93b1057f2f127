-- ===== src/Client/Rounds.antt =====
-- The steps of the client of examples/example.c, as what they ask the daemon for.
use cwdaemon.Base.{ℕ, List, [], ◌∷◌}
use cwdaemon.World.Calls.{Env, Address}
use cwdaemon.World.Run.{M, Void, ◌>>◌, ◌>>=◌, skip, gets}
use cwdaemon.Device.{dev_footswitch}
use cwdaemon.Main.{count_inactivity, follow_footswitch}
use cwdaemon.Client.{Step, key, sleep}
use cwdaemon.Client.Trip.{asked}

-- What a round of the loop does that reads the socket, if the request that it reads stands for `m`.
abbrev pub round_of : Env → M ℕ → Void
round_of e m = do
  count_inactivity e
  m >> skip
  dev ← gets (λ s. s.global_cwdevice)
  follow_footswitch e (dev_footswitch e dev) dev

abbrev pub for_client : Address → M ℕ → M ℕ
for_client addr m s = m (record s { request_addr = addr })

-- Each step of the client does to the daemon, in one round of the loop, what the step asks for.
abbrev pub carry_out : Env → Address → List Step → Void
carry_out e addr [] = skip
carry_out e addr (sleep n ∷ steps) = carry_out e addr steps
carry_out e addr (key r value ∷ steps) =
    round_of e (for_client addr (asked e r value)) >> carry_out e addr steps
