-- ===== src/Client/Foreground.antt =====
-- The client in the foreground (main.go): runClient and runClientWithStatsManager, which share their loop.
pub mod Waits
use nssh.Base.{ℕ, ◌*◌, Bool, Option, none, some, List, [], ◌∷◌, if◌then◌else◌}
use nssh.Base.Int.{pos_part}
use nssh.Base.Table.{Table}
use nssh.Config.{Config, Stdlib}
use nssh.Stats.{Stats}
use nssh.Transport.{TransportCacheEntry}
use nssh.Daemon.Supervisor.{second}
use nssh.Tunnel.Connect.{Outside, Tunnel, TunnelError}
use nssh.Tunnel.Connect.Loop.{Wakeup, Outcome, running, returned, connect_and_tunnel}

-- What a round of the loop meets: whether the context is done at its start, what ConnectAndTunnel waits
-- for, and whether the context is done before the delay is over.
pub record Round : Type 0 where
  pub done : Bool
  pub wakeups : List Wakeup
  pub done_waiting : Bool

-- One entry for each thing that the loop does: an attempt that has ended, a wait of so many nanoseconds,
-- and the return.
pub data Event : Type 0 where
  attempted : Option TunnelError → Event
  waited : ℕ → Event
  client_returned : Event

-- time.Duration(config.ReconnectDelay) * time.Second; a timer of a negative one fires at once.
abbrev pub client_delay : Config → ℕ
client_delay c = pos_part c.reconnect_delay * second

module _ {W : Type 0} (out : Outside W) (std : Stdlib) (c : Config) where
  -- What a round does behind ConnectAndTunnel; `again` is the rest of the loop.
  abbrev pub behind_attempt :
      Bool → (Stats → Table TransportCacheEntry → W → List Event) → Outcome W → List Event
  behind_attempt done_waiting again (running s t) = []
  behind_attempt done_waiting again (returned none t) =
      attempted none ∷ again t.stats t.cache t.world
  behind_attempt done_waiting again (returned (some e) t) =
      attempted (some e)
      ∷ waited (client_delay c)
      ∷ (if done_waiting then client_returned ∷ [] else again t.stats t.cache t.world)

  unfoldable pub run_client : List Round → Stats → Table TransportCacheEntry → W → List Event
  unfolding connect_and_tunnel
  run_client [] stats cache w = []
  run_client (r ∷ rs) stats cache w =
      let round =
        behind_attempt r.done_waiting (run_client rs)
          (connect_and_tunnel out std c r.wakeups stats cache w) in
      if r.done then client_returned ∷ [] else round
