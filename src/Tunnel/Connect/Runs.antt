-- ===== src/Tunnel/Connect/Runs.antt =====
-- A run of ConnectAndTunnel against a server that accepts everything and has no QUIC, and one tick.
use nssh.Base.{true, [], ◌∷◌}
use nssh.Tunnel.Connect.Sample.{server}
use nssh.Daemon.Sample.{strings, sample_config}
use nssh.Stats.{new_stats_manager}
use nssh.Tunnel.Connect.Loop.{connect_and_tunnel, tick, closed}
use nssh.Tunnel.Connect.Ends.{IsOutcome, connect_and_tunnel-IsOutcome}

connect_and_tunnel-IsOutcome_example : IsOutcome sample_config (
    connect_and_tunnel server strings sample_config
      (tick ∷ closed true ∷ [])
      (new_stats_manager sample_config 1)
      []
      5)
connect_and_tunnel-IsOutcome_example =
    connect_and_tunnel-IsOutcome server strings sample_config (tick ∷ closed true ∷ [])
      (new_stats_manager sample_config 1) [] 5
