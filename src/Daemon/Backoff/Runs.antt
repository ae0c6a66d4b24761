-- ===== src/Daemon/Backoff/Runs.antt =====
-- Runs of the back-off: two rejections, a tunnel that breaks, and a third rejection.
use nssh.Base.{ℕ, ◌≤◌, ◌≡◌, refl, true, false, some, List, [], ◌∷◌}
use nssh.Daemon.Worker.{new_worker}
use nssh.Daemon.Backoff.{Attempt, rejected, broken}
use nssh.Daemon.Backoff.{after_attempt}
use nssh.Daemon.Backoff.Attempts.{outcome_of, after_attempt-keeps_streak}
use nssh.Stats.{new_stats_manager}
use nssh.Tunnel.Connect.{connection_closed}
use nssh.Tunnel.Connect.Loop.{tick, closed, connect_and_tunnel}
use nssh.Tunnel.Connect.Sample.{server, left_over}
use nssh.Daemon.Sample.{strings, sample_config}

abbrev four_attempts : List Attempt
four_attempts =
    record { ended = 1; outcome = rejected; jitter = 0 }
    ∷ record { ended = 2; outcome = rejected; jitter = 0 }
    ∷ record { ended = 3; outcome = broken; jitter = 0 }
    ∷ record { ended = 4; outcome = rejected; jitter = 0 }
    ∷ []

after_attempt-keeps_streak_example :
    (new_worker strings 5 0 sample_config).bind_reject_streak
    ≤ (after_attempt sample_config 9 false
        (outcome_of (some (connection_closed true)))
        0
        (new_worker strings 5 0 sample_config)).1.bind_reject_streak
unfolding connect_and_tunnel nssh.Config.normalize_transport nssh.Base.Table.find
    nssh.Udp.Session.negotiate
after_attempt-keeps_streak_example =
    after_attempt-keeps_streak server strings sample_config (tick ∷ closed true ∷ [])
      (new_stats_manager sample_config 1) [] 5 (some (connection_closed true))
      (left_over (
        connect_and_tunnel server strings sample_config (tick ∷ closed true ∷ [])
          (new_stats_manager sample_config 1) [] 5))
      9 0 (new_worker strings 5 0 sample_config) refl refl
