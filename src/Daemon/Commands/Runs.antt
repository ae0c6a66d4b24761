-- ===== src/Daemon/Commands/Runs.antt =====
-- Runs of the commands.
use nssh.Base.{◌≡◌, arith, true, []}
use nssh.Daemon.State.{Daemon, start_worker}
use nssh.Daemon.State.Owned.{IsOwned, member, start_worker-IsOwned}
use nssh.Daemon.Commands.{handle_stop_all}
use nssh.Daemon.Commands.Keyed.{handle_stop_all-cancels}
use nssh.Daemon.Sample.{strings, sample_config, no_workers}

abbrev one_worker : Daemon
one_worker = start_worker strings 5 sample_config no_workers

one_worker-IsOwned : IsOwned one_worker
one_worker-IsOwned =
    start_worker-IsOwned strings 5 sample_config no_workers
      (record { owned = λ h lt. absurd (omega arith) })

handle_stop_all-cancels_example :
    ((handle_stop_all 9 one_worker).1.workers ≡ [])
    × (member 0 (handle_stop_all 9 one_worker).1.cancelled ≡ true)
unfolding start_worker
handle_stop_all-cancels_example =
    handle_stop_all-cancels 9 one_worker 0 one_worker-IsOwned (omega arith)
