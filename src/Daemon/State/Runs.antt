-- ===== src/Daemon/State/Runs.antt =====
-- Runs of starting and stopping.
use nssh.Base.{◌≡◌, refl, arith, some}
use mathlib.Core.Option
use nssh.Base.{◌≢◌}
use nssh.Base.Table.{find, put, delete, AllEntries-find}
use nssh.Daemon.Worker.{WorkerInfo, new_worker, config_key, generate_process_key}
use nssh.Daemon.State.{Daemon, start_worker, delete_worker, cancel_worker}
use nssh.Daemon.State.Owned.{IsOwned, start_worker-IsOwned}
use nssh.Daemon.State.Race.{IsFresh, stop_start_race}
use nssh.Daemon.Sample.{strings, sample_config, no_workers}

no_workers-IsOwned : IsOwned no_workers
no_workers-IsOwned = record { owned = λ h lt. absurd (omega arith) }

abbrev one_worker : Daemon
one_worker = start_worker strings 5 sample_config no_workers

abbrev ann : WorkerInfo
ann = new_worker strings 5 0 sample_config

start_worker-IsOwned_example : IsOwned (start_worker strings 5 sample_config no_workers)
start_worker-IsOwned_example =
    start_worker-IsOwned strings 5 sample_config no_workers no_workers-IsOwned

ann_found : find (config_key strings sample_config) one_worker.workers ≡ some ann
unfolding find put delete start_worker new_worker generate_process_key
ann_found = refl

one_worker-IsFresh : IsFresh one_worker
unfolding start_worker put delete new_worker find
one_worker-IsFresh = record {
  not_cancelled = refl;
  not_held = λ k w f.
      AllEntries-find (λ j v. v.cancel ≢ some 1) k one_worker.workers
        ((λ e. omega (arith, Option.some-injective 0 1 e)), tt) f;
}

stop_start_race_example : ¬ IsOwned (
    delete_worker 9
      (config_key strings sample_config)
      (start_worker strings 9 sample_config (cancel_worker ann one_worker)))
stop_start_race_example =
    stop_start_race strings 9 sample_config ann one_worker one_worker-IsFresh ann_found
