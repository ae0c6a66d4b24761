-- ===== src/Daemon/Select/Runs.antt =====
-- A run of stopping a worker by its key.
use nssh.Base.{◌≡◌, refl, some}
use nssh.Base.Table.{find, put, delete}
use nssh.Base.Text.{lacks}
use nssh.Daemon.Worker.{WorkerInfo, new_worker, worker_key, generate_process_key}
use nssh.Daemon.State.{Daemon, start_worker, stop_worker}
use nssh.Daemon.Select.{acted, handle_process_action}
use nssh.Daemon.Select.Exact.{IsKeyed, IsNamed, handle_process_action-stops}
use nssh.Daemon.Sample.{strings, sample_config, no_workers}

abbrev ann : WorkerInfo
ann = new_worker strings 5 0 sample_config

abbrev one_worker : Daemon
one_worker = start_worker strings 5 sample_config no_workers

ann-IsNamed : IsNamed strings ann
unfolding new_worker lacks
ann-IsNamed = record {
  user = refl;
  host = refl;
  some_host = refl;
  some_port = refl;
  some_remote = refl;
  plain = refl;
  port_back = refl;
  remote_back = refl;
}

one_worker-IsKeyed : IsKeyed strings one_worker.workers
unfolding start_worker put delete find new_worker
one_worker-IsKeyed = record { one_each = (refl, tt); keys = (refl, tt) }

ann_found : find (worker_key strings ann) one_worker.workers ≡ some ann
unfolding find put delete start_worker new_worker generate_process_key
ann_found = refl

handle_process_action-stops_example :
    handle_process_action strings 7 9 (worker_key strings ann) "stop" one_worker
    ≡ (acted ann.username ann.id "stopped", stop_worker 7 ann (worker_key strings ann) one_worker)
handle_process_action-stops_example =
    handle_process_action-stops strings 7 9 ann one_worker ann-IsNamed one_worker-IsKeyed ann_found
