-- ===== src/Daemon/Supervisor/Runs.antt =====
-- Runs of the supervisor.
use nssh.Base.{◌≡◌, refl, arith, true, some}
use nssh.Base.Int.{pos}
use nssh.Daemon.Worker.{WorkerInfo, new_worker}
use nssh.Daemon.Supervisor.{tick, nothing, start, check_worker_lifetime, max_offline_count}
use nssh.Daemon.Supervisor.Recovery.{tick-restarts_silent}
use nssh.Daemon.Sample.{strings, sample_config}

-- Online, last heard of at the time 10, with a lifetime of one second and a check at the time 20.
abbrev old_worker : WorkerInfo
old_worker = record (new_worker strings 5 0 sample_config) {
  status = "online";
  last_register_time = some 10;
  max_lifetime = pos 1;
  last_check_time = some 20;
  last_bytes_check = 7;
}

tick-restarts_silent_example :
    ((tick 60_000_000_011 7 old_worker).1 ≡ nothing)
    × ((tick 90_000_000_011 7 (tick 60_000_000_011 7 old_worker).0).1 ≡ start sample_config)
unfolding new_worker max_offline_count
tick-restarts_silent_example =
    tick-restarts_silent 60_000_000_011 90_000_000_011 7 7 10 old_worker sample_config refl refl
      refl (omega arith) (omega arith)

over : (check_worker_lifetime 30_000_000_020 7 old_worker).0 ≡ true
unfolding check_worker_lifetime new_worker
over = refl
