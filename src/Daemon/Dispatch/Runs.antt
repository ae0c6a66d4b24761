-- ===== src/Daemon/Dispatch/Runs.antt =====
-- Runs of the daemon: a start, its worker coming up, a tick and a heartbeat from outside.
use nssh.Base.{[], ◌∷◌}
use nssh.Daemon.Params.{Params}
use nssh.Daemon.State.{Daemon, start_worker}
use nssh.Daemon.Commands.{handle_register}
use nssh.Daemon.Select.Exact.{IsKeyed}
use nssh.Daemon.Dispatch.{run_tick}
use nssh.Daemon.Dispatch.Steps.{
  Reach, here, next, starts, progresses, ticks, registers, established, Reach-IsKeyed,
}
use nssh.Daemon.Dispatch.Steps.{progress_of}
use nssh.Daemon.Sample.{strings, sample_config, no_workers}

abbrev outside : Params
outside =
    ("username", "ann")
    ∷ ("server_host", "10.0.0.1")
    ∷ ("server_port", "22")
    ∷ ("remote_port", "30")
    ∷ ("status", "online")
    ∷ []

abbrev started : Daemon
started = start_worker strings 5 sample_config no_workers

abbrev up : Daemon
up = record started { workers = progress_of "ann@10.0.0.1:22:30" (established 7) started.workers }

abbrev ticked : Daemon
ticked = (run_tick 9 (λ k. 0) up).2

abbrev heard : Daemon
heard = (handle_register strings 11 outside ticked).1

up_and_heard : Reach strings no_workers heard
up_and_heard = next (starts 5 sample_config no_workers) (
    next (progresses "ann@10.0.0.1:22:30" (established 7) started)
      (next (ticks 9 (λ k. 0) up) (next (registers 11 outside ticked) (here heard))))

Reach-IsKeyed_example : IsKeyed strings heard.workers
Reach-IsKeyed_example = Reach-IsKeyed strings up_and_heard (record { one_each = tt; keys = tt })
