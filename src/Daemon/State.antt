-- ===== src/Daemon/State.antt =====
-- The state of the daemon and the steps on it that `processLoop` runs one at a time
-- (daemon/daemon.go): startWorker and stopWorker.
pub mod Owned
pub mod Race
mod Runs
use nssh.Base.{ℕ, suc, Bool, true, false, Option, none, some, List, [], ◌∷◌, if◌then◌else◌}
use nssh.Base.Text.{String}
use nssh.Base.Table.{Table, find, delete, put}
use nssh.Config.{Config, Stdlib}
use nssh.Daemon.Worker.{WorkerInfo, config_key, new_worker}

-- `started` counts the goroutines of runWorker, which are numbered from 0; `cancelled` lists those
-- whose context has been cancelled. `idle_start` is `none` for the zero time.
pub record Daemon : Type 0 where
  pub workers : Table WorkerInfo
  pub idle_start : Option ℕ
  pub started : ℕ
  pub cancelled : List ℕ

-- CancelFunc(), if it is not nil
unfoldable pub cancel_handle : Option ℕ → Daemon → Daemon
cancel_handle none d = d
cancel_handle (some h) d = record d { cancelled = h ∷ d.cancelled }

abbrev pub cancel_worker : WorkerInfo → Daemon → Daemon
cancel_worker w d = cancel_handle w.cancel d

unfoldable pub cancel_found : Option WorkerInfo → Daemon → Daemon
unfolding cancel_handle
cancel_found none d = d
cancel_found (some w) d = cancel_worker w d

abbrev pub idle_if_empty : ℕ → Table WorkerInfo → Option ℕ → Option ℕ
idle_if_empty now [] idle = some now
idle_if_empty now (e ∷ m) idle = idle

-- The step that stopWorker sends last.
unfoldable pub delete_worker : ℕ → String → Daemon → Daemon
delete_worker now key d =
    let left = delete key d.workers in
    record d { workers = left; idle_start = idle_if_empty now left d.idle_start }

-- The step that startWorker sends: a worker under the same key is cancelled and replaced.
unfoldable pub start_worker : Stdlib → ℕ → Config → Daemon → Daemon
unfolding cancel_found new_worker
start_worker std now c d =
    let d' = cancel_found (find (config_key std c) d.workers) d in
    record d' {
      workers = put (config_key std c) (new_worker std now d.started c) d'.workers;
      idle_start = none;
      started = suc d.started;
    }

-- Between the two parts the code waits until the cancelled goroutine has ended.
unfoldable pub stop_worker : ℕ → WorkerInfo → String → Daemon → Daemon
unfolding cancel_handle delete_worker
stop_worker now w key d = delete_worker now key (cancel_worker w d)
