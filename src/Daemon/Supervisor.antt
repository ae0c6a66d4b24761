-- ===== src/Daemon/Supervisor.antt =====
-- The supervisor of the daemon (daemon/daemon.go): one worker in one tick of `Run`, and
-- CheckWorkerLifetime.
pub mod Recovery
mod Runs
use nssh.Base.{
  ℕ, ◌+◌, ◌-◌, ◌*◌, Bool, true, false, Option, none, some, ◌&&◌, ◌||◌, not, ltb, leb, ◌==◌,
  if◌then◌else◌,
}
use nssh.Base.Int.{ℤ, pos_part}
use nssh.Base.Text.{String, str_eq}
use nssh.Config.{Config}
use nssh.Daemon.Worker.{WorkerInfo}

abbrev pub second : ℕ
second = 1_000_000_000

-- 2 * time.Minute
abbrev pub no_progress_restart_timeout : ℕ
no_progress_restart_timeout = 120_000_000_000

abbrev pub heartbeat_timeout : ℕ
heartbeat_timeout = 60_000_000_000

-- What the tick starts or calls for the worker: startWorker with its configuration, stopWorker, or
-- performAction("restart").
pub data Action : Type 0 where
  nothing stop restart : Action
  start : Config → Action

abbrev pub has_config : WorkerInfo → Bool
has_config p = elim p.config [ none ↦ false | some c ↦ true ]

abbrev mark_checked : ℕ → ℕ → WorkerInfo → WorkerInfo
mark_checked now bytes p = record p { last_check_time = some now; last_bytes_check = bytes }

-- Online, with a configuration, and past its lifetime.
unfoldable pub lifetime_over : ℕ → WorkerInfo → Bool
lifetime_over now p =
    ltb 0 (pos_part p.max_lifetime)
    && (str_eq p.status "online"
        && (has_config p && leb (pos_part p.max_lifetime * second) (now - p.start_time)))

abbrev pub idle_check : ℕ → ℕ → WorkerInfo → Option ℕ → Bool × WorkerInfo
idle_check now bytes p none = (false, mark_checked now bytes p)
idle_check now bytes p (some t) =
    if p.last_bytes_check == bytes
    then (leb (30 * second) (now - t), p)
    else (false, mark_checked now bytes p)

-- `bytes` is what the StatsManager has counted, 0 where there is none.
unfoldable pub check_worker_lifetime : ℕ → ℕ → WorkerInfo → Bool × WorkerInfo
unfolding lifetime_over
check_worker_lifetime now bytes p =
    if lifetime_over now p then idle_check now bytes p p.last_check_time else (false, p)

-- config.MaxOfflineCount, or 14400
unfoldable pub max_offline_count : Option Config → ℕ
max_offline_count none = 14400
max_offline_count (some c) =
    if ltb 0 (pos_part c.max_offline_count) then pos_part c.max_offline_count else 14400

unfoldable pub mark_offline : ℕ → WorkerInfo → WorkerInfo
mark_offline now p = record p {
  status = "offline";
  status_change_time = some now;
  reconnect_needed = true;
  offline_count = p.offline_count + 1;
}

-- No heartbeat for more than a minute.
unfoldable pub miss_heartbeat : ℕ → WorkerInfo → WorkerInfo × Action
unfolding max_offline_count mark_offline
miss_heartbeat now p = (
  mark_offline now p,
  if leb (max_offline_count p.config) (p.offline_count + 1) then stop else nothing,
)

unfoldable pub reset_offline : WorkerInfo → WorkerInfo
reset_offline p =
    if str_eq p.status "online" && ltb 0 p.offline_count then record p { offline_count = 0 } else p

unfoldable pub check_alive : ℕ → ℕ → WorkerInfo → WorkerInfo × Action
unfolding check_worker_lifetime reset_offline
check_alive now bytes p =
    let (over, p') = check_worker_lifetime now bytes (reset_offline p) in
    (p', if over then restart else nothing)

unfoldable pub check_heartbeat : ℕ → ℕ → WorkerInfo → Option ℕ → WorkerInfo × Action
unfolding miss_heartbeat check_alive
check_heartbeat now bytes p none = (p, nothing)
check_heartbeat now bytes p (some t) =
    if ltb heartbeat_timeout (now - t) then miss_heartbeat now p else check_alive now bytes p

-- A worker that is not online and has a configuration: without progress for two minutes it is
-- started again.
unfoldable pub check_progress : ℕ → ℕ → Config → WorkerInfo → Option ℕ → WorkerInfo × Action
unfolding check_heartbeat
check_progress now bytes c p none =
    check_heartbeat now bytes (record p { last_connect_time = some now }) p.last_register_time
check_progress now bytes c p (some t) =
    if ltb no_progress_restart_timeout (now - t)
    then (record p { last_connect_time = some now }, start c)
    else check_heartbeat now bytes p p.last_register_time

unfoldable pub tick_configured : ℕ → ℕ → WorkerInfo → Option Config → WorkerInfo × Action
unfolding check_progress
tick_configured now bytes p none = check_heartbeat now bytes p p.last_register_time
tick_configured now bytes p (some c) =
    if str_eq p.status "offline" && p.reconnect_needed
    then (record p { reconnect_needed = false }, start c)
    else if str_eq p.status "online"
    then check_heartbeat now bytes p p.last_register_time
    else check_progress now bytes c p p.last_connect_time

-- The body of the loop over the workers.
unfoldable pub tick : ℕ → ℕ → WorkerInfo → WorkerInfo × Action
unfolding tick_configured
tick now bytes p = tick_configured now bytes p p.config
