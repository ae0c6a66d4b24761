-- ===== src/Daemon/Dispatch.antt =====
-- The commands as they arrive, and the supervisor's round over the table (daemon/daemon.go):
-- handleTransportCommand, handleLogTransport, and the closure that Run sends at every tick.
pub mod Steps
pub mod Reach
mod Runs
use nssh.Base.{
  ℕ, ◌-◌, ◌*◌, Bool, true, false, Option, none, some, List, [], ◌∷◌, ltb, ◌==◌, if◌then◌else◌,
}
use nssh.Base.Text.{String, str_eq}
use nssh.Base.Table.{Table, map_entries}
use nssh.Config.{Stdlib}
use nssh.Daemon.Worker.{WorkerInfo}
use nssh.Daemon.Params.{Params, param}
use nssh.Daemon.State.{Daemon}
use nssh.Daemon.Select.{Reply, failure, unknown_command, handle_process_action}
use nssh.Daemon.Show.{Shown, handle_get_command}
use nssh.Daemon.Commands.{
  handle_start, handle_stop_all, handle_register, handle_list, handle_takeover,
}
use nssh.Daemon.Supervisor.{Action, tick, second}

-- The answer of a command. `log` is the id and the status of a worker, `none` is "worker not found".
pub data Answer : Type 0 where
  reply : Reply → Answer
  shown : Shown → Answer
  log : Option (String × String) → Answer
  daemon_pid shutting_down : ℕ → Answer
  daemon_version : String → Answer

-- The first worker of the user that the `range` meets.
unfoldable pub find_user : String → Table WorkerInfo → Option (String × String)
find_user username [] = none
find_user username ((k, p) ∷ m) =
    let later = find_user username m in
    if str_eq p.username username then some (p.id, p.status) else later

unfoldable pub handle_log : Params → Daemon → Option (String × String)
unfolding find_user
handle_log ps d = find_user (param ps "username") d.workers

-- What the daemon knows outside its table, and the clock: `later` is the time behind the second that
-- "restart" sleeps.
pub record Here : Type 0 where
  pub now : ℕ
  pub later : ℕ
  pub pid : ℕ
  pub version : String

abbrev pub replies : Reply × Daemon → Answer × Daemon
replies (r, d) = (reply r, d)

abbrev pub cmd_start : ℕ
cmd_start = 0x01

abbrev cmd_stop : ℕ
cmd_stop = 0x02

abbrev pub cmd_restart : ℕ
cmd_restart = 0x04

abbrev pub cmd_list : ℕ
cmd_list = 0x05

abbrev pub cmd_log : ℕ
cmd_log = 0x06

abbrev cmd_stop_all : ℕ
cmd_stop_all = 0x08

abbrev cmd_register : ℕ
cmd_register = 0x0A

abbrev pub cmd_get_command : ℕ
cmd_get_command = 0x0C

abbrev pub cmd_get_daemon_pid : ℕ
cmd_get_daemon_pid = 0x0D

abbrev pub cmd_get_version : ℕ
cmd_get_version = 0x0E

abbrev pub cmd_stop_daemon : ℕ
cmd_stop_daemon = 0x0F

abbrev pub cmd_takeover : ℕ
cmd_takeover = 0x20

-- The commands, told apart by their numbers; `none` is another number.
pub data Command : Type 0 where
  start stop stop_all_command restart list log_command register get_command get_daemon_pid : Command
  get_version stop_daemon takeover : Command

unfoldable pub command_of : ℕ → Option Command
command_of cmd =
    if cmd == cmd_start
    then some start
    else if cmd == cmd_stop
    then some stop
    else if cmd == cmd_stop_all
    then some stop_all_command
    else if cmd == cmd_restart
    then some restart
    else if cmd == cmd_list
    then some list
    else if cmd == cmd_log
    then some log_command
    else if cmd == cmd_register
    then some register
    else if cmd == cmd_get_command
    then some get_command
    else if cmd == cmd_get_daemon_pid
    then some get_daemon_pid
    else if cmd == cmd_get_version
    then some get_version
    else if cmd == cmd_stop_daemon
    then some stop_daemon
    else if cmd == cmd_takeover
    then some takeover
    else none

-- `verified` is VerifyKeyWithTime of the request.
unfoldable pub run_command :
    Stdlib → Here → Bool → Params → Option Command → Daemon → Answer × Daemon
unfolding handle_start handle_process_action handle_stop_all handle_list handle_log handle_register
    handle_get_command handle_takeover
run_command std h verified ps (some start) d = replies (handle_start std h.now ps d)
run_command std h verified ps (some stop) d =
    replies (handle_process_action std h.now h.later (param ps "username") "stop" d)
run_command std h verified ps (some stop_all_command) d = replies (handle_stop_all h.now d)
run_command std h verified ps (some restart) d =
    replies (handle_process_action std h.now h.later (param ps "username") "restart" d)
run_command std h verified ps (some list) d = replies (handle_list d)
run_command std h verified ps (some log_command) d = (log (handle_log ps d), d)
run_command std h verified ps (some register) d = replies (handle_register std h.now ps d)
run_command std h verified ps (some get_command) d =
    (shown (handle_get_command std (param ps "username") d), d)
run_command std h verified ps (some get_daemon_pid) d = (daemon_pid h.pid, d)
run_command std h verified ps (some get_version) d = (daemon_version h.version, d)
run_command std h verified ps (some stop_daemon) d = (shutting_down h.pid, d)
run_command std h verified ps (some takeover) d = replies (handle_takeover verified ps d)
run_command std h verified ps none d = (reply (failure unknown_command), d)

unfoldable pub handle_transport_command :
    Stdlib → Here → Bool → ℕ → Params → Daemon → Answer × Daemon
unfolding run_command command_of
handle_transport_command std h verified cmd ps d = run_command std h verified ps (command_of cmd) d

-- The loop over the table at a tick: the workers are changed in place, and what is to be started or
-- stopped follows in steps of its own. `bytes` tells what the worker under a key has counted.
unfoldable pub tick_workers : ℕ → (String → ℕ) → Table WorkerInfo → Table WorkerInfo
unfolding tick
tick_workers now bytes m = map_entries (λ k p. (tick now (bytes k) p).0) m

unfoldable pub tick_actions :
    ℕ → (String → ℕ) → Table WorkerInfo → List (String × WorkerInfo × Action)
unfolding tick
tick_actions now bytes [] = []
tick_actions now bytes ((k, p) ∷ m) =
    let (p', action) = tick now (bytes k) p in (k, p', action) ∷ tick_actions now bytes m

-- 10 * time.Minute
abbrev pub max_idle : ℕ
max_idle = 600_000_000_000

-- Whether the daemon ends, and when its idle time began.
unfoldable pub check_idle : ℕ → Table WorkerInfo → Option ℕ → Bool × Option ℕ
check_idle now [] none = (false, some now)
check_idle now [] (some t) = (ltb max_idle (now - t), some t)
check_idle now (e ∷ m) idle = (false, none)

-- The closure of a tick.
unfoldable pub run_tick :
    ℕ → (String → ℕ) → Daemon → Bool × List (String × WorkerInfo × Action) × Daemon
unfolding tick_workers tick_actions check_idle
run_tick now bytes d =
    let ticked = tick_workers now bytes d.workers in
    let (ends, idle) = check_idle now ticked d.idle_start in
    (ends, tick_actions now bytes d.workers, record d { workers = ticked; idle_start = idle })
