-- ===== src/Daemon/Select.antt =====
-- The commands on workers that a target selects (daemon/daemon.go): handleProcessAction,
-- handleAllProcessesAction, performAction, and the answers of the daemon.
pub mod Exact
mod Runs
use nssh.Base.{ℕ, Bool, true, false, Option, none, some, List, [], ◌∷◌, ◌&&◌, ◌||◌, if◌then◌else◌}
use nssh.Base.Int.{ℤ, pos, int_eq}
use nssh.Base.Text.{String, str_eq}
use nssh.Base.Table.{Table}
use nssh.Config.{Stdlib}
use nssh.Daemon.Worker.{WorkerInfo, worker_key, restart_config}
use nssh.Daemon.Params.{ConfigError}
use nssh.Daemon.Target.{TargetSpec, parse_target_spec}
use nssh.Daemon.State.{Daemon, start_worker, stop_worker}

-- The Error of a Response, with what its message names.
pub data Failure : Type 0 where
  invalid_config : ConfigError → Failure
  worker_not_found : TargetSpec → Failure
  multiple_workers : List WorkerInfo → Failure
  no_processes : String → String → ℤ → Failure
  nothing_to_stop missing_username unknown_action unknown_command authentication_failed : Failure

-- A Response: `failure` is Success = false; the others are the Data of the successes.
pub data Reply : Type 0 where
  failure : Failure → Reply
  acted : String → String → String → Reply
  acted_all : String → List WorkerInfo → Reply
  started : String → String → Bool → Reply
  stopped_all : ℕ → Reply
  registered stopped_for_takeover : Reply
  processes : List WorkerInfo → Reply
  exported : List WorkerInfo → Reply

abbrev pub succeeded : Reply → Bool
succeeded (failure f) = false
succeeded _ = true

-- The condition of the loop over the table.
unfoldable pub matches : TargetSpec → WorkerInfo → Bool
matches spec p =
    str_eq p.username spec.username
    && ((str_eq spec.server ""
          || (str_eq p.server_host spec.server
              && (int_eq spec.server_port (pos 0) || int_eq p.server_port spec.server_port)))
        && (int_eq spec.remote_port (pos 0) || int_eq p.remote_port spec.remote_port))

unfoldable pub select : TargetSpec → Table WorkerInfo → List WorkerInfo
select spec [] = []
select spec ((k, p) ∷ m) = let rest = select spec m in if matches spec p then p ∷ rest else rest

unfoldable pub select_all : String → String → ℤ → Table WorkerInfo → Table WorkerInfo
select_all username server port [] = []
select_all username server port ((k, p) ∷ m) =
    let rest = select_all username server port m in
    if str_eq p.username username
      && (str_eq server ""
          || (str_eq p.server_host server && (int_eq port (pos 0) || int_eq p.server_port port)))
    then (k, p) ∷ rest
    else rest

-- "restart" sleeps for a second between its two parts, so `later` is the clock of the second.
unfoldable pub perform_action :
    Stdlib → ℕ → ℕ → String → WorkerInfo → String → Daemon → Reply × Daemon
perform_action std now later action w key d =
    let stopped = stop_worker now w key d in
    if str_eq action "stop"
    then (acted w.username w.id "stopped", stopped)
    else if str_eq action "kill"
    then (acted w.username w.id "killed", stopped)
    else if str_eq action "restart"
    then (acted w.username key "restarted", start_worker std later (restart_config w) stopped)
    else (failure unknown_action, d)

abbrev keep_if : Bool → WorkerInfo → List WorkerInfo → List WorkerInfo
keep_if b w ws = if b then w ∷ ws else ws

-- The loop over the selected workers: those with a successful answer, and the daemon behind it.
unfoldable pub perform_each :
    Stdlib → ℕ → ℕ → String → Table WorkerInfo → Daemon → List WorkerInfo × Daemon
unfolding perform_action
perform_each std now later action [] d = ([], d)
perform_each std now later action ((k, w) ∷ m) d =
    let (answer, d') = perform_action std now later action w k d in
    let (results, d'') = perform_each std now later action m d' in
    (keep_if (succeeded answer) w results, d'')

unfoldable pub handle_all_processes_action :
    Stdlib → ℕ → ℕ → String → String → String → ℤ → Daemon → Reply × Daemon
unfolding select_all perform_each
handle_all_processes_action std now later action username server port d =
    elim (select_all username server port d.workers) [
      | [] ↦ (failure (no_processes username server port), d)
      | e ∷ es ↦
          let (results, d') = perform_each std now later action (e ∷ es) d in
          (acted_all action results, d')
    ]

-- What is done with the workers that a single target selects. Several are an error, unless the
-- target names a server: then the first is taken.
unfoldable pub act_on :
    Stdlib → ℕ → ℕ → String → TargetSpec → List WorkerInfo → Daemon → Reply × Daemon
unfolding perform_action
act_on std now later action spec [] d = (failure (worker_not_found spec), d)
act_on std now later action spec (w ∷ []) d =
    perform_action std now later action w (worker_key std w) d
act_on std now later action spec (w ∷ v ∷ ws) d =
    if str_eq spec.server ""
    then (failure (multiple_workers (w ∷ v ∷ ws)), d)
    else perform_action std now later action w (worker_key std w) d

unfoldable pub handle_process_action : Stdlib → ℕ → ℕ → String → String → Daemon → Reply × Daemon
unfolding handle_all_processes_action act_on select
handle_process_action std now later target action d =
    let spec = parse_target_spec std target in
    if str_eq spec.mode "all"
    then handle_all_processes_action std now later action spec.username spec.server spec.server_port
        d
    else act_on std now later action spec (select spec d.workers) d
