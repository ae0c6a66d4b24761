-- ===== src/Daemon/Commands.antt =====
-- The other commands of the daemon (daemon/daemon.go): start, stop all, register, list, take over.
pub mod Keyed
mod Runs
use nssh.Base.{ℕ, Bool, true, false, Option, none, some, List, [], ◌∷◌, length, if◌then◌else◌}
use nssh.Base.Int.{ℤ, pos}
use nssh.Base.Text.{String, str_eq}
use nssh.Base.Table.{Table, find, put, delete}
use nssh.Config.{Config, Stdlib, normalize_proto}
use nssh.Daemon.Worker.{WorkerInfo, generate_process_key, config_key}
use nssh.Daemon.Params.{Params, param, parse_int, config_from_start_params, validate_config}
use nssh.Daemon.State.{Daemon, cancel_handle, cancel_found, start_worker, idle_if_empty}
use nssh.Daemon.Select.{Reply, failure, started, stopped_all, registered, stopped_for_takeover}
use nssh.Daemon.Select.{processes, exported, invalid_config, nothing_to_stop, missing_username}
use nssh.Daemon.Select.{authentication_failed}

abbrev is_some : {A : Type 0} → Option A → Bool
is_some none = false
is_some (some a) = true

-- The worker under the key is cancelled in a step of its own before startWorker's step.
unfoldable pub start_config : Stdlib → ℕ → Config → Daemon → Reply × Daemon
start_config std now c d =
    let old = find (config_key std c) d.workers in
    (
      started (config_key std c) c.username (is_some old),
      start_worker std now c (cancel_found old d),
    )

unfoldable pub handle_start : Stdlib → ℕ → Params → Daemon → Reply × Daemon
unfolding start_config
handle_start std now ps d =
    let c = config_from_start_params std ps in
    elim (validate_config std c) [
      | some e ↦ (failure (invalid_config e), d)
      | none ↦ start_config std now c d
    ]

unfoldable pub values : Table WorkerInfo → List WorkerInfo
values [] = []
values ((k, w) ∷ m) = w ∷ values m

-- The goroutines that the workers can cancel, before those of `hs`.
unfoldable pub cancel_all : List WorkerInfo → Daemon → Daemon
cancel_all [] d = d
cancel_all (w ∷ ws) d = cancel_all ws (cancel_handle w.cancel d)

-- delete(m, key) for every key of the first table
unfoldable pub delete_all : Table WorkerInfo → Table WorkerInfo → Table WorkerInfo
delete_all [] m = m
delete_all ((k, w) ∷ es) m = delete_all es (delete k m)

unfoldable pub stop_listed : ℕ → Table WorkerInfo → Daemon → Daemon
unfolding delete_all cancel_all values
stop_listed now listed d =
    let d' = cancel_all (values listed) d in
    let left = delete_all listed d'.workers in
    record d' { workers = left; idle_start = idle_if_empty now left d'.idle_start }

-- The workers that were listed in the first step are cancelled, and deleted in the second.
unfoldable pub stop_all : ℕ → Table WorkerInfo → Daemon → Reply × Daemon
unfolding stop_listed
stop_all now [] d = (failure nothing_to_stop, d)
stop_all now (e ∷ es) d = (stopped_all (length (e ∷ es)), stop_listed now (e ∷ es) d)

unfoldable pub handle_stop_all : ℕ → Daemon → Reply × Daemon
unfolding stop_all
handle_stop_all now d = stop_all now d.workers d

-- time.Parse of a parameter, with what stays if it is missing or malformed: parseTime.
abbrev pub parse_time : Stdlib → String → ℕ → ℕ
parse_time std s default =
    if str_eq s "" then default else elim (std.parse_time s) [ none ↦ default | some t ↦ t ]

abbrev non_empty : String → String → String
non_empty s default = if str_eq s "" then default else s

abbrev with_status : WorkerInfo → String → ℕ → WorkerInfo
with_status w s t =
    if str_eq w.status s then w else record w { status = s; status_change_time = some t }

-- The status of a heartbeat: with a time that does not parse it is ignored.
unfoldable pub register_status : Stdlib → ℕ → String → String → WorkerInfo → WorkerInfo
register_status std now status time w =
    if str_eq time ""
    then with_status w status now
    else elim (std.parse_time time) [ none ↦ w | some t ↦ with_status w status t ]

abbrev pub status_param : Params → String
status_param ps = non_empty (param ps "status") "offline"

abbrev pub heard_from : Stdlib → ℕ → Params → WorkerInfo → WorkerInfo
heard_from std now ps w = record w {
  last_register_time = some now;
  start_time = parse_time std (param ps "start_time") w.start_time;
}

-- A heartbeat of a worker that is in the table.
unfoldable pub refresh_worker : Stdlib → ℕ → Params → WorkerInfo → WorkerInfo
unfolding register_status
refresh_worker std now ps w =
    let w2 =
      register_status std now (status_param ps) (param ps "last_status_change_time")
        (heard_from std now ps w) in
    record w2 {
      password = non_empty (param ps "password") w2.password;
      ssh_key_path = non_empty (param ps "ssh_key") w2.ssh_key_path;
      proto =
          if str_eq (param ps "proto") "" then w2.proto else normalize_proto std (param ps "proto");
    }

abbrev pub register_key : Stdlib → Params → String
register_key std ps =
    generate_process_key std (param ps "username") (param ps "server_host")
      (parse_int std (param ps "server_port")) (parse_int std (param ps "remote_port"))

-- A worker that runs in another process: it has no goroutine of the daemon and no configuration.
unfoldable pub registered_worker : Stdlib → ℕ → Params → WorkerInfo
registered_worker std now ps = record {
  id = register_key std ps;
  cancel = none;
  username = param ps "username";
  server_host = param ps "server_host";
  server_port = parse_int std (param ps "server_port");
  local_host = param ps "local_host";
  local_port = parse_int std (param ps "local_port");
  remote_port = parse_int std (param ps "remote_port");
  password = param ps "password";
  ssh_key_path = param ps "ssh_key";
  start_time = parse_time std (param ps "start_time") now;
  status = status_param ps;
  proto = normalize_proto std (param ps "proto");
  last_register_time = some now;
  status_change_time = some (parse_time std (param ps "last_status_change_time") now);
  last_connect_time = none;
  reconnect_needed = false;
  config = none;
  offline_count = 0;
  max_lifetime = pos 0;
  last_bytes_check = 0;
  last_check_time = none;
  bind_reject_streak = 0;
}

abbrev pub registered_as : Stdlib → ℕ → Params → Option WorkerInfo → WorkerInfo
registered_as std now ps none = registered_worker std now ps
registered_as std now ps (some w) = refresh_worker std now ps w

unfoldable pub handle_register : Stdlib → ℕ → Params → Daemon → Reply × Daemon
unfolding refresh_worker registered_worker
handle_register std now ps d =
    let key = register_key std ps in
    if str_eq (param ps "username") "" then (failure missing_username, d) else (
      registered,
      record d { workers = put key (registered_as std now ps (find key d.workers)) d.workers },
    )

unfoldable pub handle_list : Daemon → Reply × Daemon
unfolding values
handle_list d = (processes (values d.workers), d)

unfoldable pub handle_takeover_export : Daemon → Reply × Daemon
unfolding values
handle_takeover_export d = (exported (values d.workers), d)

-- The marks that are set first are lost with the table, which is emptied in the same step.
unfoldable pub handle_takeover_stop : Daemon → Reply × Daemon
unfolding cancel_all values
handle_takeover_stop d =
    (stopped_for_takeover, record (cancel_all (values d.workers) d) { workers = [] })

-- `verified` is VerifyKeyWithTime(timestamp, key).
unfoldable pub handle_takeover : Bool → Params → Daemon → Reply × Daemon
unfolding handle_takeover_stop handle_takeover_export
handle_takeover verified ps d =
    if verified
    then if str_eq (param ps "action") "stop"
      then handle_takeover_stop d
      else handle_takeover_export d
    else (failure authentication_failed, d)
