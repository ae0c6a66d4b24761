-- ===== src/Daemon/Worker.antt =====
-- `WorkerInfo` and the key of a worker (daemon/worker.go, daemon/daemon.go).
use nssh.Base.{ℕ, Bool, false, Option, none, some}
use nssh.Base.Int.{ℤ, pos}
use nssh.Base.Text.{String, ◌<>◌}
use nssh.Config.{Config, Stdlib, normalize_proto}

-- Times are nanoseconds; `none` is the zero time where the code tests for it. `cancel` is the number
-- of the goroutine that CancelFunc cancels and DoneChan waits for, `none` where both are nil.
-- StatsManager is not a field: the bytes that it has counted are an argument where they are read.
pub record WorkerInfo : Type 0 where
  pub id : String
  pub cancel : Option ℕ
  pub username : String
  pub server_host : String
  pub server_port : ℤ
  pub local_host : String
  pub local_port : ℤ
  pub remote_port : ℤ
  pub password : String
  pub ssh_key_path : String
  pub start_time : ℕ
  pub status : String
  pub proto : String
  pub last_register_time : Option ℕ
  pub status_change_time : Option ℕ
  pub last_connect_time : Option ℕ
  pub reconnect_needed : Bool
  pub config : Option Config
  pub offline_count : ℕ
  pub max_lifetime : ℤ
  pub last_bytes_check : ℕ
  pub last_check_time : Option ℕ
  pub bind_reject_streak : ℕ

-- "%s@%s:%d:%d"
unfoldable pub generate_process_key : Stdlib → String → String → ℤ → ℤ → String
generate_process_key std username server_host server_port remote_port =
    username
    <> ("@" <> (server_host <> (":" <> (std.itoa server_port <> (":" <> std.itoa remote_port)))))

abbrev pub config_key : Stdlib → Config → String
config_key std c = generate_process_key std c.username c.server_host c.server_port c.remote_port

abbrev pub worker_key : Stdlib → WorkerInfo → String
worker_key std w = generate_process_key std w.username w.server_host w.server_port w.remote_port

-- The worker that startWorker makes, with the goroutine `handle`.
unfoldable pub new_worker : Stdlib → ℕ → ℕ → Config → WorkerInfo
new_worker std now handle c = record {
  id = config_key std c;
  cancel = some handle;
  username = c.username;
  server_host = c.server_host;
  server_port = c.server_port;
  local_host = c.local_host;
  local_port = c.local_port;
  remote_port = c.remote_port;
  password = c.password;
  ssh_key_path = c.ssh_key_path;
  start_time = now;
  status = "offline";
  proto = normalize_proto std c.proto;
  last_register_time = none;
  status_change_time = none;
  last_connect_time = none;
  reconnect_needed = false;
  config = some c;
  offline_count = 0;
  max_lifetime = c.max_lifetime;
  last_bytes_check = 0;
  last_check_time = none;
  bind_reject_streak = 0;
}

-- The configuration with which performAction restarts a worker that has none.
unfoldable pub fallback_config : WorkerInfo → Config
fallback_config w = record {
  server_host = w.server_host;
  server_port = w.server_port;
  username = w.username;
  password = w.password;
  ssh_key_path = w.ssh_key_path;
  local_host = w.local_host;
  local_port = w.local_port;
  remote_port = w.remote_port;
  reconnect_delay = pos 30;
  max_offline_count = pos 0;
  max_lifetime = pos 0;
  transport = "";
  proto = "";
  compress = false;
  udp_socket_buffer = pos 0;
  udp_max_packet_size = pos 0;
  udp_flow_idle_timeout = pos 0;
  version = "";
}

unfoldable pub restart_config : WorkerInfo → Config
restart_config w = elim w.config [ none ↦ fallback_config w | some c ↦ c ]
