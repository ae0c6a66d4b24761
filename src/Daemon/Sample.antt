-- ===== src/Daemon/Sample.antt =====
-- Concrete configurations and workers for the runs, and a small library of strings for them: it
-- prints and reads the three numbers that they use.
use nssh.Base.{Bool, true, none, some, [], if◌then◌else◌}
use nssh.Base.Int.{ℤ, pos, int_eq}
use nssh.Base.Text.{String, str_eq}
use nssh.Config.{Config, Stdlib}
use nssh.Daemon.State.{Daemon}

abbrev print_int : ℤ → String
print_int z =
    if int_eq z (pos 22)
    then "22"
    else if int_eq z (pos 80)
    then "80"
    else if int_eq z (pos 30)
    then "30"
    else "0"

abbrev read_int : String → ℤ × Bool
read_int s =
    if str_eq s "22"
    then (pos 22, true)
    else if str_eq s "80"
    then (pos 80, true)
    else if str_eq s "30"
    then (pos 30, true)
    else (pos 0, str_eq s "0")

abbrev pub strings : Stdlib
strings = record {
  itoa = print_int;
  atoi = read_int;
  lower_trim = λ s. s;
  parse_ip = λ s. if str_eq s "10.0.0.1" then some true else none;
  parse_time = λ s. none;
}

abbrev pub sample_config : Config
sample_config = record {
  server_host = "10.0.0.1";
  server_port = pos 22;
  username = "ann";
  password = "pw";
  ssh_key_path = "";
  local_host = "localhost";
  local_port = pos 80;
  remote_port = pos 30;
  reconnect_delay = pos 30;
  max_offline_count = pos 80;
  max_lifetime = pos 0;
  transport = "auto";
  proto = "both";
  compress = true;
  udp_socket_buffer = pos 80;
  udp_max_packet_size = pos 80;
  udp_flow_idle_timeout = pos 80;
  version = "dev";
}

abbrev pub no_workers : Daemon
no_workers = record { workers = []; idle_start = some 1; started = 0; cancelled = [] }
