-- ===== src/Cli.antt =====
-- The command line (main.go): what becomes of the arguments, and the configurations that a takeover
-- makes of the workers that the old daemon exported.
pub mod Args
pub mod Modes
mod Runs
use nssh.Base.{
  ℕ, ◌/◌, ◌*◌, Bool, true, false, Option, none, some, List, [], ◌∷◌, ◌&&◌, leb, if◌then◌else◌,
}
use nssh.Base.Int.{ℤ, pos, pos_part}
use nssh.Base.Text.{String, str_eq, split_at, ◌<>◌}
use nssh.Config.{Config, Stdlib, normalize_proto}
use nssh.Config.Load.{Env, Flags, positive, load_config}
use nssh.Daemon.Worker.{WorkerInfo}
use nssh.Daemon.Params.{validate_config}

pub record Positional : Type 0 where
  pub username : String
  pub server_host : String
  pub server_port : ℤ

abbrev pub port_or_zero : ℤ × Bool → ℤ
port_or_zero (z, true) = z
port_or_zero (z, false) = pos 0

-- host or host:port; a port that is no number stays 0.
abbrev pub host_port : Stdlib → String → String × Option String → Positional
host_port std user (host, none) = record {
  username = user;
  server_host = host;
  server_port = pos 0;
}
host_port std user (host, some port) = record {
  username = user;
  server_host = host;
  server_port = port_or_zero (std.atoi port);
}

abbrev pub user_host : Stdlib → String × Option String → Positional
user_host std (whole, none) = host_port std "" (split_at b':' whole)
user_host std (user, some rest) = host_port std user (split_at b':' rest)

-- The first argument behind the flags, if there is one.
unfoldable pub parse_positional_args : Stdlib → List String → Positional
parse_positional_args std [] = record { username = ""; server_host = ""; server_port = pos 0 }
parse_positional_args std (arg ∷ args) = user_host std (split_at b'@' arg)

-- `none` is log.Fatal: a port in both places.
abbrev pub with_positional : Flags → ℤ → Positional → Config → Option Config
with_positional f max_lifetime p c =
    if positive f.port && positive p.server_port
    then none
    else some (record c {
      max_lifetime = max_lifetime;
      username = if str_eq p.username "" then c.username else p.username;
      server_host = if str_eq p.server_host "" then c.server_host else p.server_host;
      server_port = if positive p.server_port then p.server_port else c.server_port;
    })

abbrev pub when_loaded : Option Config → (Config → Option Config) → Option Config
when_loaded none k = none
when_loaded (some c) k = k c

-- The configuration that main validates and sends to the daemon. flag.Args is empty, since it is pflag
-- that parses the command line.
unfoldable pub cli_config : Stdlib → Env → String → Flags → ℤ → List String → Option Config
unfolding load_config parse_positional_args
cli_config std env version f max_lifetime args =
    when_loaded (load_config std env version f [])
      (with_positional f max_lifetime (parse_positional_args std args))

-- validateConfig of main.go, which makes the tests of the daemon's validateConfig: log.Fatal at an error.
unfoldable pub validated : Stdlib → Option Config → Option Config
unfolding validate_config
validated std none = none
validated std (some c) = elim (validate_config std c) [ none ↦ some c | some e ↦ none ]

-- What handleTakeover makes of an exported worker. The numbers pass through a float64, which keeps them
-- below 2^53.
unfoldable pub takeover_config : WorkerInfo → Config
takeover_config w = record {
  server_host = w.server_host;
  server_port = w.server_port;
  username = w.username;
  password = w.password;
  ssh_key_path = "";
  local_host = w.local_host;
  local_port = w.local_port;
  remote_port = w.remote_port;
  reconnect_delay = pos 0;
  max_offline_count = pos 0;
  max_lifetime = pos 0;
  transport = "";
  proto = "";
  compress = false;
  udp_socket_buffer = pos 0;
  udp_max_packet_size = pos 0;
  udp_flow_idle_timeout = pos 0;
  version = "";
}

unfoldable pub display_proto : Stdlib → Option String → String
display_proto std none = normalize_proto std ""
display_proto std (some s) = normalize_proto std s

-- In whole seconds.
unfoldable pub format_duration : Stdlib → ℕ → String
format_duration std seconds =
    if leb (365 * 24 * 3600) seconds
    then std.itoa (pos (seconds / (365 * 24 * 3600))) <> "y"
    else if leb (30 * 24 * 3600) seconds
    then std.itoa (pos (seconds / (30 * 24 * 3600))) <> "m"
    else if leb (7 * 24 * 3600) seconds
    then std.itoa (pos (seconds / (7 * 24 * 3600))) <> "w"
    else if leb (24 * 3600) seconds
    then std.itoa (pos (seconds / (24 * 3600))) <> "d"
    else if leb 3600 seconds
    then std.itoa (pos (seconds / 3600)) <> "h"
    else if leb 60 seconds
    then std.itoa (pos (seconds / 60)) <> "m"
    else "1m"
