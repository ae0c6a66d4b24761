-- ===== src/Daemon/Params.antt =====
-- The parameters of CMD_START: `buildStartParams` (main.go) and `configFromStartParams`,
-- `validateConfig` (daemon/daemon.go).
pub mod RoundTrip
mod Runs
use nssh.Base.{
  ℕ, Bool, true, false, Option, none, some, List, [], ◌∷◌, ltb, leb, not, ◌&&◌, ◌||◌, if◌then◌else◌,
}
use nssh.Base.Int.{ℤ, pos, pos_part}
use nssh.Base.Text.{String, str_eq, lacks}
use nssh.Base.Table.{Table, find}
use nssh.Config.{Config, Stdlib, is_valid_domain, normalize_proto, normalize_transport}

abbrev pub Params : Type 0
Params = Table String

-- params[k]: "" where the key is missing
unfoldable pub param : Params → String → String
unfolding find
param ps k = elim (find k ps) [ none ↦ "" | some v ↦ v ]

-- The map literal. All keys differ, so its entries are those of the list.
unfoldable pub build_start_params : Stdlib → Config → Params
build_start_params std c =
    ("username", c.username)
    ∷ ("server_host", c.server_host)
    ∷ ("server_port", std.itoa c.server_port)
    ∷ ("local_host", c.local_host)
    ∷ ("local_port", std.itoa c.local_port)
    ∷ ("remote_port", std.itoa c.remote_port)
    ∷ ("password", c.password)
    ∷ ("ssh_key", c.ssh_key_path)
    ∷ ("reconnect_delay", std.itoa c.reconnect_delay)
    ∷ ("max_lifetime", std.itoa c.max_lifetime)
    ∷ ("proto", c.proto)
    ∷ ("transport", c.transport)
    ∷ []

abbrev pub parse_int : Stdlib → String → ℤ
parse_int std s = (std.atoi s).0

unfoldable pub positive_or : ℕ → ℤ → ℤ
positive_or default z = if ltb 0 (pos_part z) then z else pos default

unfoldable pub config_from_start_params : Stdlib → Params → Config
unfolding positive_or
config_from_start_params std ps = record {
  server_host = param ps "server_host";
  server_port = parse_int std (param ps "server_port");
  username = param ps "username";
  password = param ps "password";
  ssh_key_path = param ps "ssh_key";
  local_host = param ps "local_host";
  local_port = parse_int std (param ps "local_port");
  remote_port = parse_int std (param ps "remote_port");
  reconnect_delay = positive_or 30 (parse_int std (param ps "reconnect_delay"));
  max_offline_count = pos 0;
  max_lifetime = parse_int std (param ps "max_lifetime");
  transport = normalize_transport std (param ps "transport");
  proto = normalize_proto std (param ps "proto");
  compress = false;
  udp_socket_buffer = pos 0;
  udp_max_packet_size = pos 0;
  udp_flow_idle_timeout = pos 0;
  version = "";
}

pub data ConfigError : Type 0 where
  empty_server_host server_host_ipv6 bad_server_host bad_server_port : ConfigError
  bad_local_port bad_remote_port empty_local_host bad_local_host : ConfigError

abbrev pub port_ok : ℤ → Bool
port_ok z = leb 1 (pos_part z) && leb (pos_part z) 65535

-- The check of ServerHost.
unfoldable pub server_host_error : Stdlib → String → Option ConfigError
server_host_error std host = elim (std.parse_ip host) [
  | some v4 ↦ if v4 then none else some server_host_ipv6
  | none ↦ if is_valid_domain host then none else some bad_server_host
]

-- LocalHost is "localhost" or an IPv4 address.
unfoldable pub local_host_ok : Stdlib → String → Bool
local_host_ok std host =
    str_eq host "localhost" || elim (std.parse_ip host) [ none ↦ false | some v4 ↦ v4 ]

abbrev first_error : Option ConfigError → Option ConfigError → Option ConfigError
first_error (some e) rest = some e
first_error none rest = rest

-- `none` is nil.
unfoldable pub validate_config : Stdlib → Config → Option ConfigError
unfolding server_host_error local_host_ok
validate_config std c =
    if str_eq c.server_host ""
    then some empty_server_host
    else first_error (server_host_error std c.server_host) (
        if not (port_ok c.server_port)
        then some bad_server_port
        else if not (port_ok c.local_port)
        then some bad_local_port
        else if not (port_ok c.remote_port)
        then some bad_remote_port
        else if str_eq c.local_host ""
        then some empty_local_host
        else if local_host_ok std c.local_host
        then none
        else some bad_local_host)
