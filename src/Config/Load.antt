-- ===== src/Config/Load.antt =====
-- The configuration from the environment and the arguments (base_core/config.go).
use nssh.Base.{ℕ, Bool, true, false, Option, none, some, List, [], ◌∷◌, ◌||◌, ltb, if◌then◌else◌}
use nssh.Base.Int.{ℤ, pos, pos_part}
use nssh.Base.Text.{String, str_eq, split_at, split_all}
use nssh.Config.{Config, Stdlib, normalize_proto}

-- os.Getenv, and fmt.Sscanf(s, "%d") with `none` for an error.
pub record Env : Type 0 where
  pub getenv : String → String
  pub scan_int : String → Option ℤ

abbrev pub udp_default_socket_buffer : ℕ
udp_default_socket_buffer = 262144

abbrev pub udp_default_max_packet_size : ℕ
udp_default_max_packet_size = 1400

abbrev pub udp_default_flow_idle_timeout : ℕ
udp_default_flow_idle_timeout = 330

unfoldable pub get_env : Env → String → String → String
get_env env key default = if str_eq (env.getenv key) "" then default else env.getenv key

unfoldable pub get_env_int : Env → String → ℕ → ℤ
get_env_int env key default =
    if str_eq (env.getenv key) ""
    then pos default
    else elim (env.scan_int (env.getenv key)) [ none ↦ pos default | some z ↦ z ]

abbrev one_of : String → List String → Bool
one_of s [] = false
one_of s (t ∷ ts) = str_eq s t || one_of s ts

unfoldable pub get_env_bool : Stdlib → Env → String → Bool → Bool
get_env_bool std env key default =
    let value = std.lower_trim (env.getenv key) in
    if one_of value ("1" ∷ "true" ∷ "yes" ∷ "on" ∷ [])
    then true
    else if one_of value ("0" ∷ "false" ∷ "no" ∷ "off" ∷ [])
    then false
    else default

-- The defaults of LoadConfig; `version` is BuildVersion.
unfoldable pub default_config : Stdlib → Env → String → Config
unfolding get_env get_env_int get_env_bool
default_config std env version = record {
  server_host = get_env env "SERVER_HOST" "0.0.0.0";
  server_port = get_env_int env "SERVER_PORT" 20022;
  username = get_env env "USERNAME" "";
  password = get_env env "PASSWORD" "";
  ssh_key_path = get_env env "SSH_KEY" "";
  local_host = "localhost";
  local_port = get_env_int env "LOCAL_PORT" 80;
  remote_port = get_env_int env "REMOTE_PORT" 8000;
  reconnect_delay = get_env_int env "RECONNECT_DELAY" 30;
  max_offline_count = pos 0;
  max_lifetime = get_env_int env "MAX_LIFETIME" 172800;
  transport = get_env env "NSSH_TRANSPORT" "auto";
  proto = normalize_proto std (get_env env "NSSH_PROTO" "both");
  compress = get_env_bool std env "NSSH_COMPRESS" true;
  udp_socket_buffer = get_env_int env "NSSH_UDP_SOCKET_BUFFER" udp_default_socket_buffer;
  udp_max_packet_size = get_env_int env "NSSH_UDP_MAX_PACKET_SIZE" udp_default_max_packet_size;
  udp_flow_idle_timeout =
      get_env_int env "NSSH_UDP_FLOW_IDLE_TIMEOUT" udp_default_flow_idle_timeout;
  version = version;
}

-- flag.Args()[0], user@host or host
abbrev pub with_user_host : String × Option String → Config → Config
with_user_host (host, none) c = record c { server_host = host }
with_user_host (user, some host) c = record c { username = user; server_host = host }

unfoldable pub with_args : List String → Config → Config
with_args [] c = c
with_args (user_host ∷ rest) c = with_user_host (split_at b'@' user_host) c

-- Both ports of -R have to be numbers; `none` is log.Fatalf.
abbrev pub with_ports : ℤ × Bool → String → ℤ × Bool → Config → Option Config
with_ports (remote, true) host (local, true) c =
    some (record c { remote_port = remote; local_host = host; local_port = local })
with_ports (remote, true) host (local, false) c = none
with_ports (remote, false) host local c = none

unfoldable pub with_tunnel : Stdlib → String × List String → Config → Option Config
with_tunnel std (a, []) c = none
with_tunnel std (a, b ∷ []) c = none
with_tunnel std (remote, host ∷ local ∷ []) c = with_ports (std.atoi remote) host (std.atoi local) c
with_tunnel std (a, b ∷ d ∷ e ∷ ps) c = none

unfoldable pub with_reverse : Stdlib → String → Config → Option Config
unfolding with_tunnel
with_reverse std reverse c =
    if str_eq reverse "" then some c else with_tunnel std (split_all b':' reverse) c

-- The arguments of LoadConfig.
pub record Flags : Type 0 where
  pub reverse_tunnel : String
  pub port : ℤ
  pub password : String
  pub ssh_key : String
  pub reconnect_delay : ℤ

abbrev pub positive : ℤ → Bool
positive z = ltb 0 (pos_part z)

unfoldable pub with_flags : Flags → Config → Config
with_flags f c = record c {
  server_port = if positive f.port then f.port else c.server_port;
  password = if str_eq f.password "" then c.password else f.password;
  ssh_key_path = if str_eq f.ssh_key "" then c.ssh_key_path else f.ssh_key;
  reconnect_delay = if positive f.reconnect_delay then f.reconnect_delay else c.reconnect_delay;
}

abbrev pub map_config : (Config → Config) → Option Config → Option Config
map_config f none = none
map_config f (some c) = some (f c)

unfoldable pub load_config : Stdlib → Env → String → Flags → List String → Option Config
unfolding default_config with_args with_reverse with_flags
load_config std env version f args =
    map_config (with_flags f)
      (with_reverse std f.reverse_tunnel (with_args args (default_config std env version)))

unfoldable pub load_config_from_env : Stdlib → Env → String → Config
unfolding get_env get_env_int get_env_bool
load_config_from_env std env version = record {
  server_host = get_env env "NSSH_SERVER_HOST" "";
  server_port = get_env_int env "NSSH_SERVER_PORT" 0;
  username = get_env env "NSSH_USERNAME" "";
  password = get_env env "NSSH_PASSWORD" "";
  ssh_key_path = get_env env "NSSH_SSH_KEY" "";
  local_host = get_env env "NSSH_LOCAL_HOST" "localhost";
  local_port = get_env_int env "NSSH_LOCAL_PORT" 0;
  remote_port = get_env_int env "NSSH_REMOTE_PORT" 0;
  reconnect_delay = get_env_int env "RECONNECT_DELAY" 60;
  max_offline_count = get_env_int env "MAX_OFFLINE_COUNT" 14400;
  max_lifetime = get_env_int env "MAX_LIFETIME" 172800;
  transport = get_env env "NSSH_TRANSPORT" "auto";
  proto = normalize_proto std (get_env env "NSSH_PROTO" "both");
  compress = get_env_bool std env "NSSH_COMPRESS" true;
  udp_socket_buffer = get_env_int env "NSSH_UDP_SOCKET_BUFFER" udp_default_socket_buffer;
  udp_max_packet_size = get_env_int env "NSSH_UDP_MAX_PACKET_SIZE" udp_default_max_packet_size;
  udp_flow_idle_timeout =
      get_env_int env "NSSH_UDP_FLOW_IDLE_TIMEOUT" udp_default_flow_idle_timeout;
  version = version;
}
