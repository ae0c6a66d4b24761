-- ===== src/Config.antt =====
-- The configuration of one tunnel (base_core/config.go, base_tunnel/transport.go), and what the code
-- uses of Go's standard library on strings.
pub mod Load
use nssh.Base.{ℕ, Bool, true, Option, if◌then◌else◌}
use nssh.Base.Int.{ℤ}
use nssh.Base.{◌&&◌, ◌||◌, not, leb, ◌==◌, List, [], ◌∷◌, length}
use Prim.Native.String.{len}
use nssh.Base.Text.{String, str_eq, split_all, all_chars}

-- strconv.Itoa; strconv.Atoi, whose number is also used where it reports an error (`false`);
-- strings.ToLower(strings.TrimSpace(s)); net.ParseIP, with `some true` for an IPv4 address and
-- `some false` for another one; time.Parse(time.RFC3339, s).
pub record Stdlib : Type 0 where
  pub itoa : ℤ → String
  pub atoi : String → ℤ × Bool
  pub lower_trim : String → String
  pub parse_ip : String → Option Bool
  pub parse_time : String → Option ℕ

-- The callback OnTunnelEstablished is left out: the daemon sets it, and it holds no data.
pub record Config : Type 0 where
  pub server_host : String
  pub server_port : ℤ
  pub username : String
  pub password : String
  pub ssh_key_path : String
  pub local_host : String
  pub local_port : ℤ
  pub remote_port : ℤ
  pub reconnect_delay : ℤ
  pub max_offline_count : ℤ
  pub max_lifetime : ℤ
  pub transport : String
  pub proto : String
  pub compress : Bool
  pub udp_socket_buffer : ℤ
  pub udp_max_packet_size : ℤ
  pub udp_flow_idle_timeout : ℤ
  pub version : String

unfoldable pub normalize_proto : Stdlib → String → String
normalize_proto std proto =
    let p = std.lower_trim proto in
    if str_eq p "udp" then "udp" else if str_eq p "both" then "both" else "tcp"

unfoldable pub normalize_transport : Stdlib → String → String
normalize_transport std mode =
    let m = std.lower_trim mode in
    if str_eq m "tcp" then "tcp" else if str_eq m "quic" then "quic" else "auto"

abbrev between : ℕ → ℕ → ℕ → Bool
between a b c = leb a c && leb c b

-- A letter, a digit or a hyphen.
unfoldable pub domain_char : ℕ → Bool
domain_char c = between b'a' b'z' c || (between b'A' b'Z' c || (between b'0' b'9' c || c == b'-'))

unfoldable pub domain_part : String → Bool
unfolding domain_char
domain_part part = not (len part == 0) && (leb (len part) 63 && all_chars domain_char part)

abbrev pub all_parts : List String → Bool
all_parts [] = true
all_parts (p ∷ ps) = domain_part p && all_parts ps

-- `len` counts bytes, as in Go.
unfoldable pub is_valid_domain : String → Bool
unfolding domain_part split_all
is_valid_domain domain =
    let (part, parts) = split_all b'.' domain in
    not (len domain == 0)
    && (leb (len domain) 253 && (leb 1 (length parts) && all_parts (part ∷ parts)))
