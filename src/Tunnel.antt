-- ===== src/Tunnel.antt =====
-- The self-check of a tunnel (base_tunnel/tunnel.go): the reply to a UDP ping, and the heartbeat of
-- ConnectAndTunnel.
pub mod Handler
pub mod Accept
pub mod Heartbeat
pub mod Requests
pub mod Origin
pub mod Connect
mod Runs
use nssh.Base.{
  ℕ, zero, suc, ◌+◌, Bool, true, false, Option, none, some, List, [], ◌∷◌, ◌&&◌, ◌||◌, not,
}
use nssh.Base.{ltb, leb, ◌==◌, if◌then◌else◌, length, take, bit_and}
use nssh.Base.Text.{String, str_eq}
use nssh.Config.{Stdlib}
use nssh.Wire.{byte_at}

abbrev pub udp_ping_nonce_len : ℕ
udp_ping_nonce_len = 16

-- The nonce, four bytes of config version, and a byte of flags.
abbrev pub udp_ping_reply_len : ℕ
udp_ping_reply_len = 21

abbrev pub udp_flag_config_changed : ℕ
udp_flag_config_changed = 0x02

abbrev pub udp_flag_config_unknown : ℕ
udp_flag_config_unknown = 0x04

abbrev pub udp_flag_shared_entry_healthy : ℕ
udp_flag_shared_entry_healthy = 0x01

pub data PingError : Type 0 where
  malformed_reply : ℕ → PingError
  nonce_mismatch entry_unhealthy config_changed : PingError

-- bytes.Equal
abbrev pub bytes_equal : List ℕ → List ℕ → Bool
bytes_equal [] [] = true
bytes_equal [] (y ∷ ys) = false
bytes_equal (x ∷ xs) [] = false
bytes_equal (x ∷ xs) (y ∷ ys) = x == y && bytes_equal xs ys

-- Whether the tunnel carries UDP. The source lowers the letters and trims in the other order, which
-- gives the same text.
abbrev pub carries_udp : Stdlib → String → Bool
carries_udp std proto = str_eq (std.lower_trim proto) "udp" || str_eq (std.lower_trim proto) "both"

abbrev pub has_flag : ℕ → ℕ → Bool
has_flag flags flag = not (bit_and flags flag == 0)

-- The verdict on the flags; `none` is nil.
unfoldable pub check_flags : Bool → ℕ → Option PingError
check_flags udp flags =
    if not (has_flag flags udp_flag_shared_entry_healthy) && udp
    then some entry_unhealthy
    else if has_flag flags udp_flag_config_unknown
    then none
    else if has_flag flags udp_flag_config_changed
    then some config_changed
    else none

unfoldable pub parse_udp_ping_reply : Stdlib → List ℕ → List ℕ → String → Option PingError
unfolding check_flags
parse_udp_ping_reply std nonce resp proto =
    if ltb (length resp) udp_ping_reply_len
    then some (malformed_reply (length resp))
    else if not (bytes_equal (take udp_ping_nonce_len resp) nonce)
    then some nonce_mismatch
    else check_flags (carries_udp std proto) (byte_at resp 20)

-- What sendUDPPingWithTimeout returns: nil, errUDPPingUnsupported, or another error.
pub data Ping : Type 0 where
  answered unsupported failed : Ping

pub record SelfCheck : Type 0 where
  pub disabled : Bool
  pub failures : ℕ

-- `lost` is "heartbeat failed after 3 retries", `unhealthy` "udp ping failed after n attempts".
pub data Beat : Type 0 where
  alive : SelfCheck → Beat
  lost : Beat
  unhealthy : ℕ → Beat

unfoldable pub self_check : Ping → SelfCheck → Beat
self_check answered s = alive (record s { failures = 0 })
self_check unsupported s = alive (record s { disabled = true })
self_check failed s =
    if leb 2 (s.failures + 1)
    then unhealthy (s.failures + 1)
    else alive (record s { failures = s.failures + 1 })

module _ {W : Type 0} (keepalive : W → Bool × W) (ping : W → Ping × W) where
  -- At most `rounds` keepalives, until one is answered.
  unfoldable pub keep_trying : ℕ → W → Bool × W
  keep_trying zero w = (false, w)
  keep_trying (suc rounds) w =
      let (sent, w') = keepalive w in
      let later = keep_trying rounds w' in if sent then (true, w') else later

  unfoldable pub ping_if_enabled : SelfCheck → W → Beat × W
  unfolding self_check
  ping_if_enabled s w =
      let (result, w') = ping w in if s.disabled then (alive s, w) else (self_check result s, w')

  -- One tick of the heartbeat.
  unfoldable pub heartbeat : SelfCheck → W → Beat × W
  unfolding keep_trying ping_if_enabled
  heartbeat s w =
      let (sent, w') = keep_trying 3 w in if sent then ping_if_enabled s w' else (lost, w')
