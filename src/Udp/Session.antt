-- ===== src/Udp/Session.antt =====
-- The control plane of UDP forwarding: `setupUDPForward` and the start of `runUDPProxy`
-- (base_tunnel/udp_proxy.go).
pub mod Bounds
mod Runs
use nssh.Base.{ℕ, zero, suc, ◌+◌, ◌-◌, ◌%◌, ◌^◌, Bool, true, false, ◌&&◌, not}
use nssh.Base.{List, [], ◌∷◌, ◌++◌, Option, none, some, ltb, leb, ◌==◌, if◌then◌else◌, length}
use nssh.Base.{bit_and, bit_or}
use nssh.Base.Int.{ℤ, pos, pos_part}
use nssh.Wire.{put_uint32, uint16_at, uint32_at, byte_at}
use nssh.Udp.Proxy.{UdpProxy, udp_max_packet_size, udp_effective_flow_idle_timeout}
use nssh.Udp.Reassembler.{udp_max_datagram_size, new_udp_reassembler}

abbrev pub udp_mode_channel : ℕ
udp_mode_channel = 1

abbrev pub udp_caps_channel : ℕ
udp_caps_channel = 0x01

abbrev pub udp_caps_frag : ℕ
udp_caps_frag = 0x02

abbrev pub udp_caps_datagram : ℕ
udp_caps_datagram = 0x04

abbrev pub udp_caps_shard : ℕ
udp_caps_shard = 0x08

abbrev pub udp_max_shard_count : ℕ
udp_max_shard_count = 32

abbrev pub udp_datagram_frame_payload_max : ℕ
udp_datagram_frame_payload_max = 1136

-- The part of *ssh.Client that is used: the reply of a global request (`none` is an error, the Bool
-- the server's answer), and the opening and closing of data channels. Channels are told apart by
-- the shard index in their opening data.
pub record Client (W : Type 0) : Type 0 where
  pub send_request : List ℕ → W → Option (Bool × List ℕ) × W
  pub open_channel : List ℕ → W → Bool × W
  pub close_channel : ℕ → W → W

-- `chs` lists the shard indices of the open channels; `datagram` says that the field is not nil.
pub record UdpForwardSession : Type 0 where
  pub chs : List ℕ
  pub actual_port : ℕ
  pub shard_count : ℕ
  pub max_packet_size : ℕ
  pub frag_enabled : Bool
  pub frag_payload_max : ℕ
  pub datagram : Bool

pub data SetupError : Type 0 where
  request_failed forward_rejected : SetupError
  malformed_reply : ℕ → SetupError
  unsupported_mode : ℕ → SetupError
  channel_failed : ℕ → ℕ → SetupError

pub data Setup : Type 0 where
  session : UdpForwardSession → Setup
  failed : SetupError → Setup

-- "0.0.0.0"
abbrev bind_addr : List ℕ
bind_addr = b'0' ∷ b'.' ∷ b'0' ∷ b'.' ∷ b'0' ∷ b'.' ∷ b'0' ∷ []

-- The argument `dc` of setupUDPForward: `none` is nil, and the Bool is dc.SupportsDatagrams().
abbrev pub supports_datagrams : Option Bool → Bool
supports_datagrams none = false
supports_datagrams (some b) = b

abbrev pub not_nil : Option Bool → Bool
not_nil none = false
not_nil (some b) = true

-- The capability byte.
unfoldable pub request_caps : Option Bool → ℕ
request_caps dc =
    let caps = bit_or (bit_or udp_caps_channel udp_caps_frag) udp_caps_shard in
    if supports_datagrams dc then bit_or caps udp_caps_datagram else caps

unfoldable pub request_payload : ℕ → Option Bool → List ℕ
unfolding request_caps
request_payload remote_port dc =
    put_uint32 (length bind_addr)
    ++ (bind_addr ++ (put_uint32 (remote_port % 2 ^ 32) ++ (request_caps dc ∷ [])))

-- The session before the extension of the reply is read.
unfoldable pub base_session : ℤ → ℕ → UdpForwardSession
base_session config_max actual_port = record {
  chs = [];
  actual_port = actual_port;
  shard_count = 1;
  max_packet_size =
      if ltb 0 (pos_part config_max) then pos_part config_max else udp_max_packet_size;
  frag_enabled = false;
  frag_payload_max = 0;
  datagram = false;
}

-- Bytes 5 to 9: capabilities, packet size, fragment size.
unfoldable pub read_extension : List ℕ → UdpForwardSession → UdpForwardSession
read_extension resp s =
    let srv_max = uint16_at resp 6 in
    let srv_frag_max = uint16_at resp 8 in
    let frag =
      not (bit_and (byte_at resp 5) udp_caps_frag == 0)
      && (ltb 0 srv_frag_max && leb srv_frag_max udp_max_datagram_size) in
    if leb 10 (length resp)
    then record s {
      max_packet_size = if ltb 0 srv_max then srv_max else s.max_packet_size;
      frag_enabled = if frag then true else s.frag_enabled;
      frag_payload_max = if frag then srv_frag_max else s.frag_payload_max;
    }
    else s

-- Byte 10: the number of channels.
unfoldable pub clamp_shards : ℕ → ℕ
clamp_shards sc =
    let at_least_one = if ltb sc 1 then 1 else sc in
    if ltb udp_max_shard_count at_least_one then udp_max_shard_count else at_least_one

unfoldable pub read_shards : List ℕ → UdpForwardSession → UdpForwardSession
unfolding clamp_shards
read_shards resp s =
    if leb 11 (length resp) then record s { shard_count = clamp_shards (byte_at resp 10) } else s

unfoldable pub read_datagram_caps : Option Bool → List ℕ → UdpForwardSession → UdpForwardSession
read_datagram_caps dc resp s =
    if not_nil dc
      && (s.frag_enabled
          && (leb 6 (length resp) && not (bit_and (byte_at resp 5) udp_caps_datagram == 0)))
    then record s {
      datagram = true;
      frag_payload_max =
          if ltb udp_datagram_frame_payload_max s.frag_payload_max
          then udp_datagram_frame_payload_max
          else s.frag_payload_max;
    }
    else s

-- All that the reply decides, in the order of the source.
unfoldable pub negotiate : ℤ → Option Bool → List ℕ → UdpForwardSession
unfolding base_session read_extension read_shards read_datagram_caps
negotiate config_max dc resp =
    read_datagram_caps dc resp
      (read_shards resp (read_extension resp (base_session config_max (uint32_at resp 0))))

module _ {W : Type 0} (client : Client W) where
  unfoldable pub close_channels : List ℕ → W → W
  close_channels [] w = w
  close_channels (i ∷ is) w = close_channels is (client.close_channel i w)

  -- The loop that opens the channels, from index `i` on; `opened` are those before it. A failure
  -- closes them.
  unfoldable pub open_channels : UdpForwardSession → ℕ → ℕ → List ℕ → W → Setup × W
  unfolding close_channels
  open_channels s zero i opened w = (session (record s { chs = opened }), w)
  open_channels s (suc rounds) i opened w =
      let (is_open, w') = client.open_channel (put_uint32 s.actual_port ++ (i % 256 ∷ [])) w in
      elim is_open [
        | true ↦ open_channels s rounds (i + 1) (opened ++ (i ∷ [])) w'
        | false ↦ (failed (channel_failed i s.shard_count), close_channels opened w')
      ]

  unfoldable pub start_session : UdpForwardSession → W → Setup × W
  unfolding open_channels
  start_session s w = if s.datagram then (session s, w) else open_channels s s.shard_count 0 [] w

  -- The checks of the reply that come before the negotiation.
  unfoldable pub handle_reply : ℤ → Option Bool → List ℕ → W → Setup × W
  unfolding start_session
  handle_reply config_max dc resp w =
      if ltb (length resp) 5
      then (failed (malformed_reply (length resp)), w)
      else if not (byte_at resp 4 == udp_mode_channel)
      then (failed (unsupported_mode (byte_at resp 4)), w)
      else start_session (negotiate config_max dc resp) w

  -- The outcome of SendRequest: an error, a refusal, or an acceptance with its data.
  unfoldable pub on_reply : ℤ → Option Bool → Option (Bool × List ℕ) → W → Setup × W
  unfolding handle_reply
  on_reply config_max dc none w = (failed request_failed, w)
  on_reply config_max dc (some (false, resp)) w = (failed forward_rejected, w)
  on_reply config_max dc (some (true, resp)) w = handle_reply config_max dc resp w

  unfoldable pub setup_udp_forward : ℕ → ℤ → Option Bool → W → Setup × W
  unfolding on_reply
  setup_udp_forward remote_port config_max dc w =
      let (reply, w') = client.send_request (request_payload remote_port dc) w in
      on_reply config_max dc reply w'

-- The proxy that `runUDPProxy` starts, once it has resolved the local address; `none` where it finds
-- no data channel.
unfoldable pub new_udp_proxy : UdpForwardSession → ℤ → Option UdpProxy
new_udp_proxy s idle_seconds =
    if not s.datagram && length s.chs == 0
    then none
    else some (record {
      shards = length s.chs;
      datagram = s.datagram;
      port = s.actual_port;
      idle_timeout = udp_effective_flow_idle_timeout idle_seconds;
      max_packet_size = pos s.max_packet_size;
      frag_enabled = s.frag_enabled;
      frag_payload_max = s.frag_payload_max;
      next_frag_id = 0;
      reasm = new_udp_reassembler;
      flows = [];
    })
