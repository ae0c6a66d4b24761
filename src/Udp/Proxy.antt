-- ===== src/Udp/Proxy.antt =====
-- `udpProxy` of base_tunnel/udp_proxy.go: its state and the choices that depend on it alone.
use nssh.Base.{ℕ, ◌+◌, ◌*◌, ◌%◌, Bool}
use nssh.Base.{leb, ltb, ◌==◌, if◌then◌else◌}
use nssh.Base.Int.{ℤ, pos_part}
use nssh.Base.Map.{Map}
use nssh.Udp.Link.{Channel, main, shard}
use nssh.Udp.Reassembler.{UdpReassembler, udp_max_datagram_size}

abbrev pub udp_max_packet_size : ℕ
udp_max_packet_size = 1400

-- 330 s, in nanoseconds
abbrev pub udp_flow_idle_timeout : ℕ
udp_flow_idle_timeout = 330_000_000_000

abbrev pub second : ℕ
second = 1_000_000_000

-- `uplink` is the handle of the flow's socket; `last_seen` is in nanoseconds.
pub record UdpClientFlow : Type 0 where
  pub flow_id : ℕ
  pub uplink : ℕ
  pub last_seen : ℕ
  pub keepalives : ℕ

-- `shards` is len(p.chs); `datagram` says that p.datagram is not nil.
pub record UdpProxy : Type 0 where
  pub shards : ℕ
  pub datagram : Bool
  pub port : ℕ
  pub idle_timeout : ℕ
  pub max_packet_size : ℤ
  pub frag_enabled : Bool
  pub frag_payload_max : ℕ
  pub next_frag_id : ℕ
  pub reasm : UdpReassembler
  pub flows : Map UdpClientFlow

unfoldable pub udp_shard_index : ℕ → ℕ → ℕ
udp_shard_index flow_id n = if leb n 1 then 0 else flow_id % n

unfoldable pub effective_max_packet_size : UdpProxy → ℕ
effective_max_packet_size p =
    if ltb 0 (pos_part p.max_packet_size) then pos_part p.max_packet_size else udp_max_packet_size

unfoldable pub udp_effective_flow_idle_timeout : ℤ → ℕ
udp_effective_flow_idle_timeout seconds =
    if ltb 0 (pos_part seconds) then pos_part seconds * second else udp_flow_idle_timeout

unfoldable pub channel_for : UdpProxy → ℕ → Channel
unfolding udp_shard_index
channel_for p flow_id = if p.shards == 0 then main else shard (udp_shard_index flow_id p.shards)

-- The length of the buffer that `getReadBuf` hands out: one byte more than the largest packet, so
-- that a longer one is seen to be too long.
unfoldable pub read_buf_len : UdpProxy → ℕ
unfolding effective_max_packet_size
read_buf_len p =
    if p.frag_enabled then udp_max_datagram_size + 1 else effective_max_packet_size p + 1
