-- ===== src/Udp/Receive.antt =====
-- From the server to the local service: the readers of base_tunnel/udp_proxy.go (SSH channels) and
-- base_tunnel/udp_datagram.go (QUIC datagrams).
pub mod EndToEnd
mod Runs
use nssh.Base.{ℕ, zero, suc, ◌+◌, Bool, true, false, Option, none, some, List, [], ◌∷◌}
use nssh.Base.{leb, ◌==◌, if◌then◌else◌, not, bit_and, length, drop}
use nssh.Wire.{Result, ok, err, ◌>>=◌, ReadError}
use nssh.Udp.Frame.{UdpFrameMeta, udp_frame_flag_fragment, udp_frame_flag_keepalive}
use nssh.Udp.Frame.{read_udp_frame, read_udp_frame_v2, parse_udp_frame_v2_bytes}
use nssh.Udp.Link.{Link}
use nssh.Udp.Proxy.{UdpProxy, UdpClientFlow}
use nssh.Udp.Reassembler.{add}
use nssh.Udp.Flows.{refresh, remove, get_or_create_flow}

-- A flow id and a payload for it, or `none` where the source returns ok = false.
abbrev pub Received : Type 0
Received = Option (ℕ × List ℕ)

abbrev pub with_flow : ℕ → Option (List ℕ) → Received
with_flow flow_id none = none
with_flow flow_id (some d) = some (flow_id, d)

-- What readDatagramFrom and decodeDatagramBytes do with a v2 frame: a keepalive refreshes its flow,
-- a whole datagram is passed on, a fragment goes to the reassembler.
unfoldable pub handle_frame_v2 : UdpProxy → ℕ → UdpFrameMeta → List ℕ → Received × UdpProxy
unfolding refresh
handle_frame_v2 p now meta frag =
    if not (bit_and meta.flags udp_frame_flag_keepalive == 0)
    then (none, refresh p now meta.flow_id)
    else if bit_and meta.flags udp_frame_flag_fragment == 0
    then (some (meta.flow_id, frag), p)
    else let (whole, reasm) = add p.reasm now meta.flow_id meta frag in
      (with_flow meta.flow_id whole, record p { reasm = reasm })

-- One frame from the front of the stream `r`; an error ends the reader.
unfoldable pub read_datagram_from : UdpProxy → ℕ → List ℕ → Result (Received × UdpProxy × List ℕ)
unfolding handle_frame_v2
read_datagram_from p now r =
    let v1 : Result (Received × UdpProxy × List ℕ) = do
      (flow_id, payload, rest) ← read_udp_frame r
      ok (some (flow_id, payload), p, rest)
    in let v2 : Result (Received × UdpProxy × List ℕ) = do
      (meta, payload, rest) ← read_udp_frame_v2 r
      let (got, p') = handle_frame_v2 p now meta payload
      ok (got, p', rest)
      in if p.frag_enabled then v2 else v1

unfoldable pub decode_datagram_bytes : UdpProxy → ℕ → List ℕ → Received × UdpProxy
unfolding handle_frame_v2
decode_datagram_bytes p now b = elim (parse_udp_frame_v2_bytes b) [
  | none ↦ (none, p)
  | some (meta, frag) ↦ handle_frame_v2 p now meta frag
]

abbrev empty : List ℕ → Bool
empty [] = true
empty (x ∷ xs) = false

module _ {W : Type 0} (link : Link W) where
  -- The flow is there: an empty payload is skipped, and a failed write removes the flow.
  unfoldable pub write_local : UdpProxy → UdpClientFlow → List ℕ → W → UdpProxy × W
  unfolding remove
  write_local p flow payload w =
      let (written, w') = link.write_uplink flow.uplink payload w in
      if empty payload then (p, w) else if written then (p, w') else remove link p flow w'

  -- The common end of the bodies of readChannel and readDatagrams.
  unfoldable pub pass_on : UdpProxy → ℕ → Received → W → UdpProxy × W
  unfolding write_local
  pass_on p now none w = (p, w)
  pass_on p now (some (flow_id, payload)) w =
      let (flow, p', w') = get_or_create_flow link p now flow_id w in
      elim flow [ none ↦ (p', w') | some f ↦ write_local p' f payload w' ]

  -- One round of readDatagrams, with the datagram that ReceiveDatagram returned.
  unfoldable pub datagram_round : UdpProxy → ℕ → List ℕ → W → UdpProxy × W
  unfolding pass_on
  datagram_round p now buf w =
      let (got, p') = decode_datagram_bytes p now (drop 2 buf) in
      if leb (length buf) 2 then (p, w) else pass_on p' now got w
