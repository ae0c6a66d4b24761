-- ===== src/Udp/Send.antt =====
-- From the local service to the server: `writeDatagram` and what it calls
-- (base_tunnel/udp_proxy.go, base_tunnel/udp_datagram.go).
pub mod Plan
pub mod Pieces
mod Runs
use nssh.Base.{ℕ, zero, suc, ◌+◌, ◌-◌, ◌*◌, ◌/◌, ◌%◌, ◌^◌, Bool, true, false, ◌||◌, not}
use nssh.Base.{List, [], ◌∷◌, ◌++◌, ltb, leb, ◌==◌, if◌then◌else◌, length, take, drop}
use nssh.Wire.{put_uint16}
use nssh.Udp.Frame.{UdpFrameMeta, udp_frame_flag_fragment, encode_udp_frame, encode_udp_frame_v2}
use nssh.Udp.Link.{Link}
use nssh.Udp.Proxy.{UdpProxy, effective_max_packet_size, channel_for}
use nssh.Udp.Reassembler.{udp_max_datagram_size}

-- xs[a:b]
abbrev pub slice : {A : Type 0} → ℕ → ℕ → List A → List A
slice a b xs = take (b - a) (drop a xs)

-- Go on if the write returned no error.
abbrev pub and_then : {W : Type 0} → Bool × W → (W → Bool × W) → Bool × W
and_then (true, w) k = k w
and_then (false, w) k = (false, w)

-- The content of one QUIC datagram: the port in two bytes, and a v2 frame.
unfoldable pub datagram_content : UdpProxy → UdpFrameMeta → List ℕ → List ℕ
datagram_content p meta payload = put_uint16 (p.port % 2 ^ 16) ++ encode_udp_frame_v2 meta payload

-- The v2 frame of a datagram that is sent whole.
unfoldable pub whole_meta : ℕ → UdpFrameMeta
whole_meta flow_id = record {
  flow_id = flow_id;
  flags = 0;
  frag_id = 0;
  frag_idx = 0;
  frag_cnt = 1;
}

module _ {W : Type 0} (link : Link W) where
  unfoldable pub send_datagram_frame : UdpProxy → UdpFrameMeta → List ℕ → W → Bool × W
  send_datagram_frame p meta payload w =
      if p.datagram then link.send_datagram (datagram_content p meta payload) w else (false, w)

  unfoldable pub write_frame : UdpProxy → ℕ → List ℕ → W → Bool × W
  write_frame p flow_id payload w =
      link.write_channel (channel_for p flow_id) (encode_udp_frame flow_id payload) w

  unfoldable pub write_frame_v2 : UdpProxy → UdpFrameMeta → List ℕ → W → Bool × W
  write_frame_v2 p meta payload w =
      if p.datagram
      then send_datagram_frame p meta payload w
      else link.write_channel (channel_for p meta.flow_id) (encode_udp_frame_v2 meta payload) w

  -- The loop over the fragments, from index `i` on, with `rounds` of them left.
  unfoldable pub write_fragments : UdpProxy → ℕ → ℕ → ℕ → List ℕ → ℕ → ℕ → W → Bool × W
  write_fragments p flow_id frag_id frag_cnt payload zero i w = (true, w)
  write_fragments p flow_id frag_id frag_cnt payload (suc rounds) i w =
      let start = i * p.frag_payload_max in
      let end =
        if ltb (length payload) (start + p.frag_payload_max)
        then length payload
        else start + p.frag_payload_max in
      let meta : UdpFrameMeta = record {
        flow_id = flow_id;
        flags = udp_frame_flag_fragment;
        frag_id = frag_id;
        frag_idx = i % 256;
        frag_cnt = frag_cnt % 256;
      } in
      and_then (write_frame_v2 p meta (slice start end payload) w)
        (λ w'. write_fragments p flow_id frag_id frag_cnt payload rounds (i + 1) w')

  -- The datagram as fragments under a new fragment id.
  unfoldable pub write_numbered : UdpProxy → ℕ → List ℕ → ℕ → W → Bool × UdpProxy × W
  write_numbered p flow_id payload frag_cnt w =
      let next = (p.next_frag_id + 1) % 2 ^ 32 in
      let (written, w') = write_fragments p flow_id (next % 2 ^ 16) frag_cnt payload frag_cnt 0 w in
      (written, record p { next_frag_id = next }, w')

  -- fragPayloadMax is exceeded.
  unfoldable pub write_split : UdpProxy → ℕ → List ℕ → W → Bool × UdpProxy × W
  unfolding write_numbered
  write_split p flow_id payload w =
      let frag_cnt = (length payload + p.frag_payload_max - 1) / p.frag_payload_max in
      if ltb 255 frag_cnt then (true, p, w) else write_numbered p flow_id payload frag_cnt w

  unfoldable pub write_whole : UdpProxy → UdpFrameMeta → List ℕ → W → Bool × UdpProxy × W
  write_whole p meta payload w =
      let (written, w') = write_frame_v2 p meta payload w in (written, p, w')

  unfoldable pub write_v1 : UdpProxy → ℕ → List ℕ → W → Bool × UdpProxy × W
  write_v1 p flow_id payload w =
      let (written, w') = write_frame p flow_id payload w in (written, p, w')

  -- One complete datagram. The result says whether the flow may live on; a datagram that is too
  -- long is dropped, and that is no failure.
  unfoldable pub write_datagram : UdpProxy → ℕ → List ℕ → W → Bool × UdpProxy × W
  unfolding write_split write_whole write_v1
  write_datagram p flow_id payload w =
      if not p.frag_enabled
      then if ltb (effective_max_packet_size p) (length payload)
        then (true, p, w)
        else write_v1 p flow_id payload w
      else if ltb udp_max_datagram_size (length payload) || p.frag_payload_max == 0
      then (true, p, w)
      else if leb (length payload) p.frag_payload_max
      then write_whole p (whole_meta flow_id) payload w
      else write_split p flow_id payload w
