-- ===== src/Udp/Frame.antt =====
-- The frames of base_tunnel/udp_proxy.go (v1: flow and length; v2: with the fragment fields) and
-- the parser of one v2 frame from a datagram (base_tunnel/udp_datagram.go).
pub mod RoundTrip
mod Runs
use nssh.Base.{ℕ, ◌+◌, ◌%◌, ◌<◌, ◌^◌, Option, none, some, List, [], ◌∷◌, ◌++◌}
use nssh.Base.{ltb, if◌then◌else◌, length, take, drop}
use nssh.Wire.{Result, ok, ◌>>=◌, put_uint16, put_uint32, uint16_at, uint32_at, byte_at, read_full}

abbrev pub udp_frame_header_len : ℕ
udp_frame_header_len = 6

abbrev pub udp_frame_header_len_v2 : ℕ
udp_frame_header_len_v2 = 11

abbrev pub udp_frame_flag_fragment : ℕ
udp_frame_flag_fragment = 0x01

abbrev pub udp_frame_flag_keepalive : ℕ
udp_frame_flag_keepalive = 0x02

pub record UdpFrameMeta : Type 0 where
  pub flow_id : ℕ
  pub flags : ℕ
  pub frag_id : ℕ
  pub frag_idx : ℕ
  pub frag_cnt : ℕ

-- The widths of the Go fields.
pub record IsMeta (m : UdpFrameMeta) : Type 0 where
  pub flow_id_u32 : m.flow_id < 2 ^ 32
  pub flags_byte : m.flags < 256
  pub frag_id_u16 : m.frag_id < 2 ^ 16
  pub frag_idx_byte : m.frag_idx < 256
  pub frag_cnt_byte : m.frag_cnt < 256

unfoldable pub encode_udp_frame : ℕ → List ℕ → List ℕ
encode_udp_frame flow_id payload =
    (put_uint32 flow_id ++ put_uint16 (length payload % 2 ^ 16)) ++ payload

-- The second read, of a payload whose length the header gave; nothing is read for length 0.
unfoldable pub read_payload : ℕ → List ℕ → Result (List ℕ × List ℕ)
read_payload len s = if ltb 0 len then read_full len s else ok ([], s)

-- The flow, the payload, and the stream behind the frame.
unfoldable pub read_udp_frame : List ℕ → Result (ℕ × List ℕ × List ℕ)
read_udp_frame r = do
  (hdr, r') ← read_full udp_frame_header_len r
  (payload, rest) ← read_payload (uint16_at hdr 4) r'
  ok (uint32_at hdr 0, payload, rest)

unfoldable pub header_v2 : UdpFrameMeta → ℕ → List ℕ
header_v2 meta len =
    put_uint32 meta.flow_id
    ++ (meta.flags ∷ (put_uint16 meta.frag_id ++ (meta.frag_idx ∷ meta.frag_cnt ∷ put_uint16 len)))

unfoldable pub encode_udp_frame_v2 : UdpFrameMeta → List ℕ → List ℕ
unfolding header_v2
encode_udp_frame_v2 meta payload = header_v2 meta (length payload % 2 ^ 16) ++ payload

-- The fields of a header of eleven bytes.
unfoldable pub meta_of : List ℕ → UdpFrameMeta
meta_of hdr = record {
  flow_id = uint32_at hdr 0;
  flags = byte_at hdr 4;
  frag_id = uint16_at hdr 5;
  frag_idx = byte_at hdr 7;
  frag_cnt = byte_at hdr 8;
}

unfoldable pub read_udp_frame_v2 : List ℕ → Result (UdpFrameMeta × List ℕ × List ℕ)
unfolding meta_of
read_udp_frame_v2 r = do
  (hdr, r') ← read_full udp_frame_header_len_v2 r
  (payload, rest) ← read_payload (uint16_at hdr 9) r'
  ok (meta_of hdr, payload, rest)

unfoldable pub parse_udp_frame_v2_bytes : List ℕ → Option (UdpFrameMeta × List ℕ)
unfolding meta_of
parse_udp_frame_v2_bytes b =
    if ltb (length b) udp_frame_header_len_v2
    then none
    else if ltb (length b) (udp_frame_header_len_v2 + uint16_at b 9)
    then none
    else some (meta_of b, take (uint16_at b 9) (drop udp_frame_header_len_v2 b))
