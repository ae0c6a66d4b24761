-- ===== src/DataPlane/Layout.antt =====
-- The layout of the frames on the wire.
use nssh.Base.{ℕ, ◌^◌, ◌<◌, ◌≡◌, refl, ◌∙◌, arith, List, ◌∷◌, ◌++◌, length, take, drop}
use nssh.Base.{length-take}
use nssh.Wire.{put_uint16, put_uint32, put_uint64, uint16_at, uint32_at, uint64_at}
use nssh.Wire.{ok}
use nssh.Wire.Laws.{read_full-append, read_full_header}
use nssh.DataPlane.{
  DataOpenFrame, read_data_open_body, read_data_open_frame, encode_data_error_frame,
}
use nssh.DataPlane.{data_frame_type_open}

abbrev open_header : ℕ → List ℕ
open_header conn_id = data_frame_type_open ∷ put_uint64 conn_id

abbrev open_meta : ℕ → ℕ → List ℕ
open_meta port len = put_uint32 port ++ put_uint16 len

-- [type 1B][connID 8B][port 4B][hostLen 2B][host][originPort 4B], and what follows on the channel.
abbrev pub open_frame_then : DataOpenFrame → List ℕ → List ℕ
open_frame_then f rest =
    open_header f.conn_id
    ++ (open_meta f.port (length f.origin_host)
        ++ (f.origin_host ++ (put_uint32 f.origin_port ++ rest)))

pub record IsDataOpenFrame (f : DataOpenFrame) : Type 0 where
  pub conn_u64 : f.conn_id < 2 ^ 64
  pub port_u32 : f.port < 2 ^ 32
  pub host_u16 : length f.origin_host < 2 ^ 16
  pub origin_u32 : f.origin_port < 2 ^ 32

header_fields :
    (n : ℕ) → n < 2 ^ 64 → (length (open_header n) ≡ 9) × (uint64_at (open_header n) 1 ≡ n)
unfolding put_uint64 uint64_at uint32_at uint16_at
header_fields n h = omega arith

meta_fields :
    (port len : ℕ)
    → port < 2 ^ 32
    → len < 2 ^ 16
    → (length (open_meta port len) ≡ 6)
      × (uint32_at (open_meta port len) 0 ≡ port)
      × (uint16_at (open_meta port len) 4 ≡ len)
unfolding put_uint32 put_uint16 uint32_at uint16_at
meta_fields port len h k = omega arith

port_fields : (n : ℕ) → n < 2 ^ 32 → (length (put_uint32 n) ≡ 4) × (uint32_at (put_uint32 n) 0 ≡ n)
unfolding put_uint32 uint32_at uint16_at
port_fields n h = omega arith

read_body :
    (conn_id : ℕ) (meta host port_buf rest : List ℕ)
    → length meta ≡ 6
    → uint16_at meta 4 ≡ length host
    → length port_buf ≡ 4
    → read_data_open_body conn_id (meta ++ (host ++ (port_buf ++ rest)))
      ≡ ok (
        record {
          conn_id = conn_id;
          port = uint32_at meta 0;
          origin_host = host;
          origin_port = uint32_at port_buf 0;
        },
        rest,
      )
unfolding read_data_open_body
read_body conn_id meta host port_buf rest l e k = rw (
  read_full_header 6 meta (host ++ (port_buf ++ rest)) l,
  e,
  read_full-append host (port_buf ++ rest),
  read_full_header 4 port_buf rest k,
)

-- A DATA_OPEN frame with fields in range is read from the front of the channel, and what follows
-- it is left.
pub read_data_open_frame-open_frame_then :
    (f : DataOpenFrame) (rest : List ℕ)
    → IsDataOpenFrame f
    → read_data_open_frame (open_frame_then f rest) ≡ ok (f, rest)
unfolding read_data_open_frame
read_data_open_frame-open_frame_then f rest h =
    let (hl, hv) = header_fields f.conn_id h.conn_u64 in
    let (ml, mp, mh) = meta_fields f.port (length f.origin_host) h.port_u32 h.host_u16 in
    let (pl, pv) = port_fields f.origin_port h.origin_u32 in
    rw (read_full_header 9 (open_header f.conn_id) _ hl) (
      read_body (uint64_at (open_header f.conn_id) 1) (open_meta f.port (length f.origin_host))
        f.origin_host (put_uint32 f.origin_port) rest ml mh pl
      ∙ rw (hv, mp, pv) refl)

-- A DATA_ERROR frame holds the 64-bit connection id, and the first 65535 bytes of the reason
-- behind a length field that tells how many they are.
pub encode_data_error_frame_fields :
    (conn_id : ℕ) (reason : List ℕ)
    → conn_id < 2 ^ 64
    → (uint64_at (encode_data_error_frame conn_id reason) 1 ≡ conn_id)
      × (uint16_at (encode_data_error_frame conn_id reason) 9
          ≡ length (drop 11 (encode_data_error_frame conn_id reason)))
      × (drop 11 (encode_data_error_frame conn_id reason) ≡ take 65535 reason)
unfolding encode_data_error_frame put_uint64 put_uint16 uint64_at uint32_at uint16_at
encode_data_error_frame_fields conn_id reason h =
    (omega arith, omega (arith, length-take 65535 reason), refl)
