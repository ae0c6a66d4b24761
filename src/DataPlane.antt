-- ===== src/DataPlane.antt =====
-- The frames of the data plane's control channel (base_tunnel/data_plane.go).
pub mod Layout
pub mod Loop
pub mod Serve
mod Runs
use nssh.Base.{ℕ, ◌+◌, ◌%◌, ◌^◌, ◌<◌, List, [], ◌∷◌, ◌++◌, ◌==◌, if◌then◌else◌, length, take}
use nssh.Wire.{put_uint16, put_uint32, put_uint64, uint16_at, uint32_at, uint64_at, byte_at}
use nssh.Wire.{Result, ok, err, ◌>>=◌, read_full, unknown_frame_type}

abbrev pub data_frame_type_open : ℕ
data_frame_type_open = 1

abbrev pub data_frame_type_error : ℕ
data_frame_type_error = 2

abbrev pub max_data_frame_field_len : ℕ
max_data_frame_field_len = 65535

pub record DataOpenFrame : Type 0 where
  pub conn_id : ℕ
  pub port : ℕ
  pub origin_host : List ℕ
  pub origin_port : ℕ

-- The body of a DATA_OPEN frame, behind the type and the connection id.
unfoldable pub read_data_open_body : ℕ → List ℕ → Result (DataOpenFrame × List ℕ)
read_data_open_body conn_id r = do
  (meta, r1) ← read_full 6 r
  (host, r2) ← read_full (uint16_at meta 4) r1
  (port_buf, r3) ← read_full 4 r2
  ok (
    record {
      conn_id = conn_id;
      port = uint32_at meta 0;
      origin_host = host;
      origin_port = uint32_at port_buf 0;
    },
    r3,
  )

unfoldable pub read_data_open_frame : List ℕ → Result (DataOpenFrame × List ℕ)
unfolding read_data_open_body
read_data_open_frame r = do
  (hdr, r1) ← read_full 9 r
  if byte_at hdr 0 == data_frame_type_open
      then read_data_open_body (uint64_at hdr 1) r1
      else err (unknown_frame_type (byte_at hdr 0))

-- A reason that is too long is cut.
unfoldable pub encode_data_error_frame : ℕ → List ℕ → List ℕ
encode_data_error_frame conn_id reason =
    let msg = take max_data_frame_field_len reason in
    data_frame_type_error ∷ (put_uint64 conn_id ++ (put_uint16 (length msg % 2 ^ 16) ++ msg))
