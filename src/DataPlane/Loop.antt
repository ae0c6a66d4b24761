-- ===== src/DataPlane/Loop.antt =====
-- The loop of the data plane and what it starts for each frame (base_tunnel/data_plane.go).
use nssh.Base.{ℕ, zero, suc, Bool, true, false, Option, none, some}
use nssh.Base.{List, [], ◌∷◌, ◌++◌, not, if◌then◌else◌}
use nssh.Base.Text.{String, str_eq}
use nssh.Wire.{put_uint64, Result, ReadError, ok, err}
use nssh.Config.{Stdlib}
use nssh.DataPlane.{DataOpenFrame, read_data_open_frame, encode_data_error_frame}

-- dataPlaneEnabled, with the value of NSSH_DATA_PLANE.
unfoldable pub data_plane_enabled : Stdlib → String → Bool
data_plane_enabled std value =
    let v = std.lower_trim value in
    if str_eq v "off"
    then false
    else if str_eq v "0"
    then false
    else if str_eq v "false"
    then false
    else not (str_eq v "disabled")

abbrev pub data_stream_magic : List ℕ
data_stream_magic = 0x00 ∷ b'N' ∷ b'W' ∷ b'Y' ∷ []

unfoldable pub data_stream_header : ℕ → List ℕ
data_stream_header conn_id = data_stream_magic ++ put_uint64 conn_id

-- The frames for which a goroutine is started, and the error that ends the loop, or that there were more
-- than `fuel` frames. A DATA_OPEN frame is never nil where there is no error.
abbrev pub with_frame :
    DataOpenFrame
    → Option (List DataOpenFrame × ReadError)
    → Option (List DataOpenFrame × ReadError)
with_frame f none = none
with_frame f (some (fs, e)) = some (f ∷ fs, e)

abbrev pub with_read :
    Result (DataOpenFrame × List ℕ)
    → (List ℕ → Option (List DataOpenFrame × ReadError))
    → Option (List DataOpenFrame × ReadError)
with_read (err e) go_on = some ([], e)
with_read (ok (f, r)) go_on = with_frame f (go_on r)

unfoldable pub run : ℕ → List ℕ → Option (List DataOpenFrame × ReadError)
run zero r = none
run (suc fuel) r = with_read (read_data_open_frame r) (run fuel)

-- The steps of openDataStream outside it; an error comes with its text. `write_control` says whether there
-- was no error, and `handle_channel` carries the bytes until both sides are closed.
pub record Plane (W : Type 0) : Type 0 where
  pub dial_local : W → Option (List ℕ) × W
  pub open_stream : W → Option (List ℕ) × W
  pub write_stream : List ℕ → W → Option (List ℕ) × W
  pub write_control : List ℕ → W → Bool × W
  pub handle_channel : W → W

-- `control_closed` is what closeOnce has seen; the others tell what openDataStream has done for its frame:
-- whether the local connection and the two directions of the stream are open, whether they were handed to
-- handleChannel, and the DATA_ERROR frames that were written without an error.
pub record DataPlane (W : Type 0) : Type 0 where
  pub control_closed : Bool
  pub local_open : Bool
  pub stream_reads : Bool
  pub stream_writes : Bool
  pub handed_over : Bool
  pub sent : List (List ℕ)
  pub world : W

-- "local service unavailable: ", "open data stream failed: ", "write data stream header failed: "
pub record Reasons : Type 0 where
  pub unavailable : List ℕ
  pub not_opened : List ℕ
  pub not_written : List ℕ

module _ {W : Type 0} (plane : Plane W) (reasons : Reasons) where
  unfoldable pub send_error : ℕ → List ℕ → DataPlane W → DataPlane W
  unfolding encode_data_error_frame
  send_error conn_id reason d =
      let frame = encode_data_error_frame conn_id reason in
      let (written, w) = plane.write_control frame d.world in
      record d {
        control_closed = if written then d.control_closed else true;
        sent = if written then frame ∷ d.sent else d.sent;
        world = w;
      }

  -- Close of a stream ends its writing direction only.
  unfoldable pub header_result : DataOpenFrame → Option (List ℕ) → DataPlane W → DataPlane W
  unfolding send_error
  header_result f none d = record d { handed_over = true; world = plane.handle_channel d.world }
  header_result f (some e) d =
      send_error f.conn_id (reasons.not_written ++ e)
        (record d { stream_writes = false; local_open = false })

  unfoldable pub stream_result : DataOpenFrame → Option (List ℕ) → DataPlane W → DataPlane W
  unfolding header_result send_error data_stream_header
  stream_result f none d =
      let (e, w) = plane.write_stream (data_stream_header f.conn_id) d.world in
      header_result f e (record d { stream_reads = true; stream_writes = true; world = w })
  stream_result f (some e) d =
      send_error f.conn_id (reasons.not_opened ++ e) (record d { local_open = false })

  unfoldable pub local_result : DataOpenFrame → Option (List ℕ) → DataPlane W → DataPlane W
  unfolding stream_result send_error
  local_result f none d =
      let (e, w) = plane.open_stream d.world in
      stream_result f e (record d { local_open = true; world = w })
  local_result f (some e) d = send_error f.conn_id (reasons.unavailable ++ e) d

  unfoldable pub open_data_stream : DataOpenFrame → DataPlane W → DataPlane W
  unfolding local_result
  open_data_stream f d =
      let (e, w) = plane.dial_local d.world in local_result f e (record d { world = w })
