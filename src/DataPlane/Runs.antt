-- ===== src/DataPlane/Runs.antt =====
-- Runs of the data plane's frames.
use nssh.Base.{ℕ, ◌+◌, ◌≡◌, arith, true, false, none, some, [], ◌∷◌}
use nssh.Wire.{eof}
use nssh.DataPlane.{DataOpenFrame}
use nssh.DataPlane.Layout.{IsDataOpenFrame}
use nssh.DataPlane.Loop.{run, Plane, Reasons, open_data_stream}
use nssh.DataPlane.Serve.{
  open_frames, run-open_frames, IsAnswered, fresh_plane, open_data_stream-IsAnswered,
}

abbrev sample_open : DataOpenFrame
sample_open = record {
  conn_id = 77;
  port = 8000;
  origin_host = b'h' ∷ b'i' ∷ [];
  origin_port = 50000;
}

sample_open-IsDataOpenFrame : IsDataOpenFrame sample_open
sample_open-IsDataOpenFrame = record {
  conn_u64 = omega arith;
  port_u32 = omega arith;
  host_u16 = omega arith;
  origin_u32 = omega arith;
}

run-open_frames_example :
    run 3 (open_frames (sample_open ∷ sample_open ∷ []))
    ≡ some (sample_open ∷ sample_open ∷ [], eof)
run-open_frames_example =
    run-open_frames 3 (sample_open ∷ sample_open ∷ [])
      (sample_open-IsDataOpenFrame, (sample_open-IsDataOpenFrame, tt)) (omega arith)

-- The local service answers, and the server takes no further stream.
abbrev no_streams : Plane ℕ
no_streams = record {
  dial_local = λ n. (none, n + 1);
  open_stream = λ n. (some (b'e' ∷ []), n + 1);
  write_stream = λ b n. (none, n + 1);
  write_control = λ b n. (true, n + 1);
  handle_channel = λ n. n;
}

abbrev texts : Reasons
texts = record { unavailable = []; not_opened = []; not_written = [] }

open_data_stream-IsAnswered_example :
    IsAnswered sample_open (open_data_stream no_streams texts sample_open (fresh_plane false 0))
open_data_stream-IsAnswered_example =
    open_data_stream-IsAnswered no_streams texts sample_open false 0
