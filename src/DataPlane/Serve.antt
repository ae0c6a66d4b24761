-- ===== src/DataPlane/Serve.antt =====
-- The frames that the loop serves, and how each of them ends.
use nssh.Base.{
  ℕ, zero, suc, ◌<◌, ◌≤◌, ◌≡◌, ◌≢◌, refl, ap, ◌∙◌, arith, Bool, true, false, Option, none, some,
}
use nssh.Base.{List, [], ◌∷◌, length, Bool-cases, Option-cases, ◌⊎◌, inl, inr, ◌==◌}
use nssh.Wire.{Result, ReadError, ok, err, eof, ◌>>=◌, read_full, uint16_at, uint64_at, byte_at}
use nssh.Wire.Laws.{bind-ok, read_full-ok, ok_injective}
use nssh.DataPlane.{
  DataOpenFrame, read_data_open_frame, read_data_open_body, encode_data_error_frame,
  data_frame_type_open,
}
use nssh.DataPlane.Layout.{IsDataOpenFrame, open_frame_then, read_data_open_frame-open_frame_then}
use nssh.DataPlane.Loop.{
  run, with_frame, with_read, Plane, DataPlane, Reasons, open_data_stream, send_error,
}
use nssh.DataPlane.Loop.{local_result, stream_result, header_result}

-- The control channel that carries the frames and is then closed.
abbrev pub open_frames : List DataOpenFrame → List ℕ
open_frames [] = []
open_frames (f ∷ fs) = open_frame_then f (open_frames fs)

abbrev pub AllFrames : List DataOpenFrame → Type 0
AllFrames [] = Unit
AllFrames (f ∷ fs) = IsDataOpenFrame f × AllFrames fs

nothing_read : read_data_open_frame [] ≡ err eof
unfolding read_data_open_frame read_full nssh.Wire.short_read
nothing_read = refl

-- The loop of the data plane starts a stream for every DATA_OPEN frame that the server sent, with
-- the fields it wrote and in its order, and ends where the channel does, for fields in range and
-- with more fuel than frames.
pub run-open_frames :
    (fuel : ℕ) (fs : List DataOpenFrame)
    → AllFrames fs
    → length fs < fuel
    → run fuel (open_frames fs) ≡ some (fs, eof)
unfolding run
run-open_frames zero fs h k = absurd (omega arith)
run-open_frames (suc fuel) [] h k = ap (λ x. with_read x (run fuel)) nothing_read
run-open_frames (suc fuel) (f ∷ fs) h k =
    ap (λ x. with_read x (run fuel)) (read_data_open_frame-open_frame_then f (open_frames fs) h.0)
    ∙ ap (with_frame f) (run-open_frames fuel fs h.1 (omega arith))

read_data_open_body_takes :
    (conn_id : ℕ) (r : List ℕ) (f : DataOpenFrame) (behind : List ℕ)
    → read_data_open_body conn_id r ≡ ok (f, behind)
    → length behind ≤ length r
unfolding read_data_open_body
read_data_open_body_takes conn_id r f behind e =
    let ((meta, r1), e1, e2) = bind-ok (read_full 6 r) _ _ e in
    let ((host, r2), e3, e4) = bind-ok (read_full (uint16_at meta 4) r1) _ _ e2 in
    let ((port_buf, r3), e5, e6) = bind-ok (read_full 4 r2) _ _ e4 in
    omega (
      arith,
      read_full-ok 6 r meta r1 e1,
      read_full-ok (uint16_at meta 4) r1 host r2 e3,
      read_full-ok 4 r2 port_buf r3 e5,
      ap length (ap (λ p. p.1) (ok_injective e6)),
    )

-- A read frame was at least nine bytes.
read_data_open_frame_takes :
    (r : List ℕ) (f : DataOpenFrame) (behind : List ℕ)
    → read_data_open_frame r ≡ ok (f, behind)
    → length behind < length r
unfolding read_data_open_frame
read_data_open_frame_takes r f behind e =
    let ((hdr, r1), e1, e2) = bind-ok (read_full 9 r) _ _ e in
    elim (Bool-cases (byte_at hdr 0 == data_frame_type_open)) [
      | inl open_type ↦ omega (
        arith,
        read_full-ok 9 r hdr r1 e1,
        read_data_open_body_takes (uint64_at hdr 1) r1 f behind (rw open_type at e2),
      )
      | inr other_type ↦ cc (rw other_type at e2)
    ]

with_read_ends :
    (x : Result (DataOpenFrame × List ℕ)) (k : List ℕ → Option (List DataOpenFrame × ReadError))
    → ((f : DataOpenFrame) (r : List ℕ) → x ≡ ok (f, r) → k r ≢ none)
    → with_read x k ≢ none
with_read_ends (err e) k h n = cc
with_read_ends (ok (f, r)) k h n = elim (Option-cases (k r)) [
  | inl stuck ↦ h f r refl stuck
  | inr (p, more) ↦ cc (rw more at n)
]

-- Whatever the server sends, the loop of the data plane ends with the channel: fuel above the
-- number of bytes is enough.
pub run_ends : (fuel : ℕ) (r : List ℕ) → length r < fuel → run fuel r ≢ none
unfolding run
run_ends zero r h e = omega arith
run_ends (suc fuel) r h e =
    with_read_ends (read_data_open_frame r) (run fuel)
      (λ f behind read.
        run_ends fuel behind (omega (arith, read_data_open_frame_takes r f behind read)))
      e

-- openDataStream before its first step.
abbrev pub fresh_plane : {W : Type 0} → Bool → W → DataPlane W
fresh_plane closed w = record {
  control_closed = closed;
  local_open = false;
  stream_reads = false;
  stream_writes = false;
  handed_over = false;
  sent = [];
  world = w;
}

-- The server was told once, with the id of its connection, or telling it has failed and the control channel
-- is closed.
abbrev pub IsTold : {W : Type 0} → DataOpenFrame → DataPlane W → Type 0
IsTold f d =
    ((reason : List ℕ) × (d.sent ≡ encode_data_error_frame f.conn_id reason ∷ []))
    ⊎ ((d.sent ≡ []) × (d.control_closed ≡ true))

-- Both connections were handed over open and no error was sent, or neither can be written to any more and
-- the server was told.
abbrev pub IsAnswered : {W : Type 0} → DataOpenFrame → DataPlane W → Type 0
IsAnswered f d =
    ((d.handed_over ≡ true)
      × (d.local_open ≡ true)
      × (d.stream_reads ≡ true)
      × (d.stream_writes ≡ true)
      × (d.sent ≡ []))
    ⊎ ((d.handed_over ≡ false) × (d.local_open ≡ false) × (d.stream_writes ≡ false) × IsTold f d)

module _ {W : Type 0} (plane : Plane W) (reasons : Reasons) (f : DataOpenFrame) where
  send_error-IsAnswered :
      (reason : List ℕ) (d : DataPlane W)
      → d.handed_over ≡ false
      → d.local_open ≡ false
      → d.stream_writes ≡ false
      → d.sent ≡ []
      → IsAnswered f (send_error plane reasons f.conn_id reason d)
  unfolding send_error
  send_error-IsAnswered reason d h l s n =
      let frame = encode_data_error_frame f.conn_id reason in
      elim (Bool-cases (plane.write_control frame d.world).0) [
        | inl told ↦ rw told (inr (h, l, s, inl (reason, ap (λ r. frame ∷ r) n)))
        | inr failed ↦ rw failed (inr (h, l, s, inr (n, refl)))
      ]

  header_result-IsAnswered :
      (e : Option (List ℕ)) (d : DataPlane W)
      → d.handed_over ≡ false
      → d.local_open ≡ true
      → d.stream_reads ≡ true
      → d.stream_writes ≡ true
      → d.sent ≡ []
      → IsAnswered f (header_result plane reasons f e d)
  unfolding header_result
  header_result-IsAnswered none d h l r s n = inl (refl, l, r, s, n)
  header_result-IsAnswered (some e) d h l r s n =
      send_error-IsAnswered _ (record d { stream_writes = false; local_open = false }) h refl refl n

  stream_result-IsAnswered :
      (e : Option (List ℕ)) (d : DataPlane W)
      → d.handed_over ≡ false
      → d.local_open ≡ true
      → d.stream_writes ≡ false
      → d.sent ≡ []
      → IsAnswered f (stream_result plane reasons f e d)
  unfolding stream_result
  stream_result-IsAnswered none d h l s n =
      header_result-IsAnswered _ (record d { stream_reads = true; stream_writes = true; world = _ })
        h l refl refl n
  stream_result-IsAnswered (some e) d h l s n =
      send_error-IsAnswered _ (record d { local_open = false }) h refl s n

  local_result-IsAnswered :
      (e : Option (List ℕ)) (closed : Bool) (w : W)
      → IsAnswered f (local_result plane reasons f e (fresh_plane closed w))
  unfolding local_result
  local_result-IsAnswered none closed w = stream_result-IsAnswered _ _ refl refl refl refl
  local_result-IsAnswered (some e) closed w =
      send_error-IsAnswered _ (fresh_plane closed w) refl refl refl refl

  -- openDataStream hands both connections over open and sends no error, or it closes the local
  -- connection, leaves no stream that can still be written to, and writes one DATA_ERROR with the
  -- id of the connection, or closes the control channel where that cannot be written.
  pub open_data_stream-IsAnswered :
      (closed : Bool) (w : W)
      → IsAnswered f (open_data_stream plane reasons f (fresh_plane closed w))
  unfolding open_data_stream
  open_data_stream-IsAnswered closed w = local_result-IsAnswered _ closed _
