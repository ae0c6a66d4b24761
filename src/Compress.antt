-- ===== src/Compress.antt =====
-- The compressing writer of a channel (base_tunnel/compress.go): blocks of the local service's bytes
-- become frames of four bytes of length, one byte of flags, and the payload.
pub mod Stream
pub mod Decode
mod Runs
use nssh.Base.{
  ℕ, zero, suc, ◌+◌, ◌%◌, ◌^◌, Bool, true, false, Option, none, some, List, [], ◌∷◌, ◌++◌,
}
use nssh.Base.{◌&&◌, not, ltb, leb, ◌==◌, if◌then◌else◌, length, take, drop}
use nssh.Wire.{put_uint32}

abbrev pub compress_frame_header_size : ℕ
compress_frame_header_size = 5

abbrev pub compress_block_size : ℕ
compress_block_size = 65536

abbrev pub compress_min_block_size : ℕ
compress_min_block_size = 256

abbrev pub compress_frame_flag_compressed : ℕ
compress_frame_flag_compressed = 0x01

abbrev pub compress_bad_block_limit : ℕ
compress_bad_block_limit = 2

-- An io.Writer: how many bytes it has taken, and whether it returned no error. `deflate` is one block
-- through the flate.Writer, reset before it and closed behind it; `none` is an error of either call.
pub record Sink (W : Type 0) : Type 0 where
  pub write : List ℕ → W → ℕ × Bool × W
  pub deflate : List ℕ → Option (List ℕ)

pub data WriteError : Type 0 where
  write_failed short_write deflate_failed : WriteError

-- `raw_only` is also set where flate.NewWriter has failed and `fw` is nil.
pub record CompressWriter : Type 0 where
  pub raw_streak : ℕ
  pub raw_only : Bool

unfoldable pub new_compress_writer : Bool → CompressWriter
new_compress_writer has_flate = record { raw_streak = 0; raw_only = not has_flate }

-- The frame's header.
unfoldable pub frame_header : ℕ → ℕ → List ℕ
frame_header flags len = put_uint32 (len % 2 ^ 32) ++ (flags ∷ [])

-- A block that did not get smaller.
unfoldable pub bad_block : CompressWriter → CompressWriter
bad_block c = record {
  raw_streak = c.raw_streak + 1;
  raw_only = if leb compress_bad_block_limit (c.raw_streak + 1) then true else c.raw_only;
}

module _ {W : Type 0} (sink : Sink W) where
  -- The loop of writeFull, for at most `fuel` rounds; the outer `none` says that these were too few.
  unfoldable pub write_loop : ℕ → List ℕ → W → Option (Option WriteError × W)
  write_loop fuel [] w = some (none, w)
  write_loop zero (x ∷ b) w = none
  write_loop (suc fuel) (x ∷ b) w =
      let (n, written, w') = sink.write (x ∷ b) w in
      let rest = write_loop fuel (drop n (x ∷ b)) w' in
      if not written
      then some (some write_failed, w')
      else if n == 0
      then some (some short_write, w')
      else rest

  -- Every round takes a byte, so that there are no more rounds than bytes.
  unfoldable pub write_full : List ℕ → W → Option WriteError × W
  unfolding write_loop
  write_full b w = elim (write_loop (length b) b w) [ none ↦ (some short_write, w) | some r ↦ r ]

  unfoldable pub write_compressed_frame : List ℕ → W → Option WriteError × W
  unfolding frame_header
  write_compressed_frame payload w =
      write_full (frame_header compress_frame_flag_compressed (length payload) ++ payload) w

  -- The header and the payload in two writes.
  unfoldable pub write_raw_frame : List ℕ → W → Option WriteError × W
  unfolding frame_header
  write_raw_frame payload w =
      let (e, w') = write_full (frame_header 0 (length payload)) w in
      elim e [ none ↦ write_full payload w' | some err ↦ (some err, w') ]

  abbrev with_writer :
      CompressWriter → Option WriteError × W → Option WriteError × CompressWriter × W
  with_writer c (e, w) = (e, c, w)

  -- The block went through deflate.
  unfoldable pub write_deflated :
      CompressWriter → List ℕ → Option (List ℕ) → W → Option WriteError × CompressWriter × W
  unfolding write_compressed_frame write_raw_frame bad_block
  write_deflated c block none w = (some deflate_failed, c, w)
  write_deflated c block (some z) w =
      if ltb (length z) (length block)
      then with_writer (record c { raw_streak = 0 }) (write_compressed_frame z w)
      else with_writer (bad_block c) (write_raw_frame block w)

  unfoldable pub write_block : CompressWriter → List ℕ → W → Option WriteError × CompressWriter × W
  unfolding write_deflated
  write_block c block w =
      if not c.raw_only && leb compress_min_block_size (length block)
      then write_deflated c block (sink.deflate block) w
      else with_writer c (write_raw_frame block w)

  -- The loop of Write, from `total` bytes on. Every round takes a byte, so that `rounds` may be the
  -- number of bytes.
  unfoldable pub write_blocks :
      ℕ → ℕ → CompressWriter → List ℕ → W → ℕ × Option WriteError × CompressWriter × W
  unfolding write_block
  write_blocks rounds total c [] w = (total, none, c, w)
  write_blocks zero total c (x ∷ p) w = (total, none, c, w)
  write_blocks (suc rounds) total c (x ∷ p) w =
      let block = take compress_block_size (x ∷ p) in
      let (e, c', w') = write_block c block w in
      let rest =
        write_blocks rounds (total + length block) c' (drop compress_block_size (x ∷ p)) w' in
      elim e [ none ↦ rest | some err ↦ (total, some err, c', w') ]

  unfoldable pub write : CompressWriter → List ℕ → W → ℕ × Option WriteError × CompressWriter × W
  unfolding write_blocks
  write c p w = write_blocks (length p) 0 c p w
