-- ===== src/Tunnel/Handler.antt =====
-- handleChannel (base_tunnel/handler.go): two goroutines that copy between the SSH channel and the
-- local connection, and the select that waits for them.
pub mod Carried
pub mod Closed
mod Runs
use nssh.Base.{ℕ, ◌≡◌, Bool, true, false, Option, none, some, List, [], ◌++◌, ◌&&◌, not, ◌==◌}
use nssh.Base.{if◌then◌else◌, length}
use nssh.Compress.{Sink, WriteError, CompressWriter, new_compress_writer, write}

-- "up" is from the local service to the channel, "down" the other direction. `taken` and `received` are
-- the bytes that the two copies have read.
pub record Handling (W L : Type 0) : Type 0 where
  pub up_done : Bool
  pub down_done : Bool
  pub up_error : Bool
  pub down_error : Bool
  pub once : Bool
  pub channel_half_closed : Bool
  pub local_half_closed : Bool
  pub channel_closed : Bool
  pub local_closed : Bool
  pub cancelled : Bool
  pub returned : Bool
  pub writer : CompressWriter
  pub channel : W
  pub local : L
  pub taken : List ℕ
  pub received : List ℕ

unfoldable pub fresh_handling : {W L : Type 0} → Bool → W → L → Handling W L
unfolding new_compress_writer
fresh_handling has_flate w l = record {
  up_done = false;
  down_done = false;
  up_error = false;
  down_error = false;
  once = false;
  channel_half_closed = false;
  local_half_closed = false;
  channel_closed = false;
  local_closed = false;
  cancelled = false;
  returned = false;
  writer = new_compress_writer has_flate;
  channel = w;
  local = l;
  taken = [];
  received = [];
}

-- One Write of io.CopyBuffer: it stops at an error, and where fewer bytes were taken than it gave.
unfoldable pub copy_write : {W : Type 0} → Sink W → List ℕ → W → Bool × W
copy_write sink p w = let (n, written, w') = sink.write p w in (written && n == length p, w')

abbrev no_error : Option WriteError → Bool
no_error none = true
no_error (some e) = false

-- The same through the compressing writer, if compression has been negotiated.
unfoldable pub up_write :
    {W : Type 0} → Sink W → Bool → CompressWriter → List ℕ → W → Bool × CompressWriter × W
unfolding copy_write write
up_write sink true c p w =
    let (n, e, c', w') = write sink c p w in (no_error e && n == length p, c', w')
up_write sink false c p w = let (written, w') = copy_write sink p w in (written, c, w')

module _ {W L : Type 0} where
  unfoldable pub up_chunk : Sink W → Bool → List ℕ → Handling W L → Handling W L
  unfolding up_write
  up_chunk sink compress p s =
      let (written, c, w) = up_write sink compress s.writer p s.channel in
      record s { writer = c; channel = w; taken = s.taken ++ p; up_error = not written }

  unfoldable pub down_chunk : Sink L → List ℕ → Handling W L → Handling W L
  unfolding copy_write
  down_chunk sink p s =
      let (written, l) = copy_write sink p s.local in
      record s { local = l; received = s.received ++ p; down_error = not written }

  -- once.Do is shared: only the direction that ends first closes its half.
  unfoldable pub up_ends : Handling W L → Handling W L
  up_ends s =
      if s.once
      then record s { up_done = true }
      else record s { up_done = true; once = true; channel_half_closed = true }

  unfoldable pub down_ends : Handling W L → Handling W L
  down_ends s =
      if s.once
      then record s { down_done = true }
      else record s { down_done = true; once = true; local_half_closed = true }

  -- ctx.Done() closes both connections, and the copies have five seconds to end.
  unfoldable pub force_close : Handling W L → Handling W L
  force_close s = record s { cancelled = true; local_closed = true; channel_closed = true }

  -- The deferred Close of both.
  unfoldable pub finish_handling : Handling W L → Handling W L
  finish_handling s = record s { returned = true; local_closed = true; channel_closed = true }

  -- A chunk is copied; a copy ends, at the end of its input or at an error; the context is cancelled;
  -- both copies have ended; the five seconds are over.
  pub data Step (up : Sink W) (down : Sink L) (compress : Bool)
      : Handling W L → Handling W L → Type 0 where
    copies_up :
        (p : List ℕ) (s : Handling W L)
        → s.up_done ≡ false
        → s.up_error ≡ false
        → Step up down compress s (up_chunk up compress p s)
    copies_down :
        (p : List ℕ) (s : Handling W L)
        → s.down_done ≡ false
        → s.down_error ≡ false
        → Step up down compress s (down_chunk down p s)
    ends_up : (s : Handling W L) → s.up_done ≡ false → Step up down compress s (up_ends s)
    ends_down : (s : Handling W L) → s.down_done ≡ false → Step up down compress s (down_ends s)
    cancels : (s : Handling W L) → s.returned ≡ false → Step up down compress s (force_close s)
    returns :
        (s : Handling W L)
        → s.up_done ≡ true
        → s.down_done ≡ true
        → Step up down compress s (finish_handling s)
    times_out :
        (s : Handling W L) → s.cancelled ≡ true → Step up down compress s (finish_handling s)

  pub data Reach (up : Sink W) (down : Sink L) (compress : Bool)
      : Handling W L → Handling W L → Type 0 where
    here : (s : Handling W L) → Reach up down compress s s
    next :
        {s t u : Handling W L}
        → Step up down compress s t
        → Reach up down compress t u
        → Reach up down compress s u
