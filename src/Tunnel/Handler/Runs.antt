-- ===== src/Tunnel/Handler/Runs.antt =====
-- One connection: two bytes to the channel, as a frame, one byte back, and the end of both copies.
use nssh.Base.{
  ℕ, ◌≡◌, refl, sym, ap, true, none, some, List, [], ◌∷◌, ◌++◌, length, take_all, arith,
}
use nssh.Compress.{Sink, write, new_compress_writer, write_full}
use nssh.Compress.Stream.{IsWriter}
use nssh.Tunnel.Handler.{Handling, fresh_handling, up_chunk, down_chunk, up_ends, down_ends}
use nssh.Tunnel.Handler.{
  finish_handling, Reach, here, next, copies_up, copies_down, ends_up, ends_down, returns,
}
use nssh.Tunnel.Handler.Closed.{IsClosed, Reach-IsClosed}
use nssh.Tunnel.Handler.Carried.{IsHandling, Reach-IsHandling}

abbrev buffer : Sink (List ℕ)
buffer = record { write = λ b w. (length b, true, w ++ b); deflate = λ b. none }

buffer-IsWriter : IsWriter buffer (λ w. w)
buffer-IsWriter = record {
  grows = λ b w. ap (λ s. w ++ s) (sym (take_all (length b) b (omega arith)));
}

abbrev opened : Handling (List ℕ) (List ℕ)
opened = fresh_handling true [] []

abbrev answered : Handling (List ℕ) (List ℕ)
answered = down_chunk buffer (9 ∷ []) (up_chunk buffer true (7 ∷ 8 ∷ []) opened)

abbrev ended : Handling (List ℕ) (List ℕ)
ended = finish_handling (up_ends (down_ends answered))

ended_reached : Reach buffer buffer true opened ended
unfolding fresh_handling up_chunk down_chunk write new_compress_writer write_full
    nssh.Wire.put_uint32 up_ends down_ends
ended_reached = next (copies_up (7 ∷ 8 ∷ []) opened refl refl) (
    next (copies_down (9 ∷ []) (up_chunk buffer true (7 ∷ 8 ∷ []) opened) refl refl) (
      next (ends_down answered refl) (
        next (ends_up (down_ends answered) refl)
          (next (returns (up_ends (down_ends answered)) refl refl) (here ended)))))

Reach-IsClosed_example : IsClosed ended
Reach-IsClosed_example = Reach-IsClosed true [] [] ended_reached

never_deflates : (b z : List ℕ) → buffer.deflate b ≡ some z → none ≡ some b
never_deflates b z e = cc

Reach-IsHandling_example :
    IsHandling buffer buffer
      (λ w. w)
      (λ l. l)
      buffer-IsWriter
      buffer-IsWriter
      (λ z. none)
      never_deflates
      true
      []
      []
      ended
Reach-IsHandling_example =
    Reach-IsHandling buffer buffer (λ w. w) (λ l. l) buffer-IsWriter buffer-IsWriter (λ z. none)
      never_deflates true true [] [] ended_reached
