-- ===== src/Tunnel/Handler/Closed.antt =====
-- What is closed when, whatever the order of the steps of handleChannel.
use nssh.Base.{◌≡◌, refl, arith, true, false, Bool}
use nssh.Compress.{Sink}
use nssh.Tunnel.Handler.{Handling, fresh_handling, up_chunk, down_chunk, up_ends, down_ends}
use nssh.Tunnel.Handler.{force_close, finish_handling, Step, Reach, here, next}
use nssh.Tunnel.Handler.{copies_up, copies_down, ends_up, ends_down, cancels, returns, times_out}

-- A half is closed behind its last byte only, and one of them at most; when the handler has returned, both
-- connections are closed, and both copies have ended unless it was cancelled.
pub record IsClosed {W L : Type 0} (s : Handling W L) : Type 0 where
  pub channel_half : s.channel_half_closed ≡ true → s.up_done ≡ true
  pub local_half : s.local_half_closed ≡ true → s.down_done ≡ true
  pub one_half : s.channel_half_closed ≡ true → s.local_half_closed ≡ true → ⊥
  pub first_channel : s.once ≡ false → s.channel_half_closed ≡ false
  pub first_local : s.once ≡ false → s.local_half_closed ≡ false
  pub both_closed : s.returned ≡ true → (s.channel_closed ≡ true) × (s.local_closed ≡ true)
  pub both_ended :
      s.returned ≡ true → s.cancelled ≡ false → (s.up_done ≡ true) × (s.down_done ≡ true)

fresh-IsClosed : {W L : Type 0} (b : Bool) (w : W) (l : L) → IsClosed (fresh_handling b w l)
unfolding fresh_handling
fresh-IsClosed b w l = record {
  channel_half = λ h. cc;
  local_half = λ h. cc;
  one_half = λ h k. cc;
  first_channel = λ h. refl;
  first_local = λ h. refl;
  both_closed = λ h. cc;
  both_ended = λ h k. cc;
}

module _ {W L : Type 0} {up : Sink W} {down : Sink L} {compress : Bool} where
  Step-IsClosed : {s t : Handling W L} → Step up down compress s t → IsClosed s → IsClosed t
  unfolding up_chunk down_chunk up_ends down_ends force_close finish_handling
  Step-IsClosed (copies_up p s going _) i = ground arith
  Step-IsClosed (copies_down p s going _) i = ground arith
  Step-IsClosed (ends_up s going) i = ground arith
  Step-IsClosed (ends_down s going) i = ground arith
  Step-IsClosed (cancels s going) i = ground arith
  Step-IsClosed (returns s a b) i = ground arith
  Step-IsClosed (times_out s forced) i = ground arith

  keeps_reaching : {s t : Handling W L} → Reach up down compress s t → IsClosed s → IsClosed t
  keeps_reaching (here s) i = i
  keeps_reaching (next st r) i = keeps_reaching r (Step-IsClosed st i)

  -- In every order of the steps of handleChannel, the half of a side is closed only behind the
  -- last byte copied to it, never both halves; when it has returned, both connections are closed,
  -- and both copies have ended unless the context was cancelled.
  pub Reach-IsClosed :
      (has_flate : Bool) (w : W) (l : L) {t : Handling W L}
      → Reach up down compress (fresh_handling has_flate w l) t
      → IsClosed t
  Reach-IsClosed has_flate w l r = keeps_reaching r (fresh-IsClosed has_flate w l)
