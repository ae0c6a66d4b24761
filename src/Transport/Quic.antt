-- ===== src/Transport/Quic.antt =====
-- The dialling of a QUIC session and its end (base_tunnel/transport.go): dialQUICTransport and Close of
-- quicStreamConn.
use nssh.Base.{ℕ, Bool, true, false, if◌then◌else◌, ◌≡◌, ◌∙◌, Bool-cases, inl, inr}
use nssh.Base.Text.{String}

-- The calls of quic-go: DialAddr and OpenStreamSync under one deadline, Close of a stream, and
-- CloseWithError of a connection.
pub record Quic (W : Type 0) : Type 0 where
  pub dial_addr : String → ℕ → W → Bool × W
  pub open_stream : ℕ → W → Bool × W
  pub close_stream : W → W
  pub close_with_error : String → W → W

module _ {W : Type 0} (q : Quic W) where
  -- `timeout` bounds both calls.
  unfoldable pub dial_quic_transport : String → ℕ → W → Bool × W
  dial_quic_transport addr timeout w =
      let (dialled, w1) = q.dial_addr addr timeout w in
      let (opened, w2) = q.open_stream timeout w1 in
      if dialled
      then if opened then (true, w2) else (false, q.close_with_error "open stream failed" w2)
      else (false, w1)

  -- The stream, and with it the connection.
  unfoldable pub close_quic : W → W
  close_quic w = q.close_with_error "closed" (q.close_stream w)

  -- What the world shows of the connection: dialling opens it if it succeeds, a stream leaves it as it is,
  -- and closing it closes it.
  record Observed : Type 0 where
    is_open : W → Bool
    dials : (a : String) (t : ℕ) (w : W) → is_open (q.dial_addr a t w).1 ≡ (q.dial_addr a t w).0
    streams : (t : ℕ) (w : W) → is_open (q.open_stream t w).1 ≡ is_open w
    closes : (r : String) (w : W) → is_open (q.close_with_error r w) ≡ false

  -- The connection is open exactly if it was returned: none is left behind by a failure.
  dial_quic_open :
      (o : Observed) (addr : String) (timeout : ℕ) (w : W)
      → o.is_open (dial_quic_transport addr timeout w).1 ≡ (dial_quic_transport addr timeout w).0
  unfolding dial_quic_transport
  dial_quic_open o addr timeout w = elim (Bool-cases (q.dial_addr addr timeout w).0) [
    | inr down ↦ rw down (o.dials addr timeout w ∙ down)
    | inl up ↦ elim (Bool-cases (q.open_stream timeout (q.dial_addr addr timeout w).1).0) [
      | inl opened ↦ rw (up, opened) (o.streams timeout _ ∙ o.dials addr timeout w ∙ up)
      | inr failed ↦ rw (up, failed) (o.closes _ _)
    ]
  ]

  close_quic_closes : (o : Observed) (w : W) → o.is_open (close_quic w) ≡ false
  unfolding close_quic
  close_quic_closes o w = o.closes "closed" (q.close_stream w)
