-- ===== src/Udp/Channel/Ends.antt =====
-- The loop over a channel ends with the channel.
use nssh.Base.{ℕ, zero, suc, ◌<◌, ◌≤◌, ◌≡◌, ◌≢◌, refl, ap, arith, Option, none}
use nssh.Base.{List, length, ltb, Bool-cases, inl, inr}
use nssh.Wire.{Result, ok, err, read_full, uint16_at, ReadError}
use nssh.Wire.Laws.{bind-ok, read_full-ok, ok_injective}
use nssh.Udp.Frame.{
  UdpFrameMeta, read_udp_frame, read_udp_frame_v2, read_payload, udp_frame_header_len,
  udp_frame_header_len_v2,
}
use nssh.Udp.Link.{Link}
use nssh.Udp.Proxy.{UdpProxy}
use nssh.Udp.Receive.{Received, read_datagram_from}
use nssh.Udp.Channel.{Reader, after_read, read_round, with_round, read_channel}

read_payload_takes : (n : ℕ) (r a b : List ℕ) → read_payload n r ≡ ok (a, b) → length b ≤ length r
unfolding read_payload
read_payload_takes n r a b e = elim (Bool-cases (ltb 0 n)) [
  | inl some_bytes ↦ omega (arith, read_full-ok n r a b (rw some_bytes at e))
  | inr no_bytes ↦ omega (arith, ap length (ap (λ p. p.1) (ok_injective (rw no_bytes at e))))
]

read_udp_frame_takes :
    (r payload rest : List ℕ) (k : ℕ)
    → read_udp_frame r ≡ ok (k, payload, rest)
    → length rest < length r
unfolding read_udp_frame
read_udp_frame_takes r payload rest k e =
    let ((hdr, r1), e1, e2) = bind-ok (read_full udp_frame_header_len r) _ _ e in
    let ((pl, r2), e3, e4) = bind-ok (read_payload (uint16_at hdr 4) r1) _ _ e2 in
    omega (
      arith,
      read_full-ok udp_frame_header_len r hdr r1 e1,
      read_payload_takes (uint16_at hdr 4) r1 pl r2 e3,
      ap length (ap (λ p. p.2) (ok_injective e4)),
    )

read_udp_frame_v2_takes :
    (r payload rest : List ℕ) (m : UdpFrameMeta)
    → read_udp_frame_v2 r ≡ ok (m, payload, rest)
    → length rest < length r
unfolding read_udp_frame_v2
read_udp_frame_v2_takes r payload rest m e =
    let ((hdr, r1), e1, e2) = bind-ok (read_full udp_frame_header_len_v2 r) _ _ e in
    let ((pl, r2), e3, e4) = bind-ok (read_payload (uint16_at hdr 9) r1) _ _ e2 in
    omega (
      arith,
      read_full-ok udp_frame_header_len_v2 r hdr r1 e1,
      read_payload_takes (uint16_at hdr 9) r1 pl r2 e3,
      ap length (ap (λ p. p.2) (ok_injective e4)),
    )

-- A frame is never empty.
read_datagram_from_takes :
    (p p' : UdpProxy) (now : ℕ) (r rest : List ℕ) (got : Received)
    → read_datagram_from p now r ≡ ok (got, p', rest)
    → length rest < length r
unfolding read_datagram_from
read_datagram_from_takes p p' now r rest got e = elim (Bool-cases p.frag_enabled) [
  | inl v2 ↦
      let ((m, pl, r1), e1, e2) = bind-ok (read_udp_frame_v2 r) _ _ (simp v2 at e) in
      omega
        (arith, read_udp_frame_v2_takes r pl r1 m e1, ap length (ap (λ x. x.2) (ok_injective e2)))
  | inr v1 ↦
      let ((k, pl, r1), e1, e2) = bind-ok (read_udp_frame r) _ _ (simp v1 at e) in
      omega (arith, read_udp_frame_takes r pl r1 k e1, ap length (ap (λ x. x.2) (ok_injective e2)))
]

module _ {W : Type 0} (link : Link W) (clock : W → ℕ) where
  with_round_ends :
      (s : Reader W) (x : Result (Reader W)) (k : Reader W → Option (ReadError × Reader W))
      → ((s' : Reader W) → x ≡ ok s' → k s' ≢ none)
      → with_round link clock s x k ≢ none
  with_round_ends s (err e) k h n = cc
  with_round_ends s (ok s') k h n = h s' refl n

  after_read_takes :
      (w : W) (x : Result (Received × UdpProxy × List ℕ)) (s' : Reader W)
      → after_read link clock w x ≡ ok s'
      → (got : Received) × (p : UdpProxy) × (x ≡ ok (got, p, s'.stream))
  unfolding after_read
  after_read_takes w (err e) s' h = cc
  after_read_takes w (ok (got, p, rest)) s' h =
      (got, p, ap (λ r. ok (got, p, r)) (ap (λ s. s.stream) (ok_injective h)))

  -- Whatever the server sends on a data channel, readChannel ends with the channel: fuel above
  -- the number of bytes is enough.
  pub read_channel_ends :
      (fuel : ℕ) (s : Reader W) → length s.stream < fuel → read_channel link clock fuel s ≢ none
  unfolding read_channel read_round
  read_channel_ends zero s h e = omega arith
  read_channel_ends (suc fuel) s h e =
      with_round_ends s (read_round link clock s) (read_channel link clock fuel)
        (λ s' r.
          let (got, p, taken) = after_read_takes s.world _ s' r in
          read_channel_ends fuel s' (
            omega (
              arith,
              read_datagram_from_takes s.proxy p (clock s.world) s.stream s'.stream got taken,
            )))
        e
