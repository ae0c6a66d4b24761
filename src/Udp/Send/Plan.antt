-- ===== src/Udp/Send/Plan.antt =====
-- What `writeDatagram` puts on the wire, without its loop: a list of frames.
use nssh.Base.{ℕ, zero, suc, ◌+◌, ◌-◌, ◌*◌, ◌/◌, ◌%◌, ◌^◌, ◌≤◌, ◌<◌, ◌≡◌, refl, sym, ap, ◌∙◌, arith}
use nssh.Base.{Bool, true, false, ◌||◌, List, [], ◌∷◌, inl, inr}
use nssh.Base.{ltb, leb, ◌==◌, if◌then◌else◌, length, take, drop, take_all, drop-drop, length-drop}
use nssh.Base.{Bool-cases}
use mathlib.Core.Path.{fun_ext}
use native.Mathlib.Nat.{mod-eq_of_lt, zero-mul}
use nssh.Udp.Frame.{UdpFrameMeta}
use nssh.Udp.Link.{Link}
use nssh.Udp.Proxy.{UdpProxy}
use nssh.Udp.Reassembler.{udp_max_datagram_size}
use nssh.Udp.Reassembler.Order.{fragment_meta}
use nssh.Udp.Send.{slice, whole_meta, write_frame_v2, write_fragments, write_datagram, and_then}

-- `k` pieces of at most `max` bytes.
unfoldable pub chunks : ℕ → ℕ → List ℕ → List (List ℕ)
chunks zero max xs = []
chunks (suc k) max xs = take max xs ∷ chunks k max (drop max xs)

unfoldable pub fragment_frames : ℕ → ℕ → ℕ → ℕ → List (List ℕ) → List (UdpFrameMeta × List ℕ)
fragment_frames flow_id frag_id frag_cnt i [] = []
fragment_frames flow_id frag_id frag_cnt i (q ∷ qs) =
    (fragment_meta flow_id frag_id frag_cnt i, q)
    ∷ fragment_frames flow_id frag_id frag_cnt (i + 1) qs

-- ⌈len / max⌉
abbrev pub pieces_needed : ℕ → ℕ → ℕ
pieces_needed len max = (len + max - 1) / max

abbrev pub next_id : UdpProxy → ℕ
next_id p = (p.next_frag_id + 1) % 2 ^ 32 % 2 ^ 16

-- The frames of one datagram in v2.
unfoldable pub plan : UdpProxy → ℕ → List ℕ → List (UdpFrameMeta × List ℕ)
plan p flow_id payload =
    let max = p.frag_payload_max in
    let cnt = pieces_needed (length payload) max in
    if ltb udp_max_datagram_size (length payload) || max == 0
    then []
    else if leb (length payload) max
    then (whole_meta flow_id, payload) ∷ []
    else if ltb 255 cnt
    then []
    else fragment_frames flow_id (next_id p) cnt 0 (chunks cnt max payload)

slice-eq-take :
    (max start : ℕ) (xs : List ℕ)
    → slice start (if ltb (length xs) (start + max) then length xs else start + max) xs
      ≡ take max (drop start xs)
slice-eq-take max start xs = elim (Bool-cases (ltb (length xs) (start + max))) [
  | inl past ↦ rw past (
      take_all (length xs - start) (drop start xs) (omega (arith, length-drop start xs))
      ∙ sym (take_all max (drop start xs) (ground (arith, length-drop start xs))))
  | inr inside ↦ rw inside (ap (λ k. take k (drop start xs)) (omega arith))
]

is_byte : (n : ℕ) → n ≤ 255 → n < 256
is_byte n h = omega arith

suc-mul : (i max : ℕ) → i * max + max ≡ (i + 1) * max
suc-mul i max = omega arith

and_then_pure : {W : Type 0} (r : Bool × W) → and_then r (λ w. (true, w)) ≡ r
and_then_pure (true, w) = refl
and_then_pure (false, w) = refl

-- What `writeDatagram` returns and what it leaves of the link; the counter of fragment ids is
-- forgotten.
abbrev pub outcome : {W : Type 0} → Bool × UdpProxy × W → Bool × W
outcome r = (r.0, r.2)

module _ {W : Type 0} (link : Link W) where
  -- Frames are written one by one, until a write fails.
  unfoldable pub send_all : UdpProxy → List (UdpFrameMeta × List ℕ) → W → Bool × W
  send_all p [] w = (true, w)
  send_all p ((m, q) ∷ fs) w = and_then (write_frame_v2 link p m q w) (λ w'. send_all p fs w')

  write_fragments-eq-send_all :
      (p : UdpProxy) (flow_id frag_id cnt : ℕ) (payload : List ℕ) (rounds i : ℕ) (w : W)
      → cnt ≤ 255
      → i + rounds ≤ cnt
      → write_fragments link p flow_id frag_id cnt payload rounds i w
        ≡ send_all p
            (fragment_frames flow_id frag_id cnt i
              (chunks rounds p.frag_payload_max (drop (i * p.frag_payload_max) payload)))
            w
  unfolding write_fragments send_all fragment_frames chunks
  write_fragments-eq-send_all p flow_id frag_id cnt payload zero i w few h = refl
  write_fragments-eq-send_all p flow_id frag_id cnt payload (suc rounds) i w few h =
      let max = p.frag_payload_max in
      rw
        (
          slice-eq-take max (i * max) payload,
          mod-eq_of_lt (is_byte i (omega arith)),
          mod-eq_of_lt (is_byte cnt few),
          drop-drop max (i * max) payload,
          suc-mul i max,
        )
        (ap (and_then _) (
          fun_ext λ w'.
            write_fragments-eq-send_all p flow_id frag_id cnt payload rounds (i + 1) w' few
              (omega arith)))

  write_fragments_all :
      (p : UdpProxy) (flow_id frag_id cnt : ℕ) (payload : List ℕ) (w : W)
      → cnt ≤ 255
      → write_fragments link p flow_id frag_id cnt payload cnt 0 w
        ≡ send_all p
            (fragment_frames flow_id frag_id cnt 0 (chunks cnt p.frag_payload_max payload))
            w
  write_fragments_all p flow_id frag_id cnt payload w few =
      rw zero-mul at
        (write_fragments-eq-send_all p flow_id frag_id cnt payload cnt 0 w few (omega arith))

  -- With fragments enabled, writeDatagram returns what writing the frames of the plan one by one
  -- returns, and leaves the link in the same state, also where writes fail.
  pub write_datagram-eq-plan :
      (p : UdpProxy) (flow_id : ℕ) (payload : List ℕ) (w : W)
      → p.frag_enabled ≡ true
      → outcome (write_datagram link p flow_id payload w) ≡ send_all p (plan p flow_id payload) w
  unfolding write_datagram plan send_all
  write_datagram-eq-plan p flow_id payload w v2 =
      elim (Bool-cases (ltb udp_max_datagram_size (length payload) || p.frag_payload_max == 0)) [
        | inl big ↦ simp (v2, big)
        | inr fits ↦ elim (Bool-cases (leb (length payload) p.frag_payload_max)) [
          | inl whole ↦ simp (v2, fits, whole) (sym (and_then_pure _))
          | inr split ↦
              elim (Bool-cases (ltb 255 (pieces_needed (length payload) p.frag_payload_max))) [
                | inl many ↦ simp (v2, fits, split, many)
                | inr few ↦
                    simp (v2, fits, split, few)
                      (write_fragments_all p flow_id (next_id p)
                        (pieces_needed (length payload) p.frag_payload_max) payload w
                        (ground arith))
              ]
        ]
      ]
