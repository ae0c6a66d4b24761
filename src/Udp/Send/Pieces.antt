-- ===== src/Udp/Send/Pieces.antt =====
-- What the frames of a plan carry.
use nssh.Base.{ℕ, zero, suc, ◌+◌, ◌*◌, ◌≤◌, ◌<◌, ◌≡◌, refl, ap, arith}
use nssh.Base.{true, false, ◌||◌, List, [], ◌∷◌, All, inl, inr, append-nil}
use nssh.Base.{ltb, leb, ◌==◌, length, drop, take-append-drop, length-take, length-drop}
use nssh.Base.{Bool-cases, lt→ltb, leb→le, lt→leb}
use nssh.Udp.Frame.{UdpFrameMeta}
use nssh.Udp.Proxy.{UdpProxy}
use nssh.Udp.Reassembler.{udp_max_datagram_size}
use nssh.Udp.Reassembler.Pieces.{concat}
use nssh.Udp.Link.{Link}
use nssh.Udp.Send.{whole_meta, write_datagram}
use nssh.Udp.Send.Plan.{chunks, fragment_frames, pieces_needed, plan, next_id}
use nssh.Udp.Send.Plan.{outcome, send_all, write_datagram-eq-plan}

pub concat-chunks : (k max : ℕ) (xs : List ℕ) → length xs ≤ k * max → concat (chunks k max xs) ≡ xs
unfolding chunks
concat-chunks zero max [] h = refl
concat-chunks zero max (x ∷ xs) h = absurd (omega arith)
concat-chunks (suc k) max xs h =
    rw (concat-chunks k max (drop max xs) (omega (arith, length-drop max xs)))
      (take-append-drop max xs)

pub length-chunks : (k max : ℕ) (xs : List ℕ) → length (chunks k max xs) ≡ k
unfolding chunks
length-chunks zero max xs = refl
length-chunks (suc k) max xs = ap suc (length-chunks k max (drop max xs))

-- Enough pieces, and no piece too many.
pub pieces_needed_enough : (len max : ℕ) → 0 < max → len ≤ pieces_needed len max * max
pieces_needed_enough len max h = grind arith

pub pieces_needed_least : (len max k : ℕ) → 0 < max → len ≤ k * max → pieces_needed len max ≤ k
pieces_needed_least len max k h e = grind arith

more : (len max : ℕ) → 0 < max → 255 * max < len → 255 < pieces_needed len max
more len max h e = grind arith

-- What a frame of the plan may be: indices that fit, and a payload that is not too long.
pub record IsFrame (max : ℕ) (f : UdpFrameMeta × List ℕ) : Type 0 where
  pub idx_lt_cnt : f.0.frag_idx < f.0.frag_cnt
  pub cnt_byte : f.0.frag_cnt ≤ 255
  pub payload_le : length f.1 ≤ max

fragment_frames-IsFrame :
    (max flow_id frag_id cnt k i : ℕ) (xs : List ℕ)
    → i + k ≤ cnt
    → cnt ≤ 255
    → All (IsFrame max) (fragment_frames flow_id frag_id cnt i (chunks k max xs))
unfolding fragment_frames chunks
fragment_frames-IsFrame max flow_id frag_id cnt zero i xs h b = tt
fragment_frames-IsFrame max flow_id frag_id cnt (suc k) i xs h b = (
  record { idx_lt_cnt = omega arith; cnt_byte = b; payload_le = omega (arith, length-take max xs) },
  fragment_frames-IsFrame max flow_id frag_id cnt k (i + 1) (drop max xs) (omega arith) b,
)

-- Every frame of a plan has an index below its count, a count of at most 255, and a payload of at
-- most the fragment size.
pub plan-IsFrame :
    (p : UdpProxy) (flow_id : ℕ) (payload : List ℕ)
    → All (IsFrame p.frag_payload_max) (plan p flow_id payload)
unfolding plan whole_meta
plan-IsFrame p flow_id payload =
    elim (Bool-cases (ltb udp_max_datagram_size (length payload) || p.frag_payload_max == 0)) [
      | inl big ↦ rw big tt
      | inr fits ↦ elim (Bool-cases (leb (length payload) p.frag_payload_max)) [
        | inl whole ↦
            rw (fits, whole)
              (
                record {
                  idx_lt_cnt = omega arith;
                  cnt_byte = omega arith;
                  payload_le = leb→le _ _ whole;
                },
                tt,
              )
        | inr split ↦
            elim (Bool-cases (ltb 255 (pieces_needed (length payload) p.frag_payload_max))) [
              | inl many ↦ rw (fits, split, many) tt
              | inr few ↦
                  rw (fits, split, few)
                    (fragment_frames-IsFrame p.frag_payload_max flow_id (next_id p) _ _ 0 payload
                      (omega arith) (ground arith))
            ]
      ]
    ]

abbrev pub payloads : List (UdpFrameMeta × List ℕ) → List (List ℕ)
payloads [] = []
payloads (f ∷ fs) = f.1 ∷ payloads fs

pub payloads-fragment_frames :
    (flow_id frag_id cnt i : ℕ) (qs : List (List ℕ))
    → payloads (fragment_frames flow_id frag_id cnt i qs) ≡ qs
unfolding fragment_frames
payloads-fragment_frames flow_id frag_id cnt i [] = refl
payloads-fragment_frames flow_id frag_id cnt i (q ∷ qs) =
    ap (λ t. q ∷ t) (payloads-fragment_frames flow_id frag_id cnt (i + 1) qs)

-- A datagram of at most 65507 bytes that fits 255 pieces is planned complete and in order, for a
-- positive fragment size.
pub plan_complete :
    (p : UdpProxy) (flow_id : ℕ) (payload : List ℕ)
    → 0 < p.frag_payload_max
    → length payload ≤ udp_max_datagram_size
    → length payload ≤ 255 * p.frag_payload_max
    → concat (payloads (plan p flow_id payload)) ≡ payload
unfolding plan
plan_complete p flow_id payload pos a b =
    elim (Bool-cases (leb (length payload) p.frag_payload_max)) [
      | inl whole ↦ rw (fits, whole) (append-nil payload)
      | inr split ↦
          rw (fits, split, few, payloads-fragment_frames)
            (concat-chunks _ p.frag_payload_max payload
              (pieces_needed_enough (length payload) p.frag_payload_max pos))
    ]
  where
    fits : (ltb udp_max_datagram_size (length payload) || p.frag_payload_max == 0) ≡ false
    fits = ground arith

    few : ltb 255 (pieces_needed (length payload) p.frag_payload_max) ≡ false
    few = ground (arith, pieces_needed_least (length payload) p.frag_payload_max 255 pos b)

-- A datagram longer than 255 fragments is not sent at all.
pub plan_dropped :
    (p : UdpProxy) (flow_id : ℕ) (payload : List ℕ)
    → 255 * p.frag_payload_max < length payload
    → plan p flow_id payload ≡ []
unfolding plan
plan_dropped p flow_id payload h =
    elim (Bool-cases (ltb udp_max_datagram_size (length payload) || p.frag_payload_max == 0)) [
      | inl big ↦ rw big
      | inr fits ↦
          rw (fits, lt→leb (length payload) p.frag_payload_max (omega arith), many (ground arith))
    ]
  where
    many :
        0 < p.frag_payload_max → ltb 255 (pieces_needed (length payload) p.frag_payload_max) ≡ true
    many pos = lt→ltb _ _ (more (length payload) p.frag_payload_max pos h)

-- With fragments enabled, writeDatagram of a datagram of at most 65507 bytes that fits 255 pieces
-- of the fragment size, which is positive, writes frames one by one until a write fails; their
-- payloads are together the datagram, in order, and each has an index below its count, a count of
-- at most 255 and a payload of at most the fragment size.
pub write_datagram_complete :
    {W : Type 0} (link : Link W) (p : UdpProxy) (flow_id : ℕ) (payload : List ℕ) (w : W)
    → p.frag_enabled ≡ true
    → 0 < p.frag_payload_max
    → length payload ≤ udp_max_datagram_size
    → length payload ≤ 255 * p.frag_payload_max
    → (fs : List (UdpFrameMeta × List ℕ)) × (outcome (write_datagram link p flow_id payload w)
        ≡ send_all link p fs w)
      × (concat (payloads fs) ≡ payload)
      × All (IsFrame p.frag_payload_max) fs
write_datagram_complete link p flow_id payload w v2 pos a b = (
  plan p flow_id payload,
  write_datagram-eq-plan link p flow_id payload w v2,
  plan_complete p flow_id payload pos a b,
  plan-IsFrame p flow_id payload,
)
