-- ===== src/Udp/Frame/RoundTrip.antt =====
-- Encoding and reading the two frame formats.
use nssh.Base.{ℕ, zero, suc, ◌+◌, ◌^◌, ◌<◌, ◌≡◌, refl, ap, ◌∙◌, arith, Option, none, some}
use nssh.Base.{
  false, sym, take-append_le, List, [], ◌∷◌, ◌++◌, append_assoc, length, take, drop, length-append,
  length-drop, lt→ltb, ltb→lt, ltb, Bool-cases, inl, inr, if◌then◌else◌,
}
use native.Mathlib.Nat.{mod-eq_of_lt}
use nssh.Wire.{Result, ok, err, ◌>>=◌, put_uint16, put_uint32, uint16_at, uint32_at, read_full}
use nssh.Wire.Laws.{read_full-append, read_full_header, read_full_short, read_full_enough}
use nssh.Wire.Laws.{uint32_at-take, uint16_at-take, byte_at-take}
use nssh.Udp.Frame.{UdpFrameMeta, IsMeta, meta_of, header_v2, read_payload}
use nssh.Udp.Frame.{encode_udp_frame, read_udp_frame, encode_udp_frame_v2, read_udp_frame_v2}
use nssh.Udp.Frame.{parse_udp_frame_v2_bytes}

pub read_payload-append : (xs rest : List ℕ) → read_payload (length xs) (xs ++ rest) ≡ ok (xs, rest)
unfolding read_payload
read_payload-append [] rest = refl
read_payload-append (x ∷ xs) rest =
    rw (lt→ltb 0 (length (x ∷ xs)) (omega arith)) (read_full-append (x ∷ xs) rest)

-- The header of v1 and what the reader takes out of it.
header_v1 : (flow_id len : ℕ) → List ℕ
header_v1 flow_id len = put_uint32 flow_id ++ put_uint16 len

header_v1_fields :
    (flow_id len : ℕ)
    → flow_id < 2 ^ 32
    → len < 2 ^ 16
    → (length (header_v1 flow_id len) ≡ 6)
      × (uint32_at (header_v1 flow_id len) 0 ≡ flow_id)
      × (uint16_at (header_v1 flow_id len) 4 ≡ len)
unfolding header_v1 put_uint32 put_uint16 uint32_at uint16_at
header_v1_fields flow_id len h k = omega arith

header_v2_fields :
    (m : UdpFrameMeta) (len : ℕ)
    → IsMeta m
    → len < 2 ^ 16
    → (length (header_v2 m len) ≡ 11) × (uint16_at (header_v2 m len) 9 ≡ len)
unfolding header_v2 put_uint32 put_uint16 uint32_at uint16_at
header_v2_fields m len h k = omega arith

meta_of-header_v2 : (m : UdpFrameMeta) (len : ℕ) → IsMeta m → meta_of (header_v2 m len) ≡ m
unfolding meta_of header_v2 put_uint32 put_uint16 uint32_at uint16_at
meta_of-header_v2 m len h = ground arith

-- Reading a header of the right length whose length field is that of the payload behind it.
read_udp_frame_parts :
    (hdr payload rest : List ℕ)
    → length hdr ≡ 6
    → uint16_at hdr 4 ≡ length payload
    → read_udp_frame (hdr ++ (payload ++ rest)) ≡ ok (uint32_at hdr 0, payload, rest)
unfolding read_udp_frame
read_udp_frame_parts hdr payload rest l e =
    rw (read_full_header 6 hdr (payload ++ rest) l, e, read_payload-append payload rest)

read_udp_frame_v2_parts :
    (hdr payload rest : List ℕ)
    → length hdr ≡ 11
    → uint16_at hdr 9 ≡ length payload
    → read_udp_frame_v2 (hdr ++ (payload ++ rest)) ≡ ok (meta_of hdr, payload, rest)
unfolding read_udp_frame_v2
read_udp_frame_v2_parts hdr payload rest l e =
    rw (read_full_header 11 hdr (payload ++ rest) l, e, read_payload-append payload rest)

-- A v1 frame with a 32-bit flow id and a payload below 65536 bytes is read back from the front of
-- a stream, and the rest of the stream is left.
pub read_udp_frame-encode_udp_frame :
    (flow_id : ℕ) (payload rest : List ℕ)
    → flow_id < 2 ^ 32
    → length payload < 2 ^ 16
    → read_udp_frame (encode_udp_frame flow_id payload ++ rest) ≡ ok (flow_id, payload, rest)
unfolding encode_udp_frame header_v1
read_udp_frame-encode_udp_frame flow_id payload rest h k =
    let hdr = header_v1 flow_id (length payload) in
    let (l, f, g) = header_v1_fields flow_id (length payload) h k in
    rw (mod-eq_of_lt k, append_assoc hdr payload rest, read_udp_frame_parts hdr payload rest l g, f)

-- A v2 frame with fields in range and a payload below 65536 bytes is read back from the front of
-- a stream, and the rest of the stream is left.
pub read_udp_frame_v2-encode_udp_frame_v2 :
    (m : UdpFrameMeta) (payload rest : List ℕ)
    → IsMeta m
    → length payload < 2 ^ 16
    → read_udp_frame_v2 (encode_udp_frame_v2 m payload ++ rest) ≡ ok (m, payload, rest)
unfolding encode_udp_frame_v2
read_udp_frame_v2-encode_udp_frame_v2 m payload rest h k =
    let hdr = header_v2 m (length payload) in
    let (l, g) = header_v2_fields m (length payload) h k in
    rw (mod-eq_of_lt k, append_assoc hdr payload rest, read_udp_frame_v2_parts hdr payload rest l g)
      (rw (meta_of-header_v2 m (length payload) h))

-- The result of the stream reader, with the stream that is left and the kind of error forgotten.
abbrev pub forget_rest : Result (UdpFrameMeta × List ℕ × List ℕ) → Option (UdpFrameMeta × List ℕ)
forget_rest (ok (m, payload, rest)) = some (m, payload)
forget_rest (err e) = none

forget_rest-read_payload :
    (m : UdpFrameMeta) (len : ℕ) (t : List ℕ)
    → forget_rest (read_payload len t >>= λ p. ok (m, p.0, p.1))
      ≡ (if ltb (length t) len then none else some (m, take len t))
unfolding read_payload read_full
forget_rest-read_payload m zero t = ground arith
forget_rest-read_payload m (suc len) t = ground arith

meta_of-take : (b : List ℕ) → meta_of (take 11 b) ≡ meta_of b
unfolding meta_of
meta_of-take b = ground (
  arith,
  uint32_at-take 11 0 b,
  uint16_at-take 11 5 b,
  byte_at-take 11 4 b,
  byte_at-take 11 7 b,
  byte_at-take 11 8 b,
)

-- Parsing a datagram as a v2 frame gives what reading it as a stream gives, the rest and the kind
-- of error forgotten.
pub parse_udp_frame_v2_bytes-eq-read :
    (b : List ℕ) → parse_udp_frame_v2_bytes b ≡ forget_rest (read_udp_frame_v2 b)
unfolding parse_udp_frame_v2_bytes read_udp_frame_v2
parse_udp_frame_v2_bytes-eq-read b = elim (Bool-cases (ltb (length b) 11)) [
  | inl short ↦ rw (short, read_full_short 11 b (ltb→lt _ _ short))
  | inr full ↦
      rw
        (
          full,
          read_full_enough 11 b (ground arith),
          meta_of-take b,
          uint16_at-take 11 9 b (omega arith),
        )
        (rw (forget_rest-read_payload (meta_of b) (uint16_at b 9) (drop 11 b))
          (ground (arith, length-drop 11 b)))
]

length-encode_udp_frame_v2 :
    (m : UdpFrameMeta) (payload : List ℕ)
    → length (encode_udp_frame_v2 m payload) ≡ 11 + length payload
unfolding encode_udp_frame_v2 put_uint32 put_uint16
length-encode_udp_frame_v2 m payload = omega arith

encode_udp_frame_v2_len_field :
    (m : UdpFrameMeta) (payload : List ℕ)
    → length payload < 2 ^ 16
    → uint16_at (encode_udp_frame_v2 m payload) 9 ≡ length payload
unfolding encode_udp_frame_v2 put_uint32 put_uint16 uint16_at
encode_udp_frame_v2_len_field m payload k = omega arith

parse_udp_frame_v2_bytes_cut :
    (m : UdpFrameMeta) (payload front back : List ℕ) (x : ℕ)
    → length payload < 2 ^ 16
    → encode_udp_frame_v2 m payload ≡ front ++ (x ∷ back)
    → parse_udp_frame_v2_bytes front ≡ none
unfolding parse_udp_frame_v2_bytes
parse_udp_frame_v2_bytes_cut m payload front back x k e =
    elim (Bool-cases (ltb (length front) 11)) [
      | inl short ↦ rw short
      | inr full ↦ ground (
        arith,
        length-encode_udp_frame_v2 m payload,
        ap length e,
        length-append front (x ∷ back),
        len_field full,
      )
    ]
  where
    len_field : ltb (length front) 11 ≡ false → uint16_at front 9 ≡ length payload
    len_field full =
        sym (uint16_at-take 11 9 front (omega arith))
        ∙ ap (λ t. uint16_at t 9) (sym (take-append_le 11 front (x ∷ back) (ground arith)))
        ∙ uint16_at-take 11 9 (front ++ (x ∷ back)) (omega arith)
        ∙ ap (λ t. uint16_at t 9) (sym e)
        ∙ encode_udp_frame_v2_len_field m payload k

-- A v2 frame with fields in range that is cut short anywhere is refused, as a datagram and as a
-- stream.
pub cut_frame_refused :
    (m : UdpFrameMeta) (payload front back : List ℕ) (x : ℕ)
    → length payload < 2 ^ 16
    → encode_udp_frame_v2 m payload ≡ front ++ (x ∷ back)
    → (parse_udp_frame_v2_bytes front ≡ none) × (forget_rest (read_udp_frame_v2 front) ≡ none)
cut_frame_refused m payload front back x k e =
    let refused = parse_udp_frame_v2_bytes_cut m payload front back x k e in
    (refused, sym (parse_udp_frame_v2_bytes-eq-read front) ∙ refused)
