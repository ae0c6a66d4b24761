-- ===== src/Udp/Receive/EndToEnd.antt =====
-- From `writeDatagram` to `decodeDatagramBytes`: the frames that one proxy sends, received by
-- another in any order.
use nssh.Base.{ℕ, zero, suc, ◌+◌, ◌*◌, ◌^◌, ◌≤◌, ◌<◌, ◌≡◌, refl, sym, subst, ap, ◌∙◌, arith}
use nssh.Base.{
  Option, none, some, List, [], ◌∷◌, ◌++◌, append-nil, length, get_or, replicate, All, map,
}
use nssh.Base.{length-take, length-drop, drop}
use nssh.Base.Map.{lookup}
use native.Mathlib.Nat.{zero-add}
use nssh.Udp.Frame.{UdpFrameMeta, IsMeta, encode_udp_frame_v2, parse_udp_frame_v2_bytes}
use nssh.Udp.Frame.RoundTrip.{parse_udp_frame_v2_bytes-eq-read, forget_rest}
use nssh.Udp.Frame.RoundTrip.{read_udp_frame_v2-encode_udp_frame_v2}
use nssh.Udp.Proxy.{UdpProxy}
use nssh.Udp.Reassembler.{UdpReassembler, add, udp_reassembly_key, udp_max_datagram_size}
use nssh.Udp.Reassembler.Order.{Arrival, Distinct, Paced, fragment_meta, deliver, deliver_any_order}
use nssh.Udp.Reassembler.Pieces.{concat}
use nssh.Udp.Receive.{Received, with_flow, decode_datagram_bytes}
use nssh.Udp.Send.Plan.{plan, chunks, fragment_frames, pieces_needed, next_id}
use nssh.Udp.Send.Pieces.{concat-chunks, length-chunks, pieces_needed_enough, pieces_needed_least}

-- An encoded frame is parsed back.
pub parse-encode :
    (m : UdpFrameMeta) (payload : List ℕ)
    → IsMeta m
    → length payload < 2 ^ 16
    → parse_udp_frame_v2_bytes (encode_udp_frame_v2 m payload) ≡ some (m, payload)
parse-encode m payload h k =
    parse_udp_frame_v2_bytes-eq-read (encode_udp_frame_v2 m payload)
    ∙ ap forget_rest (rw append-nil at (read_udp_frame_v2-encode_udp_frame_v2 m payload [] h k))

-- A frame of a list of frames, as the bytes that are sent.
abbrev pub frame_bytes : List (UdpFrameMeta × List ℕ) → ℕ → List ℕ
frame_bytes [] i = []
frame_bytes (f ∷ fs) zero = encode_udp_frame_v2 f.0 f.1
frame_bytes (f ∷ fs) (suc i) = frame_bytes fs i

-- The receiver takes the frames as they arrive: what each call returns, and the proxy behind them.
unfoldable pub receive :
    List (UdpFrameMeta × List ℕ) → UdpProxy → List Arrival → List Received × UdpProxy
receive frames q [] = ([], q)
receive frames q (a ∷ es) =
    let (got, q') = decode_datagram_bytes q a.time (frame_bytes frames a.idx) in
    let (gots, q'') = receive frames q' es in (got ∷ gots, q'')

frame_bytes-fragment_frames :
    (flow_id frag_id cnt k i : ℕ) (ps : List (List ℕ))
    → i < length ps
    → frame_bytes (fragment_frames flow_id frag_id cnt k ps) i
      ≡ encode_udp_frame_v2 (fragment_meta flow_id frag_id cnt (k + i)) (get_or ps i [])
unfolding fragment_frames
frame_bytes-fragment_frames flow_id frag_id cnt k i [] h = absurd (omega arith)
frame_bytes-fragment_frames flow_id frag_id cnt k zero (q ∷ ps) h =
    ap (λ n. encode_udp_frame_v2 (fragment_meta flow_id frag_id cnt n) q) (plus_zero k)
  where
    plus_zero : (n : ℕ) → n ≡ n + 0
    plus_zero n = omega arith
frame_bytes-fragment_frames flow_id frag_id cnt k (suc i) (q ∷ ps) h =
    frame_bytes-fragment_frames flow_id frag_id cnt (k + 1) i ps (omega arith)
    ∙ ap (λ n. encode_udp_frame_v2 (fragment_meta flow_id frag_id cnt n) (get_or ps i []))
        (plus_suc k i)
  where
    plus_suc : (n m : ℕ) → n + 1 + m ≡ n + suc m
    plus_suc n m = omega arith

-- A fragment that arrives goes to the reassembler, whatever it holds.
decode_fragment :
    (q : UdpProxy) (now flow_id frag_id cnt i : ℕ) (piece : List ℕ)
    → IsMeta (fragment_meta flow_id frag_id cnt i)
    → length piece < 2 ^ 16
    → decode_datagram_bytes q now (encode_udp_frame_v2 (fragment_meta flow_id frag_id cnt i) piece)
      ≡ (
        with_flow flow_id (add q.reasm now flow_id (fragment_meta flow_id frag_id cnt i) piece).0,
        record q {
          reasm = (add q.reasm now flow_id (fragment_meta flow_id frag_id cnt i) piece).1;
        },
      )
unfolding decode_datagram_bytes
decode_fragment q now flow_id frag_id cnt i piece h k =
    rw (parse-encode (fragment_meta flow_id frag_id cnt i) piece h k, decode_datagram_bytes)

map-waiting :
    (flow_id n : ℕ) (d : List ℕ)
    → map (with_flow flow_id) (replicate n none ++ (some d ∷ []))
      ≡ replicate n none ++ (some (flow_id, d) ∷ [])
map-waiting flow_id zero d = refl
map-waiting flow_id (suc n) d = ap (λ t. none ∷ t) (map-waiting flow_id n d)

length-fragment_frames :
    (flow_id frag_id cnt i : ℕ) (ps : List (List ℕ))
    → length (fragment_frames flow_id frag_id cnt i ps) ≡ length ps
unfolding fragment_frames
length-fragment_frames flow_id frag_id cnt i [] = refl
length-fragment_frames flow_id frag_id cnt i (q ∷ ps) =
    ap suc (length-fragment_frames flow_id frag_id cnt (i + 1) ps)

module _ (flow_id frag_id : ℕ) (ps : List (List ℕ)) (few : length ps ≤ 255)
    (flow_u32 : flow_id < 2 ^ 32) (frag_u16 : frag_id < 2 ^ 16)
    (short : (i : ℕ) → length (get_or ps i []) < 2 ^ 16) where
  abbrev frames : List (UdpFrameMeta × List ℕ)
  frames = fragment_frames flow_id frag_id (length ps) 0 ps

  abbrev stored : UdpProxy → Arrival → Option (List ℕ) × UdpReassembler
  stored q a =
      add q.reasm a.time flow_id (fragment_meta flow_id frag_id (length ps) a.idx)
        (get_or ps a.idx [])

  decode_arrival :
      (q : UdpProxy) (a : Arrival)
      → a.idx < length ps
      → decode_datagram_bytes q a.time (frame_bytes frames a.idx)
        ≡ (with_flow flow_id (stored q a).0, record q { reasm = (stored q a).1 })
  decode_arrival q a lt =
      ap (decode_datagram_bytes q a.time)
        (rw zero-add at (frame_bytes-fragment_frames flow_id frag_id (length ps) 0 a.idx ps lt))
      ∙ decode_fragment q a.time flow_id frag_id (length ps) a.idx (get_or ps a.idx [])
          (omega arith) (short a.idx)

  receive-eq-deliver :
      (q : UdpProxy) (es : List Arrival)
      → All (λ (b : Arrival). b.idx < length ps) es
      → (receive frames q es).0 ≡ map (with_flow flow_id) (deliver flow_id frag_id ps q.reasm es).0
  unfolding receive deliver
  receive-eq-deliver q [] range = refl
  receive-eq-deliver q (a ∷ es) range = rw (decode_arrival q a range.0) (
      ap (λ t. with_flow flow_id (stored q a).0 ∷ t)
        (receive-eq-deliver (record q { reasm = (stored q a).1 }) es range.1))

  receive-frames :
      (q : UdpProxy) (a : Arrival) (es : List Arrival)
      → length (concat ps) ≤ q.reasm.max_datagram
      → lookup (udp_reassembly_key flow_id frag_id) q.reasm.slots ≡ none
      → length q.reasm.slots < q.reasm.max_concurrent
      → length (a ∷ es) ≡ length frames
      → All (λ (b : Arrival). b.idx < length frames) (a ∷ es)
      → Distinct (a ∷ es)
      → Paced q.reasm.timeout a.time es
      → (receive frames q (a ∷ es)).0
        ≡ replicate (length es) none ++ (some (flow_id, concat ps) ∷ [])
  receive-frames q a es fits new room all range distinct paced =
      let same = length-fragment_frames flow_id frag_id (length ps) 0 ps in
      let range' = subst (λ n. All (λ (b : Arrival). b.idx < n) (a ∷ es)) same range in
      receive-eq-deliver q (a ∷ es) range'
      ∙ ap (map (with_flow flow_id))
          (deliver_any_order flow_id frag_id ps few q.reasm a es new room fits (all ∙ same) range'
            distinct paced).0
      ∙ map-waiting flow_id (length es) (concat ps)

get_or-chunks_le : (k max i : ℕ) (xs : List ℕ) → length (get_or (chunks k max xs) i []) ≤ length xs
unfolding chunks
get_or-chunks_le zero max i xs = omega arith
get_or-chunks_le (suc k) max zero xs = omega (arith, length-take max xs)
get_or-chunks_le (suc k) max (suc i) xs =
    omega (arith, get_or-chunks_le k max i (drop max xs), length-drop max xs)

-- The pieces of a datagram that is sent in several frames.
abbrev pieces : UdpProxy → List ℕ → List (List ℕ)
pieces p payload =
    chunks (pieces_needed (length payload) p.frag_payload_max) p.frag_payload_max payload

-- A datagram that needs several frames, within the limits.
pub record IsSplit (p : UdpProxy) (payload : List ℕ) : Type 0 where
  pub positive : 0 < p.frag_payload_max
  pub long : p.frag_payload_max < length payload
  pub fits : length payload ≤ udp_max_datagram_size
  pub few : length payload ≤ 255 * p.frag_payload_max

plan_split :
    (p : UdpProxy) (flow_id : ℕ) (payload : List ℕ)
    → IsSplit p payload
    → plan p flow_id payload
      ≡ fragment_frames flow_id (next_id p) (length (pieces p payload)) 0 (pieces p payload)
unfolding plan
plan_split p flow_id payload h =
    rw
      (length-chunks (pieces_needed (length payload) p.frag_payload_max) p.frag_payload_max payload)
      (ground (arith, pieces_needed_least (length payload) p.frag_payload_max 255 h.positive h.few))

-- The receiver has no fragment under the id that the sender will use, and room for one more.
pub record IsReady (p q : UdpProxy) (flow_id : ℕ) : Type 0 where
  pub limit : q.reasm.max_datagram ≡ udp_max_datagram_size
  pub new : lookup (udp_reassembly_key flow_id (next_id p)) q.reasm.slots ≡ none
  pub room : length q.reasm.slots < q.reasm.max_concurrent

-- A datagram that the sender splits into frames is received whole, in whatever order the frames
-- arrive (each once, none later than the timeout after the one before it, and a receiver with no
-- slot under its id and with room): all arrivals but the last return nothing, and the last
-- returns the datagram under its flow.
pub receive_any_order :
    (p q : UdpProxy) (flow_id : ℕ) (payload : List ℕ) (a : Arrival) (es : List Arrival)
    → flow_id < 2 ^ 32
    → IsSplit p payload
    → IsReady p q flow_id
    → length (a ∷ es) ≡ length (plan p flow_id payload)
    → All (λ (b : Arrival). b.idx < length (plan p flow_id payload)) (a ∷ es)
    → Distinct (a ∷ es)
    → Paced q.reasm.timeout a.time es
    → (receive (plan p flow_id payload) q (a ∷ es)).0
      ≡ replicate (length es) none ++ (some (flow_id, payload) ∷ [])
receive_any_order p q flow_id payload a es u32 h r =
    subst Arrives (sym (plan_split p flow_id payload h)) (λ all range distinct paced.
      receive-frames flow_id (next_id p) ps few u32 id_u16 short q a es in_limit r.new r.room all
        range distinct paced
      ∙ ap (λ d. replicate (length es) none ++ (some (flow_id, d) ∷ [])) whole)
  where
    Arrives : List (UdpFrameMeta × List ℕ) → Type 0
    Arrives fs =
        length (a ∷ es) ≡ length fs
        → All (λ (b : Arrival). b.idx < length fs) (a ∷ es)
        → Distinct (a ∷ es)
        → Paced q.reasm.timeout a.time es
        → (receive fs q (a ∷ es)).0 ≡ replicate (length es) none ++ (some (flow_id, payload) ∷ [])

    ps : List (List ℕ)
    ps = pieces p payload

    cnt : ℕ
    cnt = pieces_needed (length payload) p.frag_payload_max

    few : length ps ≤ 255
    few = omega (
      arith,
      length-chunks cnt p.frag_payload_max payload,
      pieces_needed_least (length payload) p.frag_payload_max 255 h.positive h.few,
    )

    id_u16 : next_id p < 2 ^ 16
    id_u16 = omega arith

    short : (i : ℕ) → length (get_or ps i []) < 2 ^ 16
    short i = omega (arith, get_or-chunks_le cnt p.frag_payload_max i payload)

    whole : concat ps ≡ payload
    whole =
        concat-chunks cnt p.frag_payload_max payload
          (pieces_needed_enough (length payload) p.frag_payload_max h.positive)

    in_limit : length (concat ps) ≤ q.reasm.max_datagram
    in_limit = rw (whole, r.limit) h.fits
