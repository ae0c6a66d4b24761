-- ===== src/Tunnel/Origin.antt =====
-- The originator in the opening data of a forwarded-tcpip channel, as setupTCPForward reads it
-- (base_tunnel/tunnel.go).
use nssh.Base.{ℕ, ◌+◌, ◌^◌, ◌≤◌, ◌<◌, ◌≡◌, refl, sym, ap, ◌∙◌, arith, Option, none, some}
use nssh.Base.{List, [], ◌∷◌, ◌++◌, leb, if◌then◌else◌, length, take, drop, length-append, le→leb}
use nssh.Base.{zero, suc, get_or, take-append_front, drop-append_front, drop-drop}
use nssh.Wire.{put_uint32, uint32_at}
use nssh.Wire.Laws.{uint32_at-put_uint32}

-- originAddr and originPort, empty (`none`) where the data is too short. An int has 64 bits, so that the
-- sums of lengths do not overflow.
unfoldable pub read_origin : List ℕ → List ℕ × Option ℕ
read_origin extra =
    let addr_len = uint32_at extra 0 in
    let offset = 4 + addr_len + 4 in
    let origin_addr_len = uint32_at extra offset in
    if leb 8 (length extra)
    then if leb (offset + 4) (length extra)
      then if leb (offset + 4 + origin_addr_len + 4) (length extra)
        then (
          take origin_addr_len (drop (offset + 4) extra),
          some (uint32_at extra (offset + 4 + origin_addr_len)),
        )
        else ([], none)
      else ([], none)
    else ([], none)

-- The data of RFC 4254, section 7.2: address and port that were connected to, address and port of the
-- originator, and what may follow.
abbrev pub open_data : List ℕ → ℕ → List ℕ → ℕ → List ℕ → List ℕ
open_data addr port origin origin_port rest =
    put_uint32 (length addr)
    ++ (addr
        ++ (put_uint32 port
            ++ (put_uint32 (length origin) ++ (origin ++ (put_uint32 origin_port ++ rest)))))

get_or-drop : (n i : ℕ) (e : List ℕ) → get_or (drop n e) i 0 ≡ get_or e (n + i) 0
get_or-drop zero i e = ap (λ k. get_or e k 0) (omega arith)
get_or-drop (suc n) i [] = refl
get_or-drop (suc n) i (x ∷ e) =
    let shifted : suc (n + i) ≡ suc n + i = omega arith in
    get_or-drop n i e ∙ ap (λ k. get_or (x ∷ e) k 0) shifted

uint32_at-drop : (n : ℕ) (e : List ℕ) → uint32_at e n ≡ uint32_at (drop n e) 0
unfolding uint32_at nssh.Wire.uint16_at
uint32_at-drop n e =
    let last : get_or e (n + 2 + 1) 0 ≡ get_or e (n + 3) 0 = ap (λ k. get_or e k 0) (omega arith) in
    let first : get_or e n 0 ≡ get_or e (n + 0) 0 = ap (λ k. get_or e k 0) (omega arith) in
    omega (
      arith,
      last,
      first,
      get_or-drop n 0 e,
      get_or-drop n 1 e,
      get_or-drop n 2 e,
      get_or-drop n 3 e,
    )

skip : (n k : ℕ) (e f g : List ℕ) → drop n e ≡ f → drop k f ≡ g → drop (n + k) e ≡ g
skip n k e f g p q = sym (drop-drop k n e) ∙ ap (drop k) p ∙ q

field_at :
    (n v : ℕ) (e rest : List ℕ) → v < 2 ^ 32 → drop n e ≡ put_uint32 v ++ rest → uint32_at e n ≡ v
field_at n v e rest h p =
    uint32_at-drop n e ∙ ap (λ s. uint32_at s 0) p ∙ uint32_at-put_uint32 v rest ∙ omega arith

skip_field : (v : ℕ) (rest : List ℕ) → drop 4 (put_uint32 v ++ rest) ≡ rest
unfolding put_uint32
skip_field v rest = refl

length_field : (v : ℕ) (rest : List ℕ) → length (put_uint32 v ++ rest) ≡ 4 + length rest
unfolding put_uint32
length_field v rest = omega arith

-- The four checks and slices, where the fields have been found.
read_origin_fields :
    (e : List ℕ) (a o p : ℕ) (origin : List ℕ)
    → uint32_at e 0 ≡ a
    → uint32_at e (4 + a + 4) ≡ o
    → take o (drop (4 + a + 4 + 4) e) ≡ origin
    → uint32_at e (4 + a + 4 + 4 + o) ≡ p
    → 16 + a + o ≤ length e
    → read_origin e ≡ (origin, some p)
unfolding read_origin
read_origin_fields e a o p origin ea eo et ep h =
    rw
      (
        ea,
        eo,
        le→leb 8 (length e) (omega arith),
        le→leb (4 + a + 4 + 4) (length e) (omega arith),
        le→leb (4 + a + 4 + 4 + o + 4) (length e) (omega arith),
        et,
        ep,
      )
      refl

-- What the client reads from the opening data of a forwarded channel is the originator that the
-- server wrote, for texts shorter than 2^32 bytes and a port below 2^32.
pub read_origin-open_data :
    (addr : List ℕ) (port : ℕ) (origin : List ℕ) (origin_port : ℕ) (rest : List ℕ)
    → length addr < 2 ^ 32
    → length origin < 2 ^ 32
    → origin_port < 2 ^ 32
    → read_origin (open_data addr port origin origin_port rest) ≡ (origin, some origin_port)
read_origin-open_data addr port origin origin_port rest ha ho hp =
    read_origin_fields e (length addr) (length origin) origin_port origin
      (field_at 0 (length addr) e _ ha refl)
      (field_at (4 + length addr + 4) (length origin) e _ ho at_origin)
      (ap (take (length origin)) at_text
        ∙ take-append_front origin (put_uint32 origin_port ++ rest))
      (field_at (4 + length addr + 4 + 4 + length origin) origin_port e rest hp (
        skip (4 + length addr + 4 + 4) (length origin) e _ _ at_text
          (drop-append_front origin (put_uint32 origin_port ++ rest))))
      (omega (
        arith,
        length_field (length addr) (addr ++ behind),
        length-append addr behind,
        length_field port (put_uint32 (length origin) ++ text),
        length_field (length origin) text,
        length-append origin (put_uint32 origin_port ++ rest),
        length_field origin_port rest,
      ))
  where
    e : List ℕ
    e = open_data addr port origin origin_port rest

    text : List ℕ
    text = origin ++ (put_uint32 origin_port ++ rest)

    behind : List ℕ
    behind = put_uint32 port ++ (put_uint32 (length origin) ++ text)

    at_port : drop (4 + length addr) e ≡ behind
    at_port =
        skip 4 (length addr) e _ _ (skip_field (length addr) (addr ++ behind))
          (drop-append_front addr behind)

    at_origin : drop (4 + length addr + 4) e ≡ put_uint32 (length origin) ++ text
    at_origin =
        skip (4 + length addr) 4 e _ _ at_port
          (skip_field port (put_uint32 (length origin) ++ text))

    at_text : drop (4 + length addr + 4 + 4) e ≡ text
    at_text = skip (4 + length addr + 4) 4 e _ _ at_origin (skip_field (length origin) text)
