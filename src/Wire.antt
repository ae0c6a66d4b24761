-- ===== src/Wire.antt =====
-- What the code uses of encoding/binary and io: big-endian fields, and reading from a byte stream.
-- A byte is a number below 256, a byte slice a list of them.
-- A stream (an SSH channel or a QUIC stream) is the list of bytes that it will still deliver before
-- it is closed; a read takes bytes off its front.
pub mod Laws
use nssh.Base.{ℕ, zero, suc, ◌+◌, ◌*◌, ◌/◌, ◌%◌, ◌^◌, ◌<◌, ◌≡◌, Bool, List, [], ◌∷◌}
use nssh.Base.{leb, ◌==◌, if◌then◌else◌, length, get_or, take, drop}

abbrev pub IsByte : ℕ → Type 0
IsByte b = b < 256

-- binary.BigEndian.PutUint16, PutUint32, PutUint64 and their Append forms, as the bytes written.
-- They keep the low 16, 32 or 64 bits of `v`.
unfoldable pub put_uint16 : ℕ → List ℕ
put_uint16 v = (v / 2 ^ 8 % 256) ∷ (v % 256) ∷ []

unfoldable pub put_uint32 : ℕ → List ℕ
put_uint32 v = (v / 2 ^ 24 % 256) ∷ (v / 2 ^ 16 % 256) ∷ (v / 2 ^ 8 % 256) ∷ (v % 256) ∷ []

unfoldable pub put_uint64 : ℕ → List ℕ
put_uint64 v =
    (v / 2 ^ 56 % 256)
    ∷ (v / 2 ^ 48 % 256)
    ∷ (v / 2 ^ 40 % 256)
    ∷ (v / 2 ^ 32 % 256)
    ∷ (v / 2 ^ 24 % 256)
    ∷ (v / 2 ^ 16 % 256)
    ∷ (v / 2 ^ 8 % 256)
    ∷ (v % 256)
    ∷ []

-- b[i]. The code checks lengths before it indexes; past the end this gives 0 where Go panics.
abbrev pub byte_at : List ℕ → ℕ → ℕ
byte_at b i = get_or b i 0

-- binary.BigEndian.Uint16(b[i:i+2]), Uint32(b[i:i+4]), Uint64(b[i:i+8])
unfoldable pub uint16_at : List ℕ → ℕ → ℕ
uint16_at b i = byte_at b i * 2 ^ 8 + byte_at b (i + 1)

unfoldable pub uint32_at : List ℕ → ℕ → ℕ
unfolding uint16_at
uint32_at b i = uint16_at b i * 2 ^ 16 + uint16_at b (i + 2)

unfoldable pub uint64_at : List ℕ → ℕ → ℕ
unfolding uint32_at
uint64_at b i = uint32_at b i * 2 ^ 32 + uint32_at b (i + 4)

-- io.EOF: closed before the first byte; io.ErrUnexpectedEOF: closed in the middle; the others are
-- errors that the readers make themselves.
pub data ReadError : Type 0 where
  eof unexpected_eof : ReadError
  unknown_frame_type : ℕ → ReadError

pub data Result {ℓ} (A : Type ℓ) : Type ℓ where
  ok : A → Result A
  err : ReadError → Result A

infixl 5 ◌>>=◌
abbrev pub ◌>>=◌ {ℓ κ} : {A : Type ℓ} {B : Type κ} → Result A → (A → Result B) → Result B
ok a >>= f = f a
err e >>= f = err e

-- Why a stream that still holds `s` is too short.
unfoldable pub short_read : List ℕ → ReadError
short_read [] = eof
short_read (x ∷ s) = unexpected_eof

-- io.ReadFull(r, buf) with len(buf) = n: the bytes read, and the stream behind them.
unfoldable pub read_full : ℕ → List ℕ → Result (List ℕ × List ℕ)
read_full n s = if leb n (length s) then ok (take n s, drop n s) else err (short_read s)
