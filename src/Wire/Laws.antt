-- ===== src/Wire/Laws.antt =====
-- Laws of the big-endian fields and of `read_full`.
use nssh.Base.{
  ℕ, ◌+◌, ◌%◌, ◌^◌, ◌≤◌, ◌<◌, ◌≡◌, refl, ap, subst, arith, Bool-cases, inl, inr, leb, leb→le,
  length-drop,
}
use nssh.Base.{List, ◌++◌, length, take, drop, length-append, le→leb, lt→leb}
use nssh.Base.{take-append_front, drop-append_front, get_or-take}
use nssh.Wire.{Result, ok, err, read_full, short_read, ◌>>=◌}
use nssh.Wire.{put_uint16, put_uint32, put_uint64, uint16_at, uint32_at, uint64_at, byte_at}

-- A field read back is the value, cut to its width.
pub uint16_at-put_uint16 : (v : ℕ) (rest : List ℕ) → uint16_at (put_uint16 v ++ rest) 0 ≡ v % 2 ^ 16
unfolding uint16_at put_uint16
uint16_at-put_uint16 v rest = omega arith

pub uint32_at-put_uint32 : (v : ℕ) (rest : List ℕ) → uint32_at (put_uint32 v ++ rest) 0 ≡ v % 2 ^ 32
unfolding uint32_at put_uint32
uint32_at-put_uint32 v rest = omega arith

pub uint64_at-put_uint64 : (v : ℕ) (rest : List ℕ) → uint64_at (put_uint64 v ++ rest) 0 ≡ v % 2 ^ 64
unfolding uint64_at put_uint64
uint64_at-put_uint64 v rest = omega arith

pub read_full-append : (xs rest : List ℕ) → read_full (length xs) (xs ++ rest) ≡ ok (xs, rest)
unfolding read_full
read_full-append xs rest =
    rw (le→leb (length xs) (length (xs ++ rest)) (omega (arith, length-append xs rest)))
      (rw (take-append_front, drop-append_front))

pub read_full_enough : (n : ℕ) (s : List ℕ) → n ≤ length s → read_full n s ≡ ok (take n s, drop n s)
unfolding read_full
read_full_enough n s h = rw (le→leb n (length s) h)

pub read_full_short : (n : ℕ) (s : List ℕ) → length s < n → read_full n s ≡ err (short_read s)
unfolding read_full
read_full_short n s h = rw (lt→leb n (length s) h)

pub read_full_header :
    (n : ℕ) (xs rest : List ℕ) → length xs ≡ n → read_full n (xs ++ rest) ≡ ok (xs, rest)
read_full_header n xs rest h =
    subst (λ k. read_full k (xs ++ rest) ≡ ok (xs, rest)) h (read_full-append xs rest)

-- Fields that lie in the part that is taken.
pub byte_at-take : (n i : ℕ) (b : List ℕ) → i < n → byte_at (take n b) i ≡ byte_at b i
byte_at-take n i b h = get_or-take n i b 0 h

pub uint16_at-take : (n i : ℕ) (b : List ℕ) → i + 1 < n → uint16_at (take n b) i ≡ uint16_at b i
unfolding uint16_at
uint16_at-take n i b h =
    rw (byte_at-take n i b (omega arith), byte_at-take n (i + 1) b (omega arith))

pub uint32_at-take : (n i : ℕ) (b : List ℕ) → i + 3 < n → uint32_at (take n b) i ≡ uint32_at b i
unfolding uint32_at
uint32_at-take n i b h =
    rw (uint16_at-take n i b (omega arith), uint16_at-take n (i + 2) b (omega arith))

pub ok_injective {ℓ} : {A : Type ℓ} {a b : A} → ok a ≡ ok b → a ≡ b
ok_injective {A} {a} {b} e = ap (λ r. elim r [ ok x ↦ x | err x ↦ a ]) e

-- A chain that ends without an error had none in its first step.
pub bind-ok {ℓ κ} :
    {A : Type ℓ} {B : Type κ} (x : Result A) (k : A → Result B) (b : B)
    → (x >>= k) ≡ ok b
    → (a : A) × (x ≡ ok a) × (k a ≡ ok b)
bind-ok (ok a) k b e = (a, refl, e)
bind-ok (err x) k b e = cc

pub read_full-ok : (n : ℕ) (s a b : List ℕ) → read_full n s ≡ ok (a, b) → length b + n ≡ length s
unfolding read_full
read_full-ok n s a b e = elim (Bool-cases (leb n (length s))) [
  | inl enough ↦
      let taken : drop n s ≡ b = ap (λ p. p.1) (ok_injective (rw enough at e)) in
      omega (arith, leb→le n (length s) enough, length-drop n s, ap length taken)
  | inr short ↦ cc (rw short at e)
]
