-- ===== src/Base/Int.antt =====
-- Go's `int`, where the code can hold a negative one. `negsuc n` is -(n + 1).
use Prim.Native.Nat.{ℕ, ◌+◌, ◌-◌, ◌%◌, ◌^◌}
use mathlib.Core.Path.{◌≡◌, refl, ap}
use mathlib.Core.Bool.{Bool, true, false}
use nssh.Base.Tests.{ltb, ◌==◌, ==_iff}

pub data ℤ : Type 0 where
  pos : ℕ → ℤ
  negsuc : ℕ → ℤ

-- z, where z > 0 is known, and 0 for every z <= 0
abbrev pub pos_part : ℤ → ℕ
pos_part (pos n) = n
pos_part (negsuc n) = 0

abbrev pub int_eq : ℤ → ℤ → Bool
int_eq (pos m) (pos n) = m == n
int_eq (pos m) (negsuc n) = false
int_eq (negsuc m) (pos n) = false
int_eq (negsuc m) (negsuc n) = m == n

abbrev pub int_ltb : ℤ → ℤ → Bool
int_ltb (pos m) (pos n) = ltb m n
int_ltb (pos m) (negsuc n) = false
int_ltb (negsuc m) (pos n) = true
int_ltb (negsuc m) (negsuc n) = ltb n m

pub int_eq_sound : (a b : ℤ) → int_eq a b ≡ true → a ≡ b
int_eq_sound (pos m) (pos n) h = ap pos ((==_iff m n).0 h)
int_eq_sound (pos m) (negsuc n) h = cc
int_eq_sound (negsuc m) (pos n) h = cc
int_eq_sound (negsuc m) (negsuc n) h = ap negsuc ((==_iff m n).0 h)

pub int_eq_refl : (a : ℤ) → int_eq a a ≡ true
int_eq_refl (pos m) = (==_iff m m).1 refl
int_eq_refl (negsuc m) = (==_iff m m).1 refl

-- uint32(z): the low 32 bits in two's complement.
unfoldable pub to_uint32 : ℤ → ℕ
to_uint32 (pos n) = n % 2 ^ 32
to_uint32 (negsuc n) = 2 ^ 32 - (n % 2 ^ 32 + 1)
