-- ===== src/Prelude/Word.antt =====
-- Go's `int64`: an integer is kept modulo 2^64 and read as a signed one.
use Prim.Native.Nat.{ℕ, ◌-◌, ◌%◌, ◌≤◌, ◌+◌}
use mathlib.Core.Path.{◌≡◌}
use native.Mathlib.Omega.{arith}
use peikonpurekkusu_account.Prelude.Tests.{ltb, if◌then◌else◌}
use peikonpurekkusu_account.Prelude.Int.{ℤ, pos, negsuc, pos_part, neg_part, ◌+ℤ◌, ◌-ℤ◌}
use peikonpurekkusu_account.Prelude.{◌+◌, ◌<◌}

-- 2^63 and 2^64.
abbrev pub half_range : ℕ
half_range = 9223372036854775808

abbrev pub full_range : ℕ
full_range = 18446744073709551616

abbrev pub max_int64 : ℕ
max_int64 = 9223372036854775807

-- The integer that a pattern of 64 bits stands for.
abbrev pub signed : ℕ → ℤ
signed u = if ltb u half_range then pos u else negsuc (full_range - 1 - u)

unfoldable pub wrap64 : ℤ → ℤ
wrap64 (pos n) = signed (n % full_range)
wrap64 (negsuc n) = signed (full_range - 1 - n % full_range)

unfoldable pub add64 : ℤ → ℤ → ℤ
add64 a b = wrap64 (a +ℤ b)

unfoldable pub sub64 : ℤ → ℤ → ℤ
sub64 a b = wrap64 (a -ℤ b)

-- Go's unary minus.
unfoldable pub neg64 : ℤ → ℤ
neg64 a = sub64 (pos 0) a

-- A value of the Go type `int64`.
abbrev pub IsInt64 : ℤ → Type 0
IsInt64 z = (pos_part z ≤ max_int64) × (neg_part z ≤ half_range)

pub wrap64_id : (z : ℤ) → IsInt64 z → wrap64 z ≡ z
unfolding wrap64
wrap64_id (pos n) h = ground arith
wrap64_id (negsuc n) h = ground arith

pub wrap64-IsInt64 : (z : ℤ) → IsInt64 (wrap64 z)
unfolding wrap64
wrap64-IsInt64 (pos n) = ground arith
wrap64-IsInt64 (negsuc n) = ground arith

-- Where Go's subtraction and negation of stored amounts do not wrap.
pub neg64-pos :
    (n : ℕ) → n ≤ max_int64 → (pos_part (neg64 (pos n)) ≡ 0) × (neg_part (neg64 (pos n)) ≡ n)
unfolding neg64 sub64 wrap64 ◌-ℤ◌
neg64-pos n h = ground arith

pub sub64-pos : (m n : ℕ) → m ≤ max_int64 → n ≤ m → sub64 (pos m) (pos n) ≡ pos (m - n)
unfolding sub64 wrap64 ◌-ℤ◌
sub64-pos m n h k = ground arith

-- The difference of two values that are not negative never wraps.
pub sub64-exact : (m n : ℕ) → m ≤ max_int64 → n ≤ max_int64 → sub64 (pos m) (pos n) ≡ pos m -ℤ pos n
unfolding sub64 wrap64 ◌-ℤ◌
sub64-exact m n h k = ground arith

pub sub64-in_range : (a b : ℤ) → IsInt64 (a -ℤ b) → sub64 a b ≡ a -ℤ b
unfolding sub64
sub64-in_range a b h = wrap64_id (a -ℤ b) h

pub sub_twice-IsInt64 :
    (c d h : ℕ) → d + h ≤ max_int64 → c ≤ max_int64 → IsInt64 (pos c -ℤ pos d -ℤ pos h)
unfolding ◌-ℤ◌
sub_twice-IsInt64 c d h p q = ground arith

-- The 64 bits of an integer.
unfoldable pub residue : ℤ → ℕ
residue (pos n) = n % full_range
residue (negsuc n) = full_range - 1 - n % full_range

pub residue-wrap64 : (z : ℤ) → residue (wrap64 z) ≡ residue z
unfolding residue wrap64
residue-wrap64 (pos n) = ground arith
residue-wrap64 (negsuc n) = ground arith

pub residue-add64 : (a : ℤ) (n : ℕ) → residue (add64 a (pos n)) ≡ (residue a + n) % full_range
unfolding residue add64 ◌+ℤ◌
residue-add64 (pos m) n = rw residue-wrap64 (ground arith)
residue-add64 (negsuc m) n = rw residue-wrap64 (ground arith)

pub residue-sub64 : (a : ℤ) (n : ℕ) → (residue (sub64 a (pos n)) + n) % full_range ≡ residue a
unfolding residue sub64 ◌-ℤ◌
residue-sub64 (pos m) n = rw residue-wrap64 (ground arith)
residue-sub64 (negsuc m) n = rw residue-wrap64 (ground arith)

pub residue-zero : (z : ℤ) → IsInt64 z → residue z ≡ 0 → z ≡ pos 0
unfolding residue
residue-zero (pos n) h e = ground arith
residue-zero (negsuc n) h e = ground arith

pub residue-lt : (z : ℤ) → residue z < full_range
unfolding residue
residue-lt (pos n) = omega arith
residue-lt (negsuc n) = omega arith

pub add64-IsInt64 : (a b : ℤ) → IsInt64 (add64 a b)
unfolding add64
add64-IsInt64 a b = wrap64-IsInt64 (a +ℤ b)

pub sub64-IsInt64 : (a b : ℤ) → IsInt64 (sub64 a b)
unfolding sub64
sub64-IsInt64 a b = wrap64-IsInt64 (a -ℤ b)
