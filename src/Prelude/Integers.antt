-- ===== src/Prelude/Integers.antt =====
-- Go's `int` and `int64` where a value may be negative: those of the program stay far from the ends of
-- the range.
use mentis_eterna.Prelude.{ℕ, suc, ◌+◌, ◌-◌, Bool, true, false, ltb, leb, nat_beq, if◌then◌else◌}

pub data ℤ : Type 0 where
  pos negsuc : ℕ → ℤ

abbrev pub is_le : ℤ → ℤ → Bool
is_le (pos m) (pos n) = leb m n
is_le (pos m) (negsuc n) = false
is_le (negsuc m) (pos n) = true
is_le (negsuc m) (negsuc n) = leb n m

abbrev pub is_same : ℤ → ℤ → Bool
is_same (pos m) (pos n) = nat_beq m n
is_same (negsuc m) (negsuc n) = nat_beq m n
is_same _ _ = false

-- The difference of two numbers that are not negative.
abbrev pub minus_nat : ℕ → ℕ → ℤ
minus_nat m n = if ltb m n then negsuc (n - m - 1) else pos (m - n)

abbrev pub minus_int : ℤ → ℤ → ℤ
minus_int (pos m) (pos n) = minus_nat m n
minus_int (pos m) (negsuc n) = pos (m + suc n)
minus_int (negsuc m) (pos n) = negsuc (m + n)
minus_int (negsuc m) (negsuc n) = minus_nat n m

abbrev pub successor : ℤ → ℤ
successor z = minus_int z (negsuc 0)
