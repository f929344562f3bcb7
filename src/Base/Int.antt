-- ===== src/Base/Int.antt =====
-- C ints as signed numbers, under the library's names; `negsuc n` is -(n + 1).
use Prim.Native.Nat.{ℕ, zero, suc, ◌+◌, ◌-◌, ◌*◌, ◌%◌, ◌^◌}
use mathlib.Core.Bool.{Bool, true, false}
use attentive.Base.Tests.{◌==◌, ltb, if◌then◌else◌}

pub data ℤ : Type 0 where
  pos : ℕ → ℤ
  negsuc : ℕ → ℤ

abbrev pub minus_one : ℤ
minus_one = negsuc 0

abbrev pub same_int : ℤ → ℤ → Bool
same_int (pos a) (pos b) = a == b
same_int (negsuc a) (negsuc b) = a == b
same_int _ _ = false

abbrev pub less_int : ℤ → ℤ → Bool
less_int (pos a) (pos b) = ltb a b
less_int (negsuc a) (pos b) = true
less_int (pos a) (negsuc b) = false
less_int (negsuc a) (negsuc b) = ltb b a

-- The difference of two numbers.
abbrev sub_nat : ℕ → ℕ → ℤ
sub_nat a b = if ltb a b then negsuc (b - a - 1) else pos (a - b)

abbrev neg_int : ℤ → ℤ
neg_int (pos zero) = pos 0
neg_int (pos (suc n)) = negsuc n
neg_int (negsuc n) = pos (suc n)

infixl 65 ◌+ℤ◌ ◌-ℤ◌
infixl 70 ◌*ℤ◌
abbrev pub ◌+ℤ◌ : ℤ → ℤ → ℤ
pos a +ℤ pos b = pos (a + b)
pos a +ℤ negsuc b = sub_nat a (suc b)
negsuc a +ℤ pos b = sub_nat b (suc a)
negsuc a +ℤ negsuc b = negsuc (suc (a + b))

abbrev pub ◌-ℤ◌ : ℤ → ℤ → ℤ
a -ℤ b = a +ℤ (neg_int b)

abbrev pub ◌*ℤ◌ : ℤ → ℤ → ℤ
pos a *ℤ pos b = pos (a * b)
pos a *ℤ negsuc b = neg_int (pos (a * suc b))
negsuc a *ℤ pos b = neg_int (pos (suc a * b))
negsuc a *ℤ negsuc b = pos (suc a * suc b)

-- `(int) n` for a size_t `n`, with an int of 32 bits.
abbrev pub to_int : ℕ → ℤ
to_int n = if ltb (n % 2 ^ 32) (2 ^ 31) then pos (n % 2 ^ 32) else negsuc (2 ^ 32 - n % 2 ^ 32 - 1)

-- How far a count can run that is compared with `(int) n` and starts at 0.
abbrev pub int_bound : ℕ → ℕ
int_bound n = if ltb (n % 2 ^ 32) (2 ^ 31) then n % 2 ^ 32 else 0
