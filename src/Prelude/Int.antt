-- ===== src/Prelude/Int.antt =====
-- Signed integers over the native numbers, under the library's names.
use c_based_linux_shell.Prelude.{
  ℕ, ◌+◌, ◌-◌, ◌%◌, ◌^◌, ◌≡◌, ◌↔◌, Bool, true, false, arith, ltb, ◌==◌, if◌then◌else◌,
}

-- `negsuc n` is -(n + 1).
pub data ℤ : Type 0 where
  pos : ℕ → ℤ
  negsuc : ℕ → ℤ

abbrev pub eq_ℤ : ℤ → ℤ → Bool
eq_ℤ (pos a) (pos b) = a == b
eq_ℤ (pos a) (negsuc b) = false
eq_ℤ (negsuc a) (pos b) = false
eq_ℤ (negsuc a) (negsuc b) = a == b

pub eq_ℤ_iff : (a b : ℤ) → (eq_ℤ a b ≡ true) ↔ (a ≡ b)
eq_ℤ_iff (pos a) (pos b) = ground arith
eq_ℤ_iff (pos a) (negsuc b) = ground arith
eq_ℤ_iff (negsuc a) (pos b) = ground arith
eq_ℤ_iff (negsuc a) (negsuc b) = ground arith

-- lo <= i <= hi, for a range of natural numbers.
abbrev pub in_range : ℕ → ℕ → ℤ → Bool
in_range lo hi (pos n) = if ltb n lo then false else if ltb hi n then false else true
in_range lo hi (negsuc n) = false

-- A `long` converted to `int`: the low 32 bits, in two's complement.
abbrev pub of_word32 : ℕ → ℤ
of_word32 r = if ltb r (2 ^ 31) then pos r else negsuc (2 ^ 32 - r - 1)

abbrev pub to_int32 : ℤ → ℤ
to_int32 (pos n) = of_word32 (n % 2 ^ 32)
to_int32 (negsuc n) = of_word32 ((2 ^ 32 - (n + 1) % 2 ^ 32) % 2 ^ 32)
