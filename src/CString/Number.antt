-- ===== src/CString/Number.antt =====
-- `atoi` as glibc has it (`(int) strtol(s, NULL, 10)`), and `%d` of the numbers that are not negative.
use c_based_linux_shell.Prelude.{
  ℕ, zero, suc, ◌+◌, ◌-◌, ◌*◌, ◌/◌, ◌%◌, ◌^◌, ◌<◌, inl, inr, Bool-cases, ◌≡◌, ◌∙◌, refl, true, [],
  ◌∷◌, arith, ◌==◌, ltb, if◌then◌else◌, min,
}
use c_based_linux_shell.Prelude.Int.{ℤ, pos, negsuc, to_int32}
use c_based_linux_shell.CString.{Str, is_digit, is_space}

unfoldable pub digits_value : ℕ → Str → ℕ
digits_value acc [] = acc
digits_value acc (c ∷ cs) =
    let rest = digits_value (acc * 10 + (c - b'0')) cs in if is_digit c then rest else acc

unfoldable pub skip_space : Str → Str
skip_space [] = []
skip_space (c ∷ cs) = let rest = skip_space cs in if is_space c then rest else c ∷ cs

abbrev minus : ℕ → ℤ
minus n = if n == 0 then pos 0 else negsuc (n - 1)

-- The sign and the digits, with the bounds of `long`.
unfoldable pub signed_value : Str → ℤ
signed_value [] = pos 0
signed_value (c ∷ cs) =
    if c == b'-'
    then minus (min (digits_value 0 cs) (2 ^ 63))
    else if c == b'+'
    then pos (min (digits_value 0 cs) (2 ^ 63 - 1))
    else pos (min (digits_value 0 (c ∷ cs)) (2 ^ 63 - 1))

unfoldable pub atoi : Str → ℤ
unfolding skip_space signed_value digits_value is_digit is_space
atoi s = to_int32 (signed_value (skip_space s))

-- The digits of `n` in front of a text; each digit is a round of fuel, and `n + 1` rounds are enough.
unfoldable pub decimal_onto : ℕ → ℕ → Str → Str
decimal_onto zero n rest = rest
decimal_onto (suc fuel) n rest =
    let more = decimal_onto fuel (n / 10) ((b'0' + n % 10) ∷ rest) in
    if ltb n 10 then (b'0' + n) ∷ rest else more

unfoldable pub decimal : ℕ → Str
unfolding decimal_onto
decimal n = decimal_onto (n + 1) n []

digits_value-decimal :
    (fuel n : ℕ) (rest : Str)
    → n < fuel
    → digits_value 0 (decimal_onto fuel n rest) ≡ digits_value n rest
unfolding digits_value decimal_onto is_digit
digits_value-decimal zero n rest h = absurd (omega arith)
digits_value-decimal (suc fuel) n rest h =
    ground (arith, digits_value-decimal fuel (n / 10) ((b'0' + n % 10) ∷ rest))

-- The first character is a digit.
decimal-head :
    (fuel n : ℕ) (rest : Str)
    → n < fuel
    → (c : ℕ) × (cs : Str) × (decimal_onto fuel n rest ≡ c ∷ cs) × (is_digit c ≡ true)
unfolding decimal_onto is_digit
decimal-head zero n rest h = absurd (omega arith)
decimal-head (suc fuel) n rest h = elim (Bool-cases (ltb n 10)) [
  | inl last ↦ (b'0' + n, rest, rw last, ground arith)
  | inr more ↦ rw more (decimal-head fuel (n / 10) ((b'0' + n % 10) ∷ rest) (ground arith))
]

signed_value-digit :
    (c : ℕ) (cs : Str)
    → is_digit c ≡ true
    → signed_value (skip_space (c ∷ cs)) ≡ pos (min (digits_value 0 (c ∷ cs)) (2 ^ 63 - 1))
unfolding signed_value skip_space is_digit is_space
signed_value-digit c cs h = ground arith

-- What `%d` prints of an `int` that is not negative, `atoi` reads back.
pub atoi-decimal : (n : ℕ) → n < 2 ^ 31 → atoi (decimal n) ≡ pos n
unfolding atoi decimal
atoi-decimal n h =
    let (c, cs, digits, first) = decimal-head (n + 1) n [] (omega arith) in
    let value : digits_value 0 (c ∷ cs) ≡ n =
      rw digits at (digits_value-decimal (n + 1) n [] (omega arith))
      ∙ unfold digits_value in refl in
    rw (digits, atoi, decimal) (rw (signed_value-digit c cs first, value) (ground arith))
