-- ===== src/CString/Lines.antt =====
-- What `fgets` reads of a text: a line, a full buffer, or the end.
use c_based_linux_shell.Prelude.{
  ℕ, zero, suc, ◌<◌, ◌≡◌, refl, false, [], ◌∷◌, ◌++◌, ◌==◌, arith, length, All,
}
use c_based_linux_shell.CString.{Str, fgets}

-- A byte that does not end the line.
abbrev pub IsText : ℕ → Type 0
IsText c = (c == b'\n') ≡ false

pub fgets-full :
    (n : ℕ) (m rest : Str) → All IsText m → length m ≡ n → fgets n (m ++ rest) ≡ (m, rest)
unfolding fgets
fgets-full zero [] rest text all = refl
fgets-full zero (c ∷ m) rest text all = absurd (omega arith)
fgets-full (suc n) [] rest text all = absurd (omega arith)
fgets-full (suc n) (c ∷ m) rest (here, text) all =
    rw (here, fgets-full n m rest text (omega arith)) refl

pub fgets-line :
    (n : ℕ) (m rest : Str)
    → All IsText m
    → length m < n
    → fgets n (m ++ b'\n' ∷ rest) ≡ (m ++ b'\n' ∷ [], rest)
unfolding fgets
fgets-line zero m rest text short = absurd (omega arith)
fgets-line (suc n) [] rest text short = refl
fgets-line (suc n) (c ∷ m) rest (here, text) short =
    rw (here, fgets-line n m rest text (omega arith)) refl

pub fgets-end : (n : ℕ) (m : Str) → All IsText m → length m < n → fgets n m ≡ (m, [])
unfolding fgets
fgets-end zero m text short = absurd (omega arith)
fgets-end (suc n) [] text short = refl
fgets-end (suc n) (c ∷ m) (here, text) short = rw (here, fgets-end n m text (omega arith)) refl
