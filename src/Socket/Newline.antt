-- ===== src/Socket/Newline.antt =====
-- What `find_network_newline` finds, and how `get_message` cuts the buffer there.
use c_based_linux_shell.Prelude.{
  ℕ, suc, ◌+◌, ◌-◌, ◌≡◌, ◌⊎◌, refl, ap, inl, inr, Bool, true, false, not, ◌&&◌, none, some, [], ◌∷◌,
  ◌++◌, arith, length, take, drop, Bool-cases, take-append,
}
use c_based_linux_shell.CString.{Str}
use c_based_linux_shell.Socket.{cr, lf, is_crlf, newline_from, find_network_newline, get_message}

-- No CR stands directly before an LF.
abbrev pub no_crlf : Str → Bool
no_crlf [] = true
no_crlf (a ∷ []) = true
no_crlf (a ∷ b ∷ cs) = not (is_crlf a b) && no_crlf (b ∷ cs)

-- A message with its network newline.
abbrev pub encode : Str → Str
encode m = m ++ cr ∷ lf ∷ []

pub newline_from-encode :
    (i : ℕ) (m rest : Str)
    → no_crlf m ≡ true
    → newline_from i (m ++ cr ∷ lf ∷ rest) ≡ some (i + length m + 2)
unfolding newline_from
newline_from-encode i [] rest h = ap some (omega arith)
newline_from-encode i (a ∷ []) rest h = ground arith
newline_from-encode i (a ∷ b ∷ m) rest h = ground (arith, newline_from-encode (i + 1) (b ∷ m) rest)

pub newline_from-none : (i : ℕ) (buf : Str) → no_crlf buf ≡ true → newline_from i buf ≡ none
unfolding newline_from
newline_from-none i [] h = refl
newline_from-none i (a ∷ []) h = refl
newline_from-none i (a ∷ b ∷ cs) h = ground (arith, newline_from-none (i + 1) (b ∷ cs))

cut_message : (m rest : Str) → take (0 + length m + 2 - 2) (m ++ rest) ≡ m
cut_message m rest =
    let n : 0 + length m + 2 - 2 ≡ length m = omega arith in rw n (take-append m rest)

drop_two : (m : Str) (a b : ℕ) (rest : Str) → drop (suc (suc (length m))) (m ++ a ∷ b ∷ rest) ≡ rest
drop_two [] a b rest = refl
drop_two (c ∷ m) a b rest = drop_two m a b rest

cut_rest : (m : Str) (a b : ℕ) (rest : Str) → drop (0 + length m + 2) (m ++ a ∷ b ∷ rest) ≡ rest
cut_rest m a b rest =
    let n : 0 + length m + 2 ≡ suc (suc (length m)) = omega arith in rw n (drop_two m a b rest)

-- A message that holds no network newline is taken out of the buffer whole, with its own, and the
-- bytes behind it stay.
pub get_message-encode :
    (m rest : Str) → no_crlf m ≡ true → get_message (m ++ cr ∷ lf ∷ rest) ≡ some (m, rest)
unfolding get_message find_network_newline
get_message-encode m rest h =
    rw (newline_from-encode 0 m rest h, get_message, find_network_newline)
      (cc (cut_message m (cr ∷ lf ∷ rest), cut_rest m cr lf rest))

-- A buffer with no network newline is left alone.
pub get_message-none : (buf : Str) → no_crlf buf ≡ true → get_message buf ≡ none
unfolding get_message find_network_newline
get_message-none buf h = rw (newline_from-none 0 buf h, get_message, find_network_newline)

-- Every buffer is of one of these two forms.
pub record Splits (buf : Str) : Type 0 where
  pub message : Str
  pub rest : Str
  pub parts : buf ≡ message ++ cr ∷ lf ∷ rest
  pub first : no_crlf message ≡ true

Splits-cons : (a b : ℕ) (cs : Str) → is_crlf a b ≡ false → Splits (b ∷ cs) → Splits (a ∷ b ∷ cs)
Splits-cons a b cs h s = record {
  message = a ∷ s.message;
  rest = s.rest;
  parts = ap (◌∷◌ a) s.parts;
  first = first s.message s.parts s.first;
}
  where
    first : (m : Str) → b ∷ cs ≡ m ++ cr ∷ lf ∷ s.rest → no_crlf m ≡ true → no_crlf (a ∷ m) ≡ true
    first [] e f = refl
    first (c ∷ m) e f = ground arith

pub splits? : (buf : Str) → (no_crlf buf ≡ true) ⊎ Splits buf
splits? [] = inl refl
splits? (a ∷ []) = inl refl
splits? (a ∷ b ∷ cs) = elim (Bool-cases (is_crlf a b)) [
  | inl here ↦ inr (record { message = []; rest = cs; parts = ground arith; first = refl })
  | inr past ↦ elim (splits? (b ∷ cs)) [
    | inl clean ↦ inl (rw (past, clean))
    | inr s ↦ inr (Splits-cons a b cs past s)
  ]
]
