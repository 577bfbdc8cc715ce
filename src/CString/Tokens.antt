-- ===== src/CString/Tokens.antt =====
-- The tokens that a row of `strtok` calls finds.
use c_based_linux_shell.Prelude.{
  ℕ, zero, suc, ◌+◌, ◌*◌, ◌≤◌, ◌<◌, ◌≡◌, ◌∙◌, refl, ap, sym, inl, inr, Bool, true, false, not,
  Option, none, some, List, [], ◌∷◌, ◌++◌, arith, if◌then◌else◌, length, All, Bool-cases,
}
use c_based_linux_shell.CString.{Str, contains, token_front, token_rest, strtok, strtok_all}

-- The words of a text, from right to left: a character that is no delimiter begins a word, or goes
-- in front of the word that begins behind it.
abbrev pub in_word : Str → Str → Bool
in_word delims [] = false
in_word delims (c ∷ cs) = not (contains delims c)

abbrev pub cons_word : ℕ → List Str → List Str
cons_word c [] = (c ∷ []) ∷ []
cons_word c (w ∷ ws) = (c ∷ w) ∷ ws

abbrev pub words : Str → Str → List Str
words delims [] = []
words delims (c ∷ cs) =
    let ws = words delims cs in
    if contains delims c then ws else if in_word delims cs then cons_word c ws else (c ∷ []) ∷ ws

module _ (delims : Str) where
  words-front :
      (c : ℕ) (cs : Str)
      → contains delims c ≡ false
      → words delims (c ∷ cs)
        ≡ token_front delims (c ∷ cs) ∷ words delims (token_rest delims (c ∷ cs))
  unfolding token_front token_rest
  words-front c [] h = ground arith
  words-front c (d ∷ cs) h = elim (Bool-cases (contains delims d)) [
    | inl ends ↦ rw (h, ends) refl
    | inr goes ↦ ground (arith, words-front d cs goes)
  ]

  length-token_rest : (cs : Str) → length (token_rest delims cs) ≤ length cs
  unfolding token_rest
  length-token_rest [] = omega arith
  length-token_rest (c ∷ cs) = ground (arith, length-token_rest cs)

  -- What `strtok` returns, by `words`: the first word, and a shorter text with the others.
  abbrev IsFirst : Str → Option (Str × Str) → Type 0
  IsFirst s none = words delims s ≡ []
  IsFirst s (some (token, rest)) =
      (words delims s ≡ token ∷ words delims rest) × (length rest < length s)

  IsFirst-delimiter :
      (c : ℕ) (cs : Str) (next : Option (Str × Str))
      → contains delims c ≡ true
      → IsFirst cs next
      → IsFirst (c ∷ cs) next
  IsFirst-delimiter c cs none h f = rw h f
  IsFirst-delimiter c cs (some (token, rest)) h f = (rw h f.0, omega arith)

  strtok-IsFirst : (s : Str) → IsFirst s (strtok delims s)
  unfolding strtok
  strtok-IsFirst [] = refl
  strtok-IsFirst (c ∷ cs) = elim (Bool-cases (contains delims c)) [
    | inl skip ↦ rw skip (IsFirst-delimiter c cs (strtok delims cs) skip (strtok-IsFirst cs))
    | inr word ↦
        rw word (
          words-front c cs word,
          unfold token_rest in rw word (omega (arith, length-token_rest cs)),
        )
  ]

  -- With more rounds than characters, the calls find the words of the text.
  pub strtok_all-words :
      (fuel : ℕ) (s : Str) → length s < fuel → strtok_all fuel delims s ≡ words delims s
  unfolding strtok_all
  strtok_all-words zero s h = absurd (omega arith)
  strtok_all-words (suc fuel) s h =
      step (strtok_all-words fuel) (strtok delims s) refl (strtok-IsFirst s)
    where
      step :
          ((r : Str) → length r < fuel → strtok_all fuel delims r ≡ words delims r)
          → (next : Option (Str × Str)) → strtok delims s ≡ next
          → IsFirst s next
          → strtok_all (suc fuel) delims s ≡ words delims s
      step later none e f = rw (e, strtok_all) (sym f)
      step later (some (token, rest)) e f =
          rw (e, strtok_all) (rw (later rest (omega arith)) (sym f.0))

  -- A word is not empty and holds no delimiter.
  abbrev pub IsWord : Str → Type 0
  IsWord w = (0 < length w) × All (λ c. contains delims c ≡ false) w

  IsWord-cons_word :
      (c : ℕ) (ws : List Str)
      → contains delims c ≡ false
      → All IsWord ws
      → All IsWord (cons_word c ws)
  IsWord-cons_word c [] h a = ((omega arith, (h, tt)), tt)
  IsWord-cons_word c (w ∷ ws) h a = ((omega arith, (h, a.0.1)), a.1)

  pub words-IsWord : (s : Str) → All IsWord (words delims s)
  words-IsWord [] = tt
  words-IsWord (c ∷ cs) = elim (Bool-cases (contains delims c)) [
    | inl skip ↦ rw skip (words-IsWord cs)
    | inr h ↦ rw h (elim (Bool-cases (in_word delims cs)) [
      | inl on ↦ rw on (IsWord-cons_word c (words delims cs) h (words-IsWord cs))
      | inr off ↦ rw off ((omega arith, (h, tt)), words-IsWord cs)
    ])
  ]

  length-cons_word :
      (c : ℕ) (ws : List Str) (m : ℕ) → 2 * length ws ≤ m → 2 ≤ m → 2 * length (cons_word c ws) ≤ m
  length-cons_word c [] m h k = omega arith
  length-cons_word c (w ∷ ws) m h k = omega arith

  -- Between two words stands a delimiter.
  words_bound :
      (s : Str) → 2 * length (words delims s) ≤ length s + (if in_word delims s then 1 else 0)
  words_bound [] = omega arith
  words_bound (c ∷ cs) =
      ground (arith, words_bound cs, length-cons_word c (words delims cs) (length cs + 2))

  pub words-length : (s : Str) → 2 * length (words delims s) ≤ length s + 1
  words-length s = ground (arith, words_bound s)

  words-append :
      (c : ℕ) (w : Str) (d : ℕ) (rest : Str)
      → contains delims c ≡ false
      → All (λ b. contains delims b ≡ false) w
      → contains delims d ≡ true
      → words delims (c ∷ (w ++ d ∷ rest)) ≡ (c ∷ w) ∷ words delims rest
  words-append c [] d rest h clean sep = ground arith
  words-append c (e ∷ w) d rest h clean sep =
      ground (arith, words-append e w d rest clean.0 clean.1 sep)

  words_single :
      (c : ℕ) (w : Str)
      → contains delims c ≡ false
      → All (λ b. contains delims b ≡ false) w
      → words delims (c ∷ w) ≡ (c ∷ w) ∷ []
  words_single c [] h clean = ground arith
  words_single c (e ∷ w) h clean = ground (arith, words_single e w clean.0 clean.1)

-- Words with one separator between them.
abbrev pub join : ℕ → List Str → Str
join d [] = []
join d (w ∷ []) = w
join d (w ∷ v ∷ ws) = w ++ d ∷ join d (v ∷ ws)

pub words-join :
    (delims : Str) (d : ℕ) (ws : List Str)
    → contains delims d ≡ true
    → All (IsWord delims) ws
    → words delims (join d ws) ≡ ws
words-join delims d [] sep a = refl
words-join delims d ([] ∷ ws) sep a = absurd (omega (arith, a.0.0))
words-join delims d ((c ∷ w) ∷ []) sep a = words_single delims c w a.0.1.0 a.0.1.1
words-join delims d ((c ∷ w) ∷ v ∷ ws) sep a =
    words-append delims c w d (join d (v ∷ ws)) a.0.1.0 a.0.1.1 sep
    ∙ ap (◌∷◌ (c ∷ w)) (words-join delims d (v ∷ ws) sep a.1)
