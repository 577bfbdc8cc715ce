-- ===== src/Files/Counting.antt =====
-- What `wc` counts.
use c_based_linux_shell.Prelude.{
  ℕ, ◌+◌, ◌<◌, ◌≡◌, refl, sym, ◌∙◌, inl, inr, Bool, true, false, List, [], ◌∷◌, arith, ◌==◌,
  if◌then◌else◌, length, Bool-cases, ◌^◌, lt→ltb, some,
}
use c_based_linux_shell.CString.{Str, contains, is_space, strtok_all}
use c_based_linux_shell.CString.Tokens.{words, in_word, cons_word, strtok_all-words}
use c_based_linux_shell.Files.{Counts, wc_step, wc_loop, no_counts}

-- The white space of `isspace`.
abbrev pub white : Str
white = 32 ∷ 9 ∷ 10 ∷ 11 ∷ 12 ∷ 13 ∷ []

is_space-white : (c : ℕ) → is_space c ≡ contains white c
unfolding is_space contains
is_space-white c = ground arith

abbrev pub newlines : Str → ℕ
newlines [] = 0
newlines (c ∷ cs) = let rest = newlines cs in if c == b'\n' then rest + 1 else rest

-- The words that begin in a text, behind a character of a word or not.
abbrev starts : Bool → Str → ℕ
starts inside [] = 0
starts inside (c ∷ cs) =
    let space = starts false cs in
    let char = starts true cs in
    if contains white c then space else if inside then char else char + 1

starts-inside : (s : Str) → starts false s ≡ starts true s + (if in_word white s then 1 else 0)
starts-inside [] = refl
starts-inside (c ∷ cs) = ground arith

length-cons_word : (c : ℕ) (ws : List Str) → 0 < length ws → length (cons_word c ws) ≡ length ws
length-cons_word c [] h = absurd (omega arith)
length-cons_word c (w ∷ ws) h = refl

words-starts : (s : Str) → length (words white s) ≡ starts false s
words-starts [] = refl
words-starts (c ∷ cs) = elim (Bool-cases (contains white c)) [
  | inl space ↦ rw space (words-starts cs)
  | inr char ↦ elim (Bool-cases (in_word white cs)) [
    | inl on ↦
        let more = rw on at (starts-inside cs) in
        rw (char, on)
          (length-cons_word c (words white cs) (omega (arith, more, words-starts cs))
            ∙ omega (arith, more, words-starts cs))
    | inr off ↦
        let more = rw off at (starts-inside cs) in
        rw (char, off) (omega (arith, more, words-starts cs))
  ]
]

newline-is_space : (c : ℕ) → (c == b'\n') ≡ true → is_space c ≡ true
unfolding is_space
newline-is_space c h = ground arith

-- One character.
wc_step-counts :
    (n : Counts) (c : ℕ) (cs : Str)
    → ((wc_step c n).char_count ≡ n.char_count + 1)
      × ((wc_step c n).line_count + newlines cs ≡ n.line_count + newlines (c ∷ cs))
      × ((wc_step c n).word_count + starts (wc_step c n).in_word cs
          ≡ n.word_count + starts n.in_word (c ∷ cs))
unfolding wc_step
wc_step-counts n c cs = elim (Bool-cases (c == b'\n')) [
  | inl newline ↦
      rw (newline, sym (is_space-white c), newline-is_space c newline) (refl, omega arith, refl)
  | inr other ↦ elim (Bool-cases (is_space c)) [
    | inl space ↦ rw (other, sym (is_space-white c), space) (refl, refl, refl)
    | inr char ↦ elim (Bool-cases n.in_word) [
      | inl on ↦ rw (other, sym (is_space-white c), char, on) (refl, refl, refl)
      | inr off ↦ rw (other, sym (is_space-white c), char, off) (refl, refl, omega arith)
    ]
  ]
]

wc_loop-counts :
    (n : Counts) (s : Str)
    → n.char_count + length s < 2 ^ 31
    → (r : Counts) × (wc_loop n s ≡ some r)
      × (r.char_count ≡ n.char_count + length s)
      × (r.line_count ≡ n.line_count + newlines s)
      × (r.word_count ≡ n.word_count + starts n.in_word s)
unfolding wc_loop
wc_loop-counts n [] small = (n, refl, omega arith, omega arith, omega arith)
wc_loop-counts n (c ∷ cs) small =
    let (char, line, word) = wc_step-counts n c cs in
    let (r, run, chars, lines, wds) = wc_loop-counts (wc_step c n) cs (omega (arith, char)) in
    (
      r,
      rw (lt→ltb (n.char_count + 1) (2 ^ 31) (omega arith)) run,
      omega (arith, chars, char),
      omega (arith, lines, line),
      omega (arith, wds, word),
    )

-- `wc` counts the characters of a file of fewer than 2 ^ 31 bytes, its newlines, and its words: as many
-- as `strtok` finds with white space for delimiters. No counter overflows.
pub wc_counts :
    (file : Str)
    → length file < 2 ^ 31
    → (n : Counts) × (wc_loop no_counts file ≡ some n)
      × (n.char_count ≡ length file)
      × (n.line_count ≡ newlines file)
      × (n.word_count ≡ length (strtok_all (length file + 1) white file))
wc_counts file small =
    let (n, run, chars, lines, wds) = wc_loop-counts no_counts file (omega arith) in
    (
      n,
      run,
      omega (arith, chars),
      omega (arith, lines),
      rw (strtok_all-words white (length file + 1) file (omega arith))
          (omega (arith, wds, words-starts file)),
    )
