-- ===== src/Input/Pipes.antt =====
-- The padding of `|`: when it fits, and what the tokens then are.
use c_based_linux_shell.Prelude.{
  ℕ, ◌+◌, ◌≤◌, ◌≡◌, ◌⊎◌, refl, inl, inr, true, false, none, some, List, [], ◌∷◌, ◌++◌, arith, ◌==◌,
  ltb, if◌then◌else◌, length, All, Bool-cases, append-nil, append_assoc, length-append,
}
use c_based_linux_shell.CString.{Str, max_str_len, contains}
use c_based_linux_shell.CString.Tokens.{words, in_word, cons_word}
use c_based_linux_shell.Input.{delimiters, temp_size, put_char, pad_loop, pad_pipes}

-- A space on each side of each `|`.
abbrev pub padded : Str → Str
padded [] = []
padded (c ∷ cs) = let rest = padded cs in if c == b'|' then b' ' ∷ b'|' ∷ b' ' ∷ rest else c ∷ rest

pad_loop-padded :
    (buffer cs : Str)
    → pad_loop buffer cs ≡ (
        if ltb (length buffer + length (padded cs)) temp_size
        then some (buffer ++ padded cs)
        else none)
unfolding pad_loop put_char
pad_loop-padded buffer [] = ground (arith, append-nil buffer)
pad_loop-padded buffer (c ∷ cs) = elim (Bool-cases (c == b'|')) [
  | inl pipe ↦
      let b₁ = buffer ++ b' ' ∷ [] in
      let b₂ = b₁ ++ b'|' ∷ [] in
      let b₃ = b₂ ++ b' ' ∷ [] in
      ground (
        arith,
        pad_loop-padded b₃ cs,
        length-append buffer (b' ' ∷ []),
        length-append b₁ (b'|' ∷ []),
        length-append b₂ (b' ' ∷ []),
        append_assoc buffer (b' ' ∷ []) (b'|' ∷ b' ' ∷ padded cs),
        append_assoc b₁ (b'|' ∷ []) (b' ' ∷ padded cs),
        append_assoc b₂ (b' ' ∷ []) (padded cs),
      )
  | inr plain ↦ ground (
    arith,
    pad_loop-padded (buffer ++ c ∷ []) cs,
    length-append buffer (c ∷ []),
    append_assoc buffer (c ∷ []) (padded cs),
  )
]

padded_no_pipe : (s : Str) → contains s b'|' ≡ false → padded s ≡ s
unfolding contains
padded_no_pipe [] h = refl
padded_no_pipe (c ∷ cs) h = ground (arith, padded_no_pipe cs)

-- The text that `main` tokenizes is the padded input if that and its terminator fit in
-- `temp_buffer`; otherwise the loop writes behind the buffer.
pub pad_pipes-padded :
    (s : Str)
    → length s ≤ max_str_len
    → pad_pipes s ≡ (if ltb (length (padded s)) temp_size then some (padded s) else none)
unfolding pad_pipes
pad_pipes-padded s h = elim (Bool-cases (contains s b'|')) [
  | inl piped ↦ rw (piped, pad_pipes) (ground (arith, pad_loop-padded [] s))
  | inr plain ↦ rw (plain, pad_pipes) (ground (arith, padded_no_pipe s plain))
]

-- A token is the pipe, or holds no `|`.
abbrev pub IsolatesPipe : Str → Type 0
IsolatesPipe w = (w ≡ b'|' ∷ []) ⊎ (contains w b'|' ≡ false)

abbrev HeadIsClean : List Str → Type 0
HeadIsClean [] = Unit
HeadIsClean (w ∷ ws) = contains w b'|' ≡ false

abbrev IsIsolated : Str → Type 0
IsIsolated s =
    All IsolatesPipe (words delimiters s)
    × (in_word delimiters s ≡ true → HeadIsClean (words delimiters s))

IsIsolated-cons_word :
    (c : ℕ) (ws : List Str)
    → (c == b'|') ≡ false
    → All IsolatesPipe ws
    → HeadIsClean ws
    → All IsolatesPipe (cons_word c ws) × HeadIsClean (cons_word c ws)
unfolding contains
IsIsolated-cons_word c [] h a clean = ((inr (ground arith), tt), ground arith)
IsIsolated-cons_word c (w ∷ ws) h a clean = ((inr (ground arith), a.1), ground arith)

IsIsolated-plain : (c : ℕ) (s : Str) → (c == b'|') ≡ false → IsIsolated s → IsIsolated (c ∷ s)
IsIsolated-plain c s h (a, clean) = elim (Bool-cases (contains delimiters c)) [
  | inl skip ↦ rw skip (a, λ e. cc)
  | inr word ↦ rw word (elim (Bool-cases (in_word delimiters s)) [
    | inl on ↦
        let joined = IsIsolated-cons_word c (words delimiters s) h a (clean on) in
        rw on (joined.0, λ _. joined.1)
    | inr off ↦ rw off (unfold contains in ((inr (ground arith), a), λ _. ground arith))
  ])
]

padded-IsIsolated : (s : Str) → IsIsolated (padded s)
unfolding contains
padded-IsIsolated [] = (tt, λ _. tt)
padded-IsIsolated (c ∷ cs) = elim (Bool-cases (c == b'|')) [
  | inl pipe ↦ rw pipe ((inl refl, (padded-IsIsolated cs).0), λ e. cc)
  | inr plain ↦ rw plain (IsIsolated-plain c (padded cs) plain (padded-IsIsolated cs))
]

-- Whatever the input, each token of the padded text is `|` alone or holds no `|`.
pub words-padded : (s : Str) → All IsolatesPipe (words delimiters (padded s))
words-padded s = (padded-IsIsolated s).0
