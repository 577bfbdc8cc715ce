-- ===== src/Input/Line.antt =====
-- A line as the shell reads it: the bounds of `get_input`, the tokens of `tokenize_input`, and the
-- two together with the padding between them.
use c_based_linux_shell.Prelude.{
  ℕ, ◌+◌, ◌*◌, ◌≤◌, ◌<◌, ◌≡◌, ap, Bool, true, false, none, some, List, [], ◌∷◌, arith, ◌==◌, ltb,
  if◌then◌else◌, length, All,
}
use c_based_linux_shell.CString.{Str, max_str_len, contains}
use c_based_linux_shell.CString.Tokens.{
  words, strtok_all-words, words-length, words-IsWord, IsWord, join, words-join,
}
use c_based_linux_shell.Input.{
  delimiters, ReadResult, read_error, bytes, line, until_nul, get_input, tokenize_input,
  read_tokens,
}
use c_based_linux_shell.Input.Pipes.{padded, pad_pipes-padded, IsolatesPipe, words-padded}

until_nul-le : (s : Str) → length (until_nul s) ≤ length s
until_nul-le [] = omega arith
until_nul-le (c ∷ cs) = ground (arith, until_nul-le cs)

-- What `get_input` leaves in the buffer has at most MAX_STR_LEN bytes, and none after an error, which
-- it reports by -1.
pub get_input_bounds :
    (r : ReadResult) {fine : Bool} {text : Str}
    → get_input r ≡ line fine text
    → (length text ≤ max_str_len) × (fine ≡ false → text ≡ [])
unfolding get_input
get_input_bounds read_error h = ground arith
get_input_bounds (bytes []) h = cc
get_input_bounds (bytes (c ∷ cs)) h = ground (arith, until_nul-le (c ∷ cs))

tokenize_input-words :
    (s : Str)
    → tokenize_input s
      ≡ (if ltb (length (words delimiters s)) max_str_len then some (words delimiters s) else none)
unfolding tokenize_input
tokenize_input-words s =
    ap (λ ts. if ltb (length ts) max_str_len then some ts else none)
      (strtok_all-words delimiters (length s + 1) s (omega arith))

-- Fewer than MAX_STR_LEN words, written with one blank, tab or newline between them, are read back
-- as they were.
pub tokenize_input-join :
    (d : ℕ) (ws : List Str)
    → contains delimiters d ≡ true
    → All (IsWord delimiters) ws
    → length ws < max_str_len
    → tokenize_input (join d ws) ≡ some ws
tokenize_input-join d ws sep a few =
    rw (tokenize_input-words, words-join delimiters d ws sep a) (ground arith)

-- How often `|` stands in a text.
abbrev pub pipes : Str → ℕ
pipes [] = 0
pipes (c ∷ cs) = let rest = pipes cs in if c == b'|' then rest + 1 else rest

length-padded : (s : Str) → length (padded s) ≡ length s + 2 * pipes s
length-padded [] = omega arith
length-padded (c ∷ cs) = ground (arith, length-padded cs)

-- A line of at most MAX_STR_LEN bytes, for which length and twice the number of `|` make at most
-- 254, is split with no access outside a buffer; each token is a word, and is `|` alone or holds
-- no `|`.
pub read_tokens_splits :
    (s : Str)
    → length s ≤ max_str_len
    → length s + 2 * pipes s ≤ 254
    → (tokens : List Str) × (read_tokens s ≡ some tokens)
      × All (IsWord delimiters) tokens
      × All IsolatesPipe tokens
unfolding read_tokens
read_tokens_splits s short fits = (
  words delimiters (padded s),
  ground (
    arith,
    pad_pipes-padded s short,
    length-padded s,
    tokenize_input-words (padded s),
    words-length delimiters (padded s),
  ),
  words-IsWord delimiters (padded s),
  words-padded s,
)

-- A line of at most MAX_STR_LEN bytes, for which length and twice the number of `|` make 257 or more,
-- is written behind `temp_buffer`.
pub read_tokens_overflow :
    (s : Str) → length s ≤ max_str_len → 257 ≤ length s + 2 * pipes s → read_tokens s ≡ none
unfolding read_tokens
read_tokens_overflow s short long = ground (arith, pad_pipes-padded s short, length-padded s)
