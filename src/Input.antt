-- ===== src/Input.antt =====
-- From a read to tokens: `get_input` and `tokenize_input` of src/io_helpers.c, and the spaces that
-- `main` of src/mysh.c puts round each `|`.
pub mod Pipes
pub mod Line
pub mod Long
mod Tests
use c_based_linux_shell.Prelude.{
  ℕ, ◌+◌, ◌*◌, Bool, true, false, Option, none, some, List, [], ◌∷◌, ◌++◌, ◌==◌, ltb, if◌then◌else◌,
  length, ◌>>=◌,
}
use c_based_linux_shell.CString.{
  Str, max_str_len, contains, strtok, strtok_all, token_front, token_rest,
}

-- DELIMITERS
abbrev pub delimiters : Str
delimiters = b' ' ∷ b'\t' ∷ b'\n' ∷ []

-- What `read` gives: -1, or bytes (none at the end of the input).
pub data ReadResult : Type 0 where
  read_error : ReadResult
  bytes : Str → ReadResult

-- What `get_input` does: it ends the program, or it leaves a string in the buffer, with `retval`
-- other than -1 or equal to it.
pub data Input : Type 0 where
  exit : Input
  line : Bool → Str → Input

-- The bytes up to the first NUL: the string that the buffer holds.
abbrev pub until_nul : Str → Str
until_nul [] = []
until_nul (c ∷ cs) = let rest = until_nul cs in if c == 0 then [] else c ∷ rest

unfoldable pub get_input : ReadResult → Input
get_input read_error = line false []
get_input (bytes []) = exit
get_input (bytes (c ∷ cs)) =
    if ltb max_str_len (length (c ∷ cs)) then line false [] else line true (until_nul (c ∷ cs))

-- The loop of `getchar` that drops what comes up to the next newline.
unfoldable pub drop_line : Str → Str
drop_line [] = []
drop_line (c ∷ cs) = let rest = drop_line cs in if c == b'\n' then cs else rest

-- `get_input`, with what is left of the standard input behind its `read`: where the bytes that were
-- read are too many, more of it is dropped.
unfoldable pub get_line : ReadResult → Str → Input × Str
get_line read_error rest = (get_input read_error, rest)
get_line (bytes got) rest =
    (get_input (bytes got), if ltb max_str_len (length got) then drop_line rest else rest)

-- `temp_buffer` of `main`.
abbrev pub temp_size : ℕ
temp_size = max_str_len * 2 + 1

-- `temp_buffer[j++] = c`
unfoldable pub put_char : Str → ℕ → Option Str
put_char buffer c = if ltb (length buffer) temp_size then some (buffer ++ c ∷ []) else none

unfoldable pub pad_loop : Str → Str → Option Str
pad_loop buffer [] = if ltb (length buffer) temp_size then some buffer else none
pad_loop buffer (c ∷ cs) = do
  buffer' ←
      (if c == b'|'
        then (do b₁ ← put_char buffer b' '; b₂ ← put_char b₁ b'|'; put_char b₂ b' ')
        else put_char buffer c)
  pad_loop buffer' cs

-- The text that `main` tokenizes.
unfoldable pub pad_pipes : Str → Option Str
unfolding pad_loop put_char contains
pad_pipes input = if contains input b'|' then pad_loop [] input else some input

-- `tokens` has MAX_STR_LEN entries, the NULL behind the tokens among them.
unfoldable pub tokenize_input : Str → Option (List Str)
unfolding strtok_all strtok token_front token_rest contains
tokenize_input s =
    let tokens = strtok_all (length s + 1) delimiters s in
    if ltb (length tokens) max_str_len then some tokens else none

-- The first steps of a round of `main`.
unfoldable pub read_tokens : Str → Option (List Str)
unfolding pad_pipes tokenize_input
read_tokens input = do padded ← pad_pipes input; tokenize_input padded
