-- ===== src/Files.antt =====
-- The paths that `bn_cd`, `bn_cat` and `bn_wc` of src/builtins.c put together, and what `bn_wc` counts.
-- `none` is a write outside a buffer.
pub mod Paths
pub mod Counting
pub mod Cat
mod Tests
use c_based_linux_shell.Prelude.{
  ℕ, ◌+◌, ◌-◌, Bool, true, false, not, ◌&&◌, Option, none, some, List, [], ◌∷◌, ◌++◌, ◌==◌, leb,
  ltb, if◌then◌else◌, length, take, ◌>>=◌, ◌^◌,
}
use c_based_linux_shell.CString.{
  Str, codes, max_str_len, strcmp_eq, contains, strncat, size_sub, strtok_all, is_space,
}
use c_based_linux_shell.CString.Number.{decimal}
use c_based_linux_shell.Variables.{Vars}
use c_based_linux_shell.Expand.{expand_variables}

-- BUFFERSIZE
abbrev pub buffer_size : ℕ
buffer_size = 4096

abbrev pub slash : Str
slash = b'/' ∷ []

-- `strncat(final_path, text, cap - 1 - strlen(final_path))`, into an array of `cap` bytes.
unfoldable pub path_append : ℕ → Str → Str → Option Str
path_append cap final_path text =
    strncat cap final_path text (size_sub (cap - 1) (length final_path))

-- A piece of the path of `cat` and `wc`.
abbrev pub piece_value : Vars → Str → Option Str
piece_value vars piece =
    if contains piece b'$' then expand_variables true vars (some piece) else some piece

-- The loop over the pieces of a path; in a path of a file even the `/` is bounded.
unfoldable pub file_loop : Vars → Str → List Str → Option Str
file_loop vars final_path [] = some final_path
file_loop vars final_path (piece ∷ []) = do
  value ← piece_value vars piece
  path_append (buffer_size + 1) final_path value
file_loop vars final_path (piece ∷ next ∷ pieces) = do
  value ← piece_value vars piece
  path₁ ← path_append (buffer_size + 1) final_path value
  path₂ ← path_append (buffer_size + 1) path₁ slash
  file_loop vars path₂ (next ∷ pieces)

-- The path that `cat` and `wc` open.
unfoldable pub file_path : Vars → Str → Option Str
file_path vars path =
    if contains path b'$' && leb 2 (length path)
    then file_loop vars [] (strtok_all (length path + 1) slash path)
    else some (take buffer_size path)

-- `...` and `....` as a piece of the path of `cd`.
unfoldable pub dots : Str → Str
dots piece =
    if strcmp_eq piece (codes "...")
    then codes "../.."
    else if strcmp_eq piece (codes "....")
    then codes "../../.."
    else piece

-- A piece of the path of `cd`. In a path without `$` the code does not look for `$` in the pieces.
abbrev pub cd_value : Bool → Vars → Str → Option Str
cd_value has_dollar vars piece =
    if has_dollar && contains piece b'$'
    then (do value ← expand_variables true vars (some piece); some (dots value))
    else some (dots piece)

-- `strcat(final_path, "/")`
unfoldable pub cd_slash : Str → Option Str
cd_slash final_path =
    if ltb (length final_path + 1) (max_str_len + 1) then some (final_path ++ slash) else none

unfoldable pub cd_loop : Bool → Vars → Str → List Str → Option Str
cd_loop has_dollar vars final_path [] = some final_path
cd_loop has_dollar vars final_path (piece ∷ []) = do
  value ← cd_value has_dollar vars piece
  path_append (max_str_len + 1) final_path value
cd_loop has_dollar vars final_path (piece ∷ next ∷ pieces) = do
  value ← cd_value has_dollar vars piece
  path₁ ← path_append (max_str_len + 1) final_path value
  path₂ ← cd_slash path₁
  cd_loop has_dollar vars path₂ (next ∷ pieces)

pub data CdResult : Type 0 where
  no_source too_many_arguments : CdResult
  invalid_path moved : Str → CdResult

abbrev pub lead : Str → Str
lead [] = []
lead (c ∷ cs) = if c == b'/' then slash else []

-- `chdir` answers for a path.
unfoldable pub bn_cd : (Str → Bool) → Vars → List Str → Option CdResult
bn_cd chdir vars [] = none
bn_cd chdir vars (name ∷ []) = some no_source
bn_cd chdir vars (name ∷ path ∷ []) = do
  final_path ←
      cd_loop (contains path b'$') vars (lead path) (strtok_all (length path + 1) slash path)
  some (if chdir final_path then moved final_path else invalid_path final_path)
bn_cd chdir vars (name ∷ path ∷ more ∷ tokens) = some too_many_arguments

-- The counters of `bn_wc`, which are of type `int`.
pub record Counts : Type 0 where
  pub char_count : ℕ
  pub word_count : ℕ
  pub line_count : ℕ
  pub in_word : Bool

unfoldable pub wc_step : ℕ → Counts → Counts
wc_step ch n =
    if ch == b'\n'
    then record n { char_count = n.char_count + 1; line_count = n.line_count + 1; in_word = false }
    else if is_space ch
    then record n { char_count = n.char_count + 1; in_word = false }
    else if n.in_word
    then record n { char_count = n.char_count + 1 }
    else record n { char_count = n.char_count + 1; word_count = n.word_count + 1; in_word = true }

-- `none` is the overflow of an `int`: `char_count` goes up with each character and is never less than
-- the other two, so it is the first to overflow.
unfoldable pub wc_loop : Counts → Str → Option Counts
wc_loop n [] = some n
wc_loop n (ch ∷ file) =
    let rest = wc_loop (wc_step ch n) file in if ltb (n.char_count + 1) (2 ^ 31) then rest else none

abbrev pub no_counts : Counts
no_counts = record { char_count = 0; word_count = 0; line_count = 0; in_word = false }

pub data WcResult : Type 0 where
  wc_too_many wc_no_file : WcResult
  wc_printed : List Str → WcResult

abbrev pub count_line : Str → ℕ → Str
count_line label n = take (buffer_size - 1) (label ++ b' ' ∷ decimal n ++ b'\n' ∷ [])

abbrev pub wc_lines : Counts → WcResult
wc_lines n = wc_printed (
    count_line (codes "word count") n.word_count
    ∷ count_line (codes "character count") n.char_count
    ∷ count_line (codes "newline count") n.line_count
    ∷ [])

unfoldable pub wc_report : Str → Option WcResult
wc_report file = do n ← wc_loop no_counts file; some (wc_lines n)

-- `fopen` gives the bytes of a file; `input` are those of the standard input.
unfoldable pub bn_wc : (Str → Option Str) → Str → Vars → List Str → Option WcResult
bn_wc fopen input vars [] = none
bn_wc fopen input vars (name ∷ []) = wc_report input
bn_wc fopen input vars (name ∷ path ∷ []) = do
  final_path ← file_path vars path
  elim (fopen final_path) [ none ↦ some wc_no_file | some file ↦ wc_report file ]
bn_wc fopen input vars (name ∷ path ∷ more ∷ tokens) = some wc_too_many
