-- ===== src/Input/Tests.antt =====
-- Runs of the functions on lines, and the theorems about them at concrete lines.
use c_based_linux_shell.Prelude.{◌≡◌, refl, some, List, [], ◌∷◌, arith, All}
use c_based_linux_shell.CString.{Str, codes}
use c_based_linux_shell.CString.Tokens.{IsWord}
use c_based_linux_shell.Input.{delimiters, read_tokens}
use c_based_linux_shell.Input.Pipes.{IsolatesPipe}
use c_based_linux_shell.Input.Line.{read_tokens_splits}

split_line :
    read_tokens (codes " ls|wc  -l\n")
    ≡ some (codes "ls" ∷ codes "|" ∷ codes "wc" ∷ codes "-l" ∷ [])
unfolding read_tokens
split_line = refl

abbrev two_words : List Str
two_words = codes "echo" ∷ codes "hi" ∷ []

read_tokens_splits_example :
    (tokens : List Str) × (read_tokens (codes "ls|wc") ≡ some tokens)
    × All (IsWord delimiters) tokens
    × All IsolatesPipe tokens
read_tokens_splits_example = read_tokens_splits (codes "ls|wc") (omega arith) (omega arith)
