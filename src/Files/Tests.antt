-- ===== src/Files/Tests.antt =====
-- The theorems about paths and counts at concrete texts.
use c_based_linux_shell.Prelude.{
  ◌≡◌, ◌+◌, refl, true, some, [], ◌∷◌, ◌++◌, arith, length, replicate, List,
}
use c_based_linux_shell.CString.{Str, codes, fgets, strncmp_eq, strcmp_eq, contains, strtok_all}
use c_based_linux_shell.Variables.{Vars, find_val_with_key}
use c_based_linux_shell.Expand.{expand_variables}
use c_based_linux_shell.Files.{Counts, file_path, wc_loop, no_counts, bn_cd, moved, dots}
use c_based_linux_shell.Files.Counting.{wc_counts, newlines, white}
use c_based_linux_shell.Socket.Receive.{joined}
use c_based_linux_shell.Files.Cat.{bn_cat, cat_file, cat_loop, cat_shown, text_of, bn_cat_copies}
use c_based_linux_shell.Files.Paths.{nil, cons, bn_cd_lem}

abbrev text : Str
text = codes "ab c" ++ b'\n' ∷ []

wc_counts_example :
    (n : Counts) × (wc_loop no_counts text ≡ some n)
    × (n.char_count ≡ length text)
    × (n.line_count ≡ newlines text)
    × (n.word_count ≡ length (strtok_all (length text + 1) white text))
wc_counts_example = wc_counts text (omega arith)

-- x=d, and y of 128 bytes
abbrev vars : Vars
vars =
    record { key = codes "x"; value = codes "d" }
    ∷ record { key = codes "y"; value = replicate 128 b'a' }
    ∷ []

x_is : expand_variables true vars (some (codes "$x")) ≡ some (codes "d")
unfolding expand_variables find_val_with_key strncmp_eq
x_is = refl

y_is : expand_variables true vars (some (codes "$y")) ≡ some (replicate 128 b'a')
unfolding expand_variables find_val_with_key strncmp_eq
y_is = refl

bn_cd_example :
    bn_cd (λ _. true) vars (codes "cd" ∷ codes "/$x/..." ∷ []) ≡ some (moved (codes "/d/../.."))
unfolding contains dots strcmp_eq
bn_cd_example =
    bn_cd_lem (λ _. true) vars (codes "cd") (codes "/$x/...")
      {values = codes "d" ∷ codes "../.." ∷ []} (cons (rw x_is refl) (cons refl nil)) (omega arith)

abbrev two_lines : List Str
two_lines = codes "ab" ∷ codes "c" ∷ []

abbrev small_file : Str
small_file = text_of two_lines []

bn_cat_copies_example :
    (shown : List Str) × (bn_cat (λ _. some small_file) [] [] (codes "cat" ∷ codes "notes" ∷ [])
      ≡ some (cat_shown shown))
    × (joined shown ≡ small_file)
unfolding file_path contains
bn_cat_copies_example =
    bn_cat_copies (λ _. some small_file) [] [] (codes "cat") (codes "notes") (codes "notes")
      small_file two_lines refl refl refl
      (((refl, (refl, tt)), omega arith), (((refl, tt), omega arith), tt))
      (omega arith, (omega arith, tt))

-- A last line of 200 bytes is cut to 128.
abbrev long_line : Str
long_line = replicate 200 b'z'

long_line_cut :
    bn_cat (λ _. some long_line) [] [] (codes "cat" ∷ codes "notes" ∷ [])
    ≡ some (cat_shown (replicate 128 b'z' ∷ []))
unfolding bn_cat cat_file cat_loop fgets file_path contains
long_line_cut = refl
