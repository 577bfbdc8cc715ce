-- ===== src/Files/Cat.antt =====
-- `bn_cat` of src/builtins.c. `fopen` gives the bytes of a file, and `reads` are the answers of `read` on
-- the standard input before its end or an error. No byte that is shown is 0.
use c_based_linux_shell.Prelude.{
  ℕ, zero, suc, ◌+◌, ◌-◌, ◌<◌, ◌≡◌, refl, ap, sym, ◌∙◌, Option, none, some, List, [], ◌∷◌, ◌++◌,
  arith, length, map, All, append_assoc, append-nil, length-append, take-eq_self, ◌>>=◌,
}
use mathlib.Core.Path.{ap₂}
use c_based_linux_shell.CString.{Str, max_str_len, fgets}
use c_based_linux_shell.CString.Lines.{IsText, fgets-line, fgets-end}
use c_based_linux_shell.Display.{display_message}
use c_based_linux_shell.Variables.{Vars}
use c_based_linux_shell.Socket.Receive.{joined}
use c_based_linux_shell.Files.{buffer_size, file_path}

pub data CatResult : Type 0 where
  cat_too_many cat_no_file cat_no_input : CatResult
  cat_shown : List Str → CatResult

-- The loop over a file. Each line, or piece of a line, is a round of fuel.
unfoldable pub cat_loop : ℕ → Str → List Str
cat_loop zero file = []
cat_loop (suc fuel) file = elim (fgets (buffer_size - 1) file).0 [
  | [] ↦ []
  | c ∷ cs ↦ display_message (c ∷ cs) ∷ cat_loop fuel (fgets (buffer_size - 1) file).1
]

unfoldable pub cat_file : Str → CatResult
cat_file file = cat_shown (cat_loop (length file + 1) file)

-- The standard input: the first read must give something.
unfoldable pub cat_input : List Str → CatResult
cat_input [] = cat_no_input
cat_input (buffer ∷ reads) = cat_shown (map display_message (buffer ∷ reads))

unfoldable pub bn_cat : (Str → Option Str) → List Str → Vars → List Str → Option CatResult
bn_cat fopen reads vars [] = none
bn_cat fopen reads vars (name ∷ []) = some (cat_input reads)
bn_cat fopen reads vars (name ∷ path ∷ []) = do
  final_path ← file_path vars path
  some (elim (fopen final_path) [ none ↦ cat_no_file | some file ↦ cat_file file ])
bn_cat fopen reads vars (name ∷ path ∷ more ∷ tokens) = some cat_too_many

-- The text of lines, each with its newline, and a last one without.
abbrev pub text_of : List Str → Str → Str
text_of [] last = last
text_of (line ∷ lines) last = line ++ b'\n' ∷ text_of lines last

abbrev pub shown_last : Str → List Str
shown_last [] = []
shown_last (c ∷ cs) = display_message (c ∷ cs) ∷ []

abbrev pub IsLine : Str → Type 0
IsLine line = All IsText line × (length line + 1 < buffer_size)

cat_loop-nil : (fuel : ℕ) → cat_loop fuel [] ≡ []
unfolding cat_loop fgets
cat_loop-nil zero = refl
cat_loop-nil (suc fuel) = refl

-- A round in which something is read.
cat_loop-reads :
    (fuel : ℕ) (file m rest : Str) (c : ℕ) (cs : Str)
    → fgets (buffer_size - 1) file ≡ (m, rest)
    → m ≡ c ∷ cs
    → cat_loop (suc fuel) file ≡ display_message m ∷ cat_loop fuel rest
unfolding cat_loop fgets
cat_loop-reads fuel file m rest c cs read some_bytes =
    let first = ap (λ r. r.0) read ∙ some_bytes in
    let behind = ap (λ r. r.1) read in rw (first, behind, some_bytes) refl

snoc-cons : (line : Str) (d : ℕ) → (c : ℕ) × (cs : Str) × (line ++ d ∷ [] ≡ c ∷ cs)
snoc-cons [] d = (d, [], refl)
snoc-cons (c ∷ line) d = (c, line ++ d ∷ [], refl)

cat_loop-text_of :
    (fuel : ℕ) (lines : List Str) (last : Str)
    → All IsLine lines
    → IsLine last
    → length (text_of lines last) < fuel
    → cat_loop fuel (text_of lines last)
      ≡ map (λ line. display_message (line ++ b'\n' ∷ [])) lines ++ shown_last last
cat_loop-text_of zero lines last good good_last enough = absurd (omega arith)
cat_loop-text_of (suc fuel) [] [] good good_last enough = cat_loop-nil (suc fuel)
cat_loop-text_of (suc fuel) [] (c ∷ cs) good (text, short) enough =
    cat_loop-reads fuel (c ∷ cs) (c ∷ cs) [] c cs
      (fgets-end (buffer_size - 1) (c ∷ cs) text (omega arith)) refl
    ∙ ap (◌∷◌ (display_message (c ∷ cs))) (cat_loop-nil fuel)
cat_loop-text_of (suc fuel) (line ∷ lines) last ((text, short), good) good_last enough =
    let read = fgets-line (buffer_size - 1) line (text_of lines last) text (omega arith) in
    let size = length-append line (b'\n' ∷ text_of lines last) in
    let ih = cat_loop-text_of fuel lines last good good_last (omega (arith, size)) in
    let (c, cs, some_bytes) = snoc-cons line b'\n' in
    cat_loop-reads fuel (text_of (line ∷ lines) last) (line ++ b'\n' ∷ []) (text_of lines last) c cs
      read some_bytes
    ∙ ap (◌∷◌ (display_message (line ++ b'\n' ∷ []))) ih

-- For a file that can be opened, whose lines have fewer than BUFFERSIZE - 1 bytes: `cat` shows each line, and what stands behind the last newline, but of each at most MAX_STR_LEN
-- bytes, the newline counted.
pub bn_cat_lem :
    (fopen : Str → Option Str) (reads : List Str) (vars : Vars)
    (name path final_path file last : Str) (lines : List Str)
    → file_path vars path ≡ some final_path
    → fopen final_path ≡ some file
    → file ≡ text_of lines last
    → All IsLine lines
    → IsLine last
    → bn_cat fopen reads vars (name ∷ path ∷ [])
      ≡ some
          (cat_shown (map (λ line. display_message (line ++ b'\n' ∷ [])) lines ++ shown_last last))
unfolding bn_cat cat_file
bn_cat_lem fopen reads vars name path final_path file last lines plain found same good good_last =
    let shown =
      cat_loop-text_of (length (text_of lines last) + 1) lines last good good_last (omega arith) in
    rw (plain, found, same, shown) refl

-- What lines of fewer than MAX_STR_LEN bytes show is the text.
joined-shown :
    (lines : List Str)
    → All (λ line. length line < max_str_len) lines
    → joined (map (λ line. display_message (line ++ b'\n' ∷ [])) lines) ≡ text_of lines []
joined-shown [] short = refl
joined-shown (line ∷ lines) (here, short) =
    let whole : display_message (line ++ b'\n' ∷ []) ≡ line ++ b'\n' ∷ [] =
      take-eq_self max_str_len (line ++ b'\n' ∷ [])
        (omega (arith, length-append line (b'\n' ∷ []))) in
    ap₂ (◌++◌) whole (joined-shown lines short) ∙ append_assoc line (b'\n' ∷ []) (text_of lines [])

-- A file that can be opened, whose lines have fewer than MAX_STR_LEN bytes each and end in a newline,
-- is shown by `cat` as it is.
pub bn_cat_copies :
    (fopen : Str → Option Str) (reads : List Str) (vars : Vars) (name path final_path file : Str)
    (lines : List Str)
    → file_path vars path ≡ some final_path
    → fopen final_path ≡ some file
    → file ≡ text_of lines []
    → All IsLine lines
    → All (λ line. length line < max_str_len) lines
    → (shown : List Str) × (bn_cat fopen reads vars (name ∷ path ∷ []) ≡ some (cat_shown shown))
      × (joined shown ≡ file)
bn_cat_copies fopen reads vars name path final_path file lines plain found same good short = (
  map (λ line. display_message (line ++ b'\n' ∷ [])) lines ++ [],
  bn_cat_lem fopen reads vars name path final_path file [] lines plain found same good
      (tt, omega arith),
  ap joined (append-nil (map (λ line. display_message (line ++ b'\n' ∷ [])) lines))
      ∙ joined-shown lines short
      ∙ sym same,
)
