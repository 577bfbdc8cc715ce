-- ===== src/CString.antt =====
-- C strings (<string.h>, <ctype.h>) as the bytes before the terminator.
pub mod Compare
pub mod Tokens
pub mod Number
pub mod Lines
use Prim.Native.Char.{code}
use Prim.Native.String.{String}
use c_based_linux_shell.Prelude.{
  ℕ, zero, suc, ◌+◌, ◌-◌, ◌%◌, ◌^◌, Bool, true, false, ◌&&◌, ◌||◌, Option, none, some, List, [],
  ◌∷◌, ◌++◌, leb, ltb, ◌==◌, if◌then◌else◌, length, take,
}

abbrev pub Str : Type 0
Str = List ℕ

-- The bytes of an ASCII literal.
abbrev pub codes : String → Str
codes String.[] = []
codes (String.◌∷◌ c s) = code c ∷ codes s

-- MAX_STR_LEN of io_helpers.h.
abbrev pub max_str_len : ℕ
max_str_len = 128

-- strcmp(a, b) == 0
unfoldable pub strcmp_eq : Str → Str → Bool
strcmp_eq [] [] = true
strcmp_eq [] (y ∷ ys) = false
strcmp_eq (x ∷ xs) [] = false
strcmp_eq (x ∷ xs) (y ∷ ys) = (x == y) && strcmp_eq xs ys

-- strncmp(a, b, n) == 0
unfoldable pub strncmp_eq : Str → Str → ℕ → Bool
strncmp_eq a b zero = true
strncmp_eq [] [] (suc n) = true
strncmp_eq [] (y ∷ ys) (suc n) = false
strncmp_eq (x ∷ xs) [] (suc n) = false
strncmp_eq (x ∷ xs) (y ∷ ys) (suc n) = (x == y) && strncmp_eq xs ys n

-- strchr(s, c): what stands at the returned pointer, or `none` for NULL.
unfoldable pub strchr : Str → ℕ → Option Str
strchr [] c = none
strchr (x ∷ xs) c = if x == c then some (x ∷ xs) else strchr xs c

-- strchr(s, c) != NULL
unfoldable pub contains : Str → ℕ → Bool
contains [] c = false
contains (x ∷ xs) c = (x == c) || contains xs c

-- strncat(dst, src, n) into an array of `cap` bytes; `none` if the copy and its terminator do not
-- fit.
unfoldable pub strncat : ℕ → Str → Str → ℕ → Option Str
strncat cap dst src n =
    let joined = dst ++ take n src in if ltb (length joined) cap then some joined else none

-- `a -= b` on a `size_t`.
unfoldable pub size_sub : ℕ → ℕ → ℕ
size_sub a b = (a + 2 ^ 64 - b) % 2 ^ 64

-- isalpha, isdigit and isspace in the C locale, which the program never leaves.
unfoldable pub is_alpha : ℕ → Bool
is_alpha c = (leb b'a' c && leb c b'z') || (leb b'A' c && leb c b'Z')

unfoldable pub is_digit : ℕ → Bool
is_digit c = leb b'0' c && leb c b'9'

-- Tab, newline, vertical tab, form feed and carriage return are 9 to 13.
unfoldable pub is_space : ℕ → Bool
is_space c = (c == b' ') || (leb 9 c && leb c 13)

-- The token at the front of a text that does not begin with a delimiter, and what stands behind the
-- delimiter that ends it.
unfoldable pub token_front : Str → Str → Str
token_front delims [] = []
token_front delims (c ∷ cs) =
    let rest = token_front delims cs in if contains delims c then [] else c ∷ rest

unfoldable pub token_rest : Str → Str → Str
token_rest delims [] = []
token_rest delims (c ∷ cs) =
    let rest = token_rest delims cs in if contains delims c then cs else rest

-- strtok: the next token, and the text that the following call goes on with.
unfoldable pub strtok : Str → Str → Option (Str × Str)
strtok delims [] = none
strtok delims (c ∷ cs) =
    let next = strtok delims cs in
    if contains delims c
    then next
    else some (token_front delims (c ∷ cs), token_rest delims (c ∷ cs))

-- All tokens of a text, by calls of `strtok` until it returns NULL; each call is a round of fuel.
unfoldable pub strtok_all : ℕ → Str → Str → List Str
strtok_all zero delims s = []
strtok_all (suc fuel) delims s = elim (strtok delims s) [
  | none ↦ []
  | some (token, rest) ↦ token ∷ strtok_all fuel delims rest
]

-- `fgets` for at most `n` bytes: what it reads and what is left.
unfoldable pub fgets : ℕ → Str → Str × Str
fgets zero text = ([], text)
fgets (suc n) [] = ([], [])
fgets (suc n) (c ∷ text) =
    let (got, rest) = fgets n text in if c == b'\n' then (c ∷ [], text) else (c ∷ got, rest)
