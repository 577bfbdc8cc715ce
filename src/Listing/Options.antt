-- ===== src/Listing/Options.antt =====
-- What `parse_ls` makes of a line of options, in any order.
use c_based_linux_shell.Prelude.{
  ℕ, suc, ◌+◌, ◌≤◌, ◌≡◌, refl, ap, ◌∙◌, true, false, some, List, [], ◌∷◌, arith, length, all, All,
  ge→ltb, take-eq_self,
}
use c_based_linux_shell.CString.{Str, codes, max_str_len, strcmp_eq, contains, is_digit}
use c_based_linux_shell.CString.Compare.{strcmp_eq_refl}
use c_based_linux_shell.CString.Number.{atoi}
use c_based_linux_shell.Variables.{Vars}
use c_based_linux_shell.Listing.{
  LsInfo, defaults, no_substring, conflicts, path_value, parse_from, parse_ls,
}

-- An option as the user means it, and its tokens.
pub data LsOption : Type 0 where
  recursive : LsOption
  depth_option substring_option path_option : Str → LsOption

abbrev pub tokens_of : List LsOption → List Str
tokens_of [] = []
tokens_of (recursive ∷ os) = codes "--rec" ∷ tokens_of os
tokens_of (depth_option d ∷ os) = codes "--d" ∷ d ∷ tokens_of os
tokens_of (substring_option s ∷ os) = codes "--f" ∷ s ∷ tokens_of os
tokens_of (path_option p ∷ os) = p ∷ tokens_of os

-- The number of paths.
abbrev pub path_count : List LsOption → ℕ
path_count [] = 0
path_count (recursive ∷ os) = path_count os
path_count (depth_option d ∷ os) = path_count os
path_count (substring_option s ∷ os) = path_count os
path_count (path_option p ∷ os) = suc (path_count os)

-- What an option changes, and a list of them.
abbrev pub applied : LsInfo → LsOption → LsInfo
applied info recursive = record info { has_rec = true }
applied info (depth_option d) = record info { depth = atoi d; has_depth = true }
applied info (substring_option s) = record info { substring = some s }
applied info (path_option p) = record info { path = p; has_path = info.has_path + 1 }

abbrev pub summary : LsInfo → List LsOption → LsInfo
summary info [] = info
summary info (o ∷ os) = summary (applied info o) os

-- A path that is no option and holds no `$`, and fits.
abbrev pub IsPath : Str → Type 0
IsPath p =
    (strcmp_eq p (codes "--f") ≡ false)
    × (strcmp_eq p (codes "--d") ≡ false)
    × (strcmp_eq p (codes "--rec") ≡ false)
    × (contains p b'$' ≡ false)
    × (length p ≤ max_str_len)

-- An option of a line whose only substring is `s`.
abbrev pub IsGood : Str → LsOption → Type 0
IsGood s recursive = Unit
IsGood s (depth_option d) = all is_digit d ≡ true
IsGood s (substring_option u) = (u ≡ s) × (no_substring u ≡ false)
IsGood s (path_option p) = IsPath p

path_value-plain :
    (vars : Vars) (p : Str)
    → contains p b'$' ≡ false
    → length p ≤ max_str_len
    → path_value vars p ≡ some p
unfolding path_value
path_value-plain vars p plain short = rw plain (ap some (take-eq_self max_str_len p short))

-- The steps of the loop.
module _ (vars : Vars) (info : LsInfo) where
  parse-rec :
      (ts : List Str)
      → parse_from vars info (codes "--rec" ∷ ts)
        ≡ parse_from vars (record info { has_rec = true }) ts
  unfolding parse_from strcmp_eq
  parse-rec [] = refl
  parse-rec (u ∷ ts) = refl

  parse-depth :
      (d : Str) (ts : List Str)
      → all is_digit d ≡ true
      → parse_from vars info (codes "--d" ∷ d ∷ ts)
        ≡ parse_from vars (record info { depth = atoi d; has_depth = true }) ts
  unfolding parse_from strcmp_eq
  parse-depth d ts digits = rw digits refl

  parse-substring :
      (u : Str) (ts : List Str)
      → no_substring u ≡ false
      → conflicts info.substring u ≡ false
      → parse_from vars info (codes "--f" ∷ u ∷ ts)
        ≡ parse_from vars (record info { substring = some u }) ts
  unfolding parse_from strcmp_eq
  parse-substring u ts good alone = rw (good, alone) refl

  parse-path :
      (p : Str) (ts : List Str)
      → IsPath p
      → info.has_path ≡ 0
      → parse_from vars info (p ∷ ts)
        ≡ parse_from vars (record info { path = p; has_path = info.has_path + 1 }) ts
  unfolding parse_from
  parse-path p [] (f, d, r, plain, short) first =
      rw (f, d, r, ge→ltb 0 info.has_path (omega arith), path_value-plain vars p plain short) refl
  parse-path p (u ∷ ts) (f, d, r, plain, short) first =
      rw (f, d, r, ge→ltb 0 info.has_path (omega arith), path_value-plain vars p plain short) refl

parse_from-summary :
    (vars : Vars) (s : Str) (info : LsInfo) (os : List LsOption)
    → All (IsGood s) os
    → info.has_path + path_count os ≤ 1
    → conflicts info.substring s ≡ false
    → parse_from vars info (tokens_of os) ≡ some (summary info os)
unfolding parse_from
parse_from-summary vars s info [] good one alone = refl
parse_from-summary vars s info (recursive ∷ os) (g, good) one alone =
    parse-rec vars info (tokens_of os)
    ∙ parse_from-summary vars s (record info { has_rec = true }) os good one alone
parse_from-summary vars s info (depth_option d ∷ os) (digits, good) one alone =
    parse-depth vars info d (tokens_of os) digits
    ∙ parse_from-summary vars s (applied info (depth_option d)) os good one alone
parse_from-summary vars s info (substring_option u ∷ os) ((same, g), good) one alone =
    parse-substring vars info u (tokens_of os) g (rw same alone)
    ∙ parse_from-summary vars s (applied info (substring_option u)) os good one
        (rw (same, strcmp_eq_refl s) refl)
parse_from-summary vars s info (path_option p ∷ os) (is_path, good) one alone =
    parse-path vars info p (tokens_of os) is_path (omega arith)
    ∙ parse_from-summary vars s (applied info (path_option p)) os good (omega arith) alone

-- Options in any order, with at most one path, and with one substring `s` where `--f` is given
-- more than once, are all read, each as what it changes of the defaults. Depths are digits only,
-- no substring is empty or looks like an option, and the path is no option, holds no `$`, and
-- has at most MAX_STR_LEN bytes.
pub parse_ls_options :
    (vars : Vars) (name s : Str) (os : List LsOption)
    → All (IsGood s) os
    → path_count os ≤ 1
    → parse_ls vars (name ∷ tokens_of os) ≡ some (summary defaults os)
unfolding parse_ls
parse_ls_options vars name s os good one =
    parse_from-summary vars s defaults os good (omega arith) refl
