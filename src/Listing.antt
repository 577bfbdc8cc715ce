-- ===== src/Listing.antt =====
-- The options of `ls`: `parse_ls` of src/builtins.c, with the tests of `bn_ls` before it opens a
-- directory. `none` is a fault of `expand_variables`.
pub mod Options
pub mod Tree
pub mod Walk
mod Tests
use c_based_linux_shell.Prelude.{
  ℕ, Bool, true, false, not, ◌&&◌, ◌||◌, ◌+◌, Option, none, some, List, [], ◌∷◌, ◌++◌, ◌==◌, leb,
  ltb, if◌then◌else◌, length, take, all, ◌>>=◌,
}
use c_based_linux_shell.Prelude.Int.{ℤ, negsuc}
use c_based_linux_shell.CString.{Str, codes, max_str_len, strcmp_eq, strncmp_eq, contains, is_digit}
use c_based_linux_shell.CString.Number.{atoi}
use c_based_linux_shell.Variables.{Vars}
use c_based_linux_shell.Expand.{expand_variables}

-- `ls_info`; `has_substring` is 1 just where `substring` is not NULL.
pub record LsInfo : Type 0 where
  pub path : Str
  pub has_path : ℕ
  pub has_rec : Bool
  pub has_depth : Bool
  pub depth : ℤ
  pub substring : Option Str
  pub valid : Bool

abbrev pub defaults : LsInfo
defaults = record {
  path = codes ".";
  has_path = 0;
  has_rec = false;
  has_depth = false;
  depth = negsuc 0;
  substring = none;
  valid = true;
}

-- The tests on the token behind `--f`.
abbrev pub no_substring : Str → Bool
no_substring u =
    length u == 0
    || (strncmp_eq u (codes "--f") 3
        || (strncmp_eq u (codes "--d") 3 || strncmp_eq u (codes "--rec") 5))

-- Another substring than the one that is there already.
abbrev pub conflicts : Option Str → Str → Bool
conflicts none u = false
conflicts (some s) u = not (strcmp_eq s u)

abbrev pub invalid : LsInfo → LsInfo
invalid info = record info { valid = false }

-- The path of a token. What `strncpy` copies is cut to MAX_STR_LEN.
unfoldable pub path_value : Vars → Str → Option Str
path_value vars t =
    if contains t b'$' && leb 2 (length t)
    then (do value ← expand_variables true vars (some t); some (take max_str_len value))
    else some (take max_str_len t)

-- The loop; the bounds of the recursion are the tokens left.
unfoldable pub parse_from : Vars → LsInfo → List Str → Option LsInfo
parse_from vars info [] = some info
parse_from vars info (t ∷ []) =
    if strcmp_eq t (codes "--f") || strcmp_eq t (codes "--d")
    then some (invalid info)
    else if strcmp_eq t (codes "--rec")
    then some (record info { has_rec = true })
    else if ltb 0 info.has_path
    then some (record info { has_path = info.has_path + 1; valid = false })
    else do
      path ← path_value vars t
      some (record info { path = path; has_path = info.has_path + 1 })
parse_from vars info (t ∷ u ∷ ts) =
    let with_substring = parse_from vars (record info { substring = some u }) ts in
    let with_depth = parse_from vars (record info { depth = atoi u; has_depth = true }) ts in
    let with_rec = parse_from vars (record info { has_rec = true }) (u ∷ ts) in
    if strcmp_eq t (codes "--f")
    then if no_substring u || conflicts info.substring u
      then some (invalid info)
      else with_substring
    else if strcmp_eq t (codes "--d")
    then if all is_digit u then with_depth else some (invalid info)
    else if strcmp_eq t (codes "--rec")
    then with_rec
    else if ltb 0 info.has_path
    then some (record info { has_path = info.has_path + 1; valid = false })
    else do
      path ← path_value vars t
      parse_from vars (record info { path = path; has_path = info.has_path + 1 }) (u ∷ ts)

unfoldable pub parse_ls : Vars → List Str → Option LsInfo
parse_ls vars [] = none
parse_ls vars (name ∷ tokens) = parse_from vars defaults tokens

-- The checks of `bn_ls` on the options.
pub data LsCheck : Type 0 where
  too_many_paths rejected accepted : LsCheck

unfoldable pub check_ls : LsInfo → LsCheck
check_ls info =
    if ltb 1 info.has_path
    then too_many_paths
    else if not info.valid
    then rejected
    else if not info.has_rec && info.has_depth
    then rejected
    else accepted
