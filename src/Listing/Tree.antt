-- ===== src/Listing/Tree.antt =====
-- `recursive_ls` and `bn_ls` of src/builtins.c on a tree of directories. The tree is what `opendir` and
-- `readdir` give: the entries in their order, `.` and `..` among them, and nothing changes while it
-- is read. A name is opened as the directory of its entry.
use c_based_linux_shell.Prelude.{
  zero, suc, ◌+◌, Bool, true, false, ◌&&◌, ◌||◌, Option, none, some, List, [], ◌∷◌, ◌++◌, ◌==◌,
  if◌then◌else◌, ◌>>=◌,
}
use c_based_linux_shell.Prelude.Int.{ℤ, pos, negsuc}
use c_based_linux_shell.CString.{Str, codes, strncmp_eq}
use c_based_linux_shell.Display.{display_message}
use c_based_linux_shell.Variables.{Vars}
use c_based_linux_shell.Listing.{
  LsInfo, parse_ls, check_ls, too_many_paths, rejected, accepted, LsCheck,
}

-- `not_opened` is a path for which `opendir` gives NULL, such as that of a file.
mutual
  pub data Dir : Type 0 where
    not_opened : Dir
    opened : Entries → Dir

  pub data Entries : Type 0 where
    end : Entries
    entry : Str → Dir → Entries → Entries

-- `strstr` as a test.
abbrev pub begins : Str → Str → Bool
begins text [] = true
begins [] (c ∷ s) = false
begins (d ∷ text) (c ∷ s) = let rest = begins text s in if d == c then rest else false

unfoldable pub strstr : Str → Str → Bool
strstr [] s = begins [] s
strstr (d ∷ text) s = let rest = strstr text s in begins (d ∷ text) s || rest

-- `info->has_substring` and `info->substring`: whether a name is shown.
abbrev pub matches : Option Str → Str → Bool
matches none name = true
matches (some s) name = strstr name s

-- The two names that are not gone into.
abbrev pub is_dots : Str → Bool
is_dots name = strncmp_eq name (codes ".") 2 || strncmp_eq name (codes "..") 3

-- `remain_depth` where it is given, and the tests on it.
abbrev pub start_depth : Bool → ℤ → ℤ
start_depth has_depth remain = if has_depth then remain else negsuc 0

abbrev pub is_zero : ℤ → Bool
is_zero (pos n) = n == 0
is_zero (negsuc n) = false

abbrev pub minus_one : ℤ → ℤ
minus_one (pos zero) = negsuc 0
minus_one (pos (suc n)) = pos n
minus_one (negsuc n) = negsuc (n + 1)

-- The name and the newline, in two calls of `display_message`.
abbrev pub name_line : Str → Str
name_line name = display_message name ++ display_message (b'\n' ∷ [])

-- `recursive_ls`, and its loop over the entries: the lines that are shown.
unfoldable mutual
  pub recursive_ls : LsInfo → ℤ → Dir → List Str
  recursive_ls info remain not_opened = []
  recursive_ls info remain (opened entries) =
      let listed = ls_entries info (start_depth info.has_depth remain) entries in
      if info.has_depth && is_zero remain then [] else listed

  pub ls_entries : LsInfo → ℤ → Entries → List Str
  ls_entries info remain end = []
  ls_entries info remain (entry name below entries) =
      let inside = recursive_ls info (minus_one remain) below in
      let others = ls_entries info remain entries in
      let gone_into = if is_dots name then [] else inside in
      if matches info.substring name
      then name_line name ∷ (gone_into ++ others)
      else gone_into ++ others

-- The loops of `bn_ls` without `--rec`.
unfoldable pub ls_plain : LsInfo → Entries → List Str
ls_plain info end = []
ls_plain info (entry name below entries) =
    let others = ls_plain info entries in
    if matches info.substring name then name_line name ∷ others else others

pub data LsError : Type 0 where
  too_many_arguments bad_option invalid_path : LsError

pub data LsResult : Type 0 where
  failed : LsError → LsResult
  listed : List Str → LsResult

unfoldable pub ls_opened : LsInfo → Dir → LsResult
ls_opened info not_opened = failed invalid_path
ls_opened info (opened entries) =
    if info.has_rec
    then listed (recursive_ls info info.depth (opened entries))
    else listed (ls_plain info entries)

abbrev pub ls_checked : LsCheck → LsInfo → (Str → Dir) → LsResult
ls_checked too_many_paths info opendir = failed too_many_arguments
ls_checked rejected info opendir = failed bad_option
ls_checked accepted info opendir = ls_opened info (opendir info.path)

-- `bn_ls`; `opendir` gives the tree at a path.
unfoldable pub bn_ls : (Str → Dir) → Vars → List Str → Option LsResult
bn_ls opendir vars tokens = do
  info ← parse_ls vars tokens
  some (ls_checked (check_ls info) info opendir)
