-- ===== src/Listing/Tests.antt =====
-- `parse_ls` at concrete lines.
use c_based_linux_shell.Prelude.{◌≡◌, refl, some, List, [], ◌∷◌, arith, true}
use c_based_linux_shell.CString.{Str, codes, strcmp_eq, strncmp_eq, contains, is_digit}
use c_based_linux_shell.Listing.{LsInfo, defaults, parse_ls, parse_from, check_ls, rejected}
use c_based_linux_shell.Listing.Tree.{
  Entries, not_opened, opened, end, entry, matches, strstr, bn_ls, listed, recursive_ls, ls_opened,
}
use c_based_linux_shell.Listing.Walk.{walk, pick, levels, bn_ls_lem}
use c_based_linux_shell.Listing.Options.{
  LsOption, recursive, depth_option, substring_option, path_option, tokens_of, summary,
  parse_ls_options,
}

-- A depth without `--rec` is refused.
depth_alone : check_ls (summary defaults (depth_option (codes "2") ∷ [])) ≡ rejected
unfolding check_ls
depth_alone = refl

abbrev options : List LsOption
options =
    substring_option (codes "a")
    ∷ path_option (codes "src")
    ∷ depth_option (codes "2")
    ∷ recursive
    ∷ substring_option (codes "a")
    ∷ []

parse_ls_options_example :
    parse_ls [] (codes "ls" ∷ tokens_of options) ≡ some (summary defaults options)
unfolding strcmp_eq strncmp_eq contains is_digit
parse_ls_options_example =
    parse_ls_options [] (codes "ls") (codes "a") options
      ((refl, refl), ((refl, refl, refl, refl, omega arith), (refl, (tt, ((refl, refl), tt)))))
      (omega arith)

-- A directory with a file and a directory that holds two more.
abbrev inner : Entries
inner =
    entry (codes ".") not_opened
      (entry (codes "main.c") not_opened (entry (codes "notes") not_opened end))

abbrev outer : Entries
outer = entry (codes "readme.c") not_opened (entry (codes "src") (opened inner) end)

abbrev rec_tokens : List Str
rec_tokens = codes "ls" ∷ codes "--rec" ∷ codes "--f" ∷ codes ".c" ∷ []

abbrev rec_info : LsInfo
rec_info = record defaults { has_rec = true; substring = some (codes ".c") }

bn_ls_example :
    bn_ls (λ path. opened outer) [] rec_tokens
    ≡ some (listed (pick (levels rec_info) (matches rec_info.substring) (walk 1 (opened outer))))
unfolding parse_ls parse_from check_ls strcmp_eq strncmp_eq
bn_ls_example = bn_ls_lem (λ path. opened outer) [] rec_tokens rec_info outer refl refl refl

-- Both files are listed.
both_files :
    bn_ls (λ path. opened outer) [] rec_tokens
    ≡ some (listed (codes "readme.c\n" ∷ codes "main.c\n" ∷ []))
unfolding bn_ls parse_ls parse_from check_ls strcmp_eq strncmp_eq recursive_ls strstr ls_opened
both_files = refl
