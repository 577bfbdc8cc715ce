-- ===== src/Listing/Walk.antt =====
-- What `ls` lists, by the entries of the tree in their order and with their levels.
use c_based_linux_shell.Prelude.{
  ℕ, zero, suc, ◌+◌, ◌<◌, ◌≡◌, refl, ap, sym, ◌∙◌, inl, inr, Bool, true, false, ◌&&◌, some, List,
  [], ◌∷◌, ◌++◌, arith, leb, ==_iff, le→leb, Bool-cases, if◌then◌else◌,
}
use c_based_linux_shell.Prelude.Int.{ℤ, pos, negsuc}
use c_based_linux_shell.CString.{Str}
use c_based_linux_shell.Variables.{Vars}
use c_based_linux_shell.Listing.{LsInfo, parse_ls, check_ls, accepted}
use c_based_linux_shell.Listing.Tree.{
  Dir, not_opened, opened, Entries, end, entry, matches, is_dots, start_depth, is_zero, minus_one,
  name_line, recursive_ls, ls_entries, ls_plain, listed, ls_opened, bn_ls,
}

-- The entries below a directory, each in front of those inside it, with their levels from `k` on.
-- Nothing stands inside `.` and `..`.
unfoldable mutual
  pub walk : ℕ → Dir → List (ℕ × Str)
  walk k not_opened = []
  walk k (opened entries) = walk_entries k entries

  pub walk_entries : ℕ → Entries → List (ℕ × Str)
  walk_entries k end = []
  walk_entries k (entry name below entries) =
      let inside = walk (k + 1) below in
      (k, name) ∷ ((if is_dots name then [] else inside) ++ walk_entries k entries)

-- The lines of the entries whose level and name are right.
abbrev pub pick : (ℕ → Bool) → (Str → Bool) → List (ℕ × Str) → List Str
pick level_ok name_ok [] = []
pick level_ok name_ok ((k, name) ∷ entries) =
    let rest = pick level_ok name_ok entries in
    if level_ok k && name_ok name then name_line name ∷ rest else rest

-- The levels that a remaining depth allows below level `k`.
abbrev pub allows : Bool → ℤ → ℕ → ℕ → Bool
allows has_depth (pos n) k level = if has_depth then leb level (k + n) else true
allows has_depth (negsuc n) k level = true

pick-append :
    (level_ok : ℕ → Bool) (name_ok : Str → Bool) (xs ys : List (ℕ × Str))
    → pick level_ok name_ok (xs ++ ys) ≡ pick level_ok name_ok xs ++ pick level_ok name_ok ys
pick-append level_ok name_ok [] ys = refl
pick-append level_ok name_ok ((k, name) ∷ xs) ys =
    ground (arith, pick-append level_ok name_ok xs ys)

-- The lines of an entry with what is inside it and behind it.
pick-entry :
    (level_ok : ℕ → Bool) (name_ok : Str → Bool) (k : ℕ) (name : Str) (dots : Bool)
    (inside others : List (ℕ × Str))
    → pick level_ok name_ok ((k, name) ∷ ((if dots then [] else inside) ++ others)) ≡ (
        if level_ok k && name_ok name
        then name_line name
          ∷ ((if dots then [] else pick level_ok name_ok inside) ++ pick level_ok name_ok others)
        else (if dots then [] else pick level_ok name_ok inside) ++ pick level_ok name_ok others)
pick-entry level_ok name_ok k name true inside others = refl
pick-entry level_ok name_ok k name false inside others =
    rw (pick-append level_ok name_ok inside others) refl

no_lines : (dots : Bool) (lines : List Str) → (if dots then [] else []) ++ lines ≡ lines
no_lines true lines = refl
no_lines false lines = refl

-- No level is above the first.
mutual
  unfolding walk

  pick-walk_none :
      (name_ok : Str → Bool) (k j : ℕ) (d : Dir)
      → k < j
      → pick (λ level. leb level k) name_ok (walk j d) ≡ []
  pick-walk_none name_ok k j not_opened low = refl
  pick-walk_none name_ok k j (opened entries) low = pick-walk_entries_none name_ok k j entries low

  pick-walk_entries_none :
      (name_ok : Str → Bool) (k j : ℕ) (entries : Entries)
      → k < j
      → pick (λ level. leb level k) name_ok (walk_entries j entries) ≡ []
  pick-walk_entries_none name_ok k j end low = refl
  pick-walk_entries_none name_ok k j (entry name below entries) low =
      let high : leb j k ≡ false = ground arith in
      pick-entry (λ level. leb level k) name_ok j name (is_dots name) (walk (j + 1) below)
        (walk_entries j entries)
      ∙ rw
          (
            high,
            pick-walk_none name_ok k (j + 1) below (omega arith),
            pick-walk_entries_none name_ok k j entries low,
          )
          (no_lines (is_dots name) [])

-- One level further down, one less is allowed.
allows-minus_one :
    (has_depth : Bool) (remain : ℤ) (k : ℕ)
    → (has_depth && is_zero remain) ≡ false
    → allows has_depth (minus_one remain) (k + 1) ≡ allows has_depth remain k
allows-minus_one true (pos zero) k left = cc
allows-minus_one true (pos (suc n)) k left = ap (λ m level. leb level m) (omega arith)
allows-minus_one true (negsuc n) k left = refl
allows-minus_one false (pos zero) k left = refl
allows-minus_one false (pos (suc n)) k left = refl
allows-minus_one false (negsuc n) k left = refl

allows-start :
    (has_depth : Bool) (remain : ℤ) (k : ℕ)
    → allows has_depth (start_depth has_depth remain) k ≡ allows has_depth remain k
allows-start true remain k = refl
allows-start false (pos n) k = refl
allows-start false (negsuc n) k = refl

allows-first :
    (has_depth : Bool) (remain : ℤ) (k : ℕ)
    → (has_depth && is_zero remain) ≡ false
    → allows has_depth remain k (k + 1) ≡ true
allows-first true (pos zero) k left = cc
allows-first true (pos (suc n)) k left = le→leb (k + 1) (k + suc n) (omega arith)
allows-first true (negsuc n) k left = refl
allows-first false (pos n) k left = refl
allows-first false (negsuc n) k left = refl

start-left :
    (has_depth : Bool) (remain : ℤ)
    → (has_depth && is_zero remain) ≡ false
    → (has_depth && is_zero (start_depth has_depth remain)) ≡ false
start-left true remain left = left
start-left false remain left = refl

pick-stopped :
    (has_depth : Bool) (remain : ℤ) (k : ℕ) (name_ok : Str → Bool) (entries : Entries)
    → (has_depth && is_zero remain) ≡ true
    → pick (allows has_depth remain k) name_ok (walk_entries (k + 1) entries) ≡ []
pick-stopped true (pos zero) k name_ok entries stop =
    pick-walk_entries_none name_ok (k + 0) (k + 1) entries (omega arith)
pick-stopped true (pos (suc n)) k name_ok entries stop =
    let none_left = (==_iff (suc n) 0).0 stop in absurd (omega arith)
pick-stopped true (negsuc n) k name_ok entries stop = cc
pick-stopped false remain k name_ok entries stop = cc

-- The recursion against the list of entries, from level `k`.
mutual
  unfolding recursive_ls ls_entries walk

  recursive_ls-pick :
      (info : LsInfo) (remain : ℤ) (k : ℕ) (d : Dir)
      → recursive_ls info remain d
        ≡ pick (allows info.has_depth remain k) (matches info.substring) (walk (k + 1) d)
  recursive_ls-pick info remain k not_opened = refl
  recursive_ls-pick info remain k (opened entries) =
      elim (Bool-cases (info.has_depth && is_zero remain)) [
        | inl stop ↦
            rw stop
              (sym (pick-stopped info.has_depth remain k (matches info.substring) entries stop))
        | inr left ↦
            let start = start_depth info.has_depth remain in
            rw left (
              ls_entries-pick info start k entries (start-left info.has_depth remain left)
              ∙ ap (λ f. pick f (matches info.substring) (walk_entries (k + 1) entries))
                  (allows-start info.has_depth remain k))
      ]

  ls_entries-pick :
      (info : LsInfo) (remain : ℤ) (k : ℕ) (entries : Entries)
      → (info.has_depth && is_zero remain) ≡ false
      → ls_entries info remain entries
        ≡ pick
            (allows info.has_depth remain k)
            (matches info.substring)
            (walk_entries (k + 1) entries)
  ls_entries-pick info remain k end left = refl
  ls_entries-pick info remain k (entry name below entries) left =
      let level_ok = allows info.has_depth remain k in
      let inside =
        recursive_ls-pick info (minus_one remain) (k + 1) below
        ∙ ap (λ f. pick f (matches info.substring) (walk (k + 1 + 1) below))
            (allows-minus_one info.has_depth remain k left) in
      let others = ls_entries-pick info remain k entries left in
      let first = allows-first info.has_depth remain k left in
      rw (inside, others)
        (sym (
          pick-entry level_ok (matches info.substring) (k + 1) name (is_dots name)
            (walk (k + 1 + 1) below) (walk_entries (k + 1) entries)
          ∙ rw first refl))

ls_plain-pick :
    (info : LsInfo) (entries : Entries)
    → ls_plain info entries
      ≡ pick (λ level. leb level 1) (matches info.substring) (walk_entries 1 entries)
unfolding ls_plain walk
ls_plain-pick info end = refl
ls_plain-pick info (entry name below entries) = sym (
    pick-entry (λ level. leb level 1) (matches info.substring) 1 name (is_dots name) (walk 2 below)
      (walk_entries 1 entries)
    ∙ rw
        (
          pick-walk_none (matches info.substring) 1 2 below (omega arith),
          sym (ls_plain-pick info entries),
        )
        (rw (no_lines (is_dots name) (ls_plain info entries)) refl))

-- The levels that are listed: without `--rec` the first, with it those that the depth allows.
abbrev pub levels : LsInfo → ℕ → Bool
levels info = if info.has_rec then allows info.has_depth info.depth 0 else (λ level. leb level 1)

-- With accepted options and a path that can be opened, `ls` lists of the entries of the tree, each in
-- front of those inside it and in the order in which directories give them, just those whose name
-- holds the substring, if one is given, and whose level is allowed: the first level without `--rec`,
-- with it all, or down to the given depth. Nothing is listed from inside `.` and `..`.
pub bn_ls_lem :
    (opendir : Str → Dir) (vars : Vars) (tokens : List Str) (info : LsInfo) (entries : Entries)
    → parse_ls vars tokens ≡ some info
    → check_ls info ≡ accepted
    → opendir info.path ≡ opened entries
    → bn_ls opendir vars tokens
      ≡ some (listed (pick (levels info) (matches info.substring) (walk 1 (opened entries))))
unfolding bn_ls ls_opened walk
bn_ls_lem opendir vars tokens info entries parsed checked found =
    let deep_lines = recursive_ls-pick info info.depth 0 (opened entries) in
    let flat_lines = ls_plain-pick info entries in
    elim (Bool-cases info.has_rec) [
      | inl deep ↦ rw (parsed, checked, found, deep_lines, flat_lines, deep) refl
      | inr flat ↦ rw (parsed, checked, found, deep_lines, flat_lines, flat) refl
    ]
