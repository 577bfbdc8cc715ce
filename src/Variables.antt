-- ===== src/Variables.antt =====
-- src/variables.c: the names and values of `name=value`, and the linked list of variables.
-- `strdup` and `malloc` may return NULL: each call's answer is an argument.
pub mod Assignment
pub mod Lookup
pub mod Names
mod Tests
use c_based_linux_shell.Prelude.{
  ℕ, zero, suc, ◌-◌, Bool, true, false, not, ◌&&◌, ◌||◌, Option, none, some, List, [], ◌∷◌, ◌==◌,
  if◌then◌else◌, length, take, all, Status, success, failure,
}
use c_based_linux_shell.CString.{Str, strchr, strncmp_eq, is_alpha, is_digit}

-- What `find_key` returns: NULL, its own argument, or a new string that the caller owns.
pub data KeyPtr : Type 0 where
  null : KeyPtr
  alias owned : Str → KeyPtr

unfoldable pub find_key : Bool → Option Str → KeyPtr
find_key malloc_ok none = null
find_key malloc_ok (some s) = elim (strchr s b'=') [
  | none ↦ alias s
  | some pos ↦ if malloc_ok then owned (take (length s - length pos) s) else null
]

-- `strdup(pos + 1)`: what stands behind the sign.
unfoldable pub after_sign : Bool → Str → Option Str
after_sign strdup_ok [] = none
after_sign strdup_ok (sign ∷ value) = if strdup_ok then some value else none

unfoldable pub find_value : Bool → Option Str → Option Str
unfolding after_sign
find_value strdup_ok none = none
find_value strdup_ok (some s) = elim (strchr s b'=') [
  | none ↦ none
  | some pos ↦ after_sign strdup_ok pos
]

pub record Checked : Type 0 where
  pub valid : Bool
  -- `free(key)` released the argument itself.
  pub freed_argument : Bool

abbrev pub is_start : ℕ → Bool
is_start c = is_alpha c || c == b'_'

abbrev pub is_rest : ℕ → Bool
is_rest c = is_alpha c || (is_digit c || c == b'_')

abbrev pub valid_key : Str → Bool
valid_key [] = false
valid_key (c ∷ cs) = if is_start c then all is_rest cs else false

-- `none` is the fault of `strlen(NULL)`.
unfoldable pub is_valid_varname : Bool → Option Str → Option Checked
is_valid_varname malloc_ok s = elim (find_key malloc_ok s) [
  | null ↦ none
  | alias key ↦ some (record { valid = valid_key key; freed_argument = true })
  | owned key ↦ some (record { valid = valid_key key; freed_argument = false })
]

-- `struct node`; the list is what `head` leads to.
pub record Node : Type 0 where
  pub key : Str
  pub value : Str

abbrev pub Vars : Type 0
Vars = List Node

-- Which allocations of one call of `set_variable` succeed.
pub record Allocs : Type 0 where
  pub new_value : Bool
  pub node : Bool
  pub key : Bool
  pub value : Bool

-- The loop of `set_variable`: the first node whose key agrees with `key` on `strlen(key)` bytes.
unfoldable pub overwrite : Str → Str → Vars → Option Vars
overwrite key value [] = none
overwrite key value (current ∷ next) =
    let rest = overwrite key value next in
    if strncmp_eq current.key key (length key)
    then some (record current { value = value } ∷ next)
    else elim rest [ none ↦ none | some next' ↦ some (current ∷ next') ]

unfoldable pub set_variable : Allocs → Option Str → Option Str → Vars → Status × Vars
unfolding overwrite
set_variable mem none value head = (failure, head)
set_variable mem (some key) none head = (failure, head)
set_variable mem (some key) (some value) head = elim (overwrite key value head) [
  | some head' ↦ if mem.new_value then (success, head') else (failure, head)
  | none ↦
      if mem.node && (mem.key && mem.value)
      then (success, record { key = key; value = value } ∷ head)
      else (failure, head)
]

-- A missing key reads as the empty string.
unfoldable pub find_val_with_key : Str → Vars → Str
find_val_with_key key [] = []
find_val_with_key key (current ∷ next) =
    let rest = find_val_with_key key next in
    if not (length current.key == length key)
    then rest
    else if strncmp_eq key current.key (length key)
    then current.value
    else rest

-- `remove_all_var`: the list and the table of expanded tokens (NULL entries are `none`).
pub record Session : Type 0 where
  pub head : Vars
  pub expanded_tokens : List (Option Str)
  pub expanded_token_count : ℕ

clear_first : ℕ → List (Option Str) → List (Option Str)
clear_first zero tokens = tokens
clear_first (suc n) [] = []
clear_first (suc n) (token ∷ tokens) = none ∷ clear_first n tokens

unfoldable pub remove_all_var : Session → Session
unfolding clear_first
remove_all_var s = record {
  head = [];
  expanded_tokens = clear_first s.expanded_token_count s.expanded_tokens;
  expanded_token_count = 0;
}
