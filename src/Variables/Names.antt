-- ===== src/Variables/Names.antt =====
-- The names in the list of variables: which lists `set_variable` can build.
use c_based_linux_shell.Prelude.{
  ◌≡◌, ◌≢◌, ◌⊎◌, ◌∙◌, length, refl, inl, inr, Option, none, some, [], ◌∷◌, arith, Bool-cases,
  Option-cases,
}
use c_based_linux_shell.CString.{Str, strncmp_eq}
use c_based_linux_shell.CString.Compare.{strcmp_eq_iff, strncmp_eq-is_prefix}
use c_based_linux_shell.Variables.{Node, Vars, Allocs, overwrite, set_variable, find_val_with_key}
use c_based_linux_shell.Variables.Lookup.{shadow, all_succeed, find-set_variable}

-- No name is the beginning of the name of an older variable; so no name stands there twice.
abbrev pub IsShadowFree : Vars → Type 0
IsShadowFree [] = Unit
IsShadowFree (n ∷ vars) = (shadow n.key vars ≡ none) × IsShadowFree vars

-- `overwrite` changes values only.
shadow-overwrite :
    (key value : Str) (vars : Vars) {vars' : Vars} (j : Str)
    → overwrite key value vars ≡ some vars'
    → shadow j vars' ≡ shadow j vars
unfolding overwrite
shadow-overwrite key value [] j h = cc
shadow-overwrite key value (n ∷ vars) {vars'} j h = elim (Option-cases (overwrite key value vars)) [
  | inl missing ↦ ground arith
  | inr (rest, found) ↦ ground (arith, shadow-overwrite key value vars {vars' = rest} j found)
]

-- The overwritten node is the first, or stands in the rest.
overwrite-cons :
    (key value : Str) (n : Node) (vars vars' : Vars)
    → overwrite key value (n ∷ vars) ≡ some vars'
    → (vars' ≡ record n { value = value } ∷ vars)
      ⊎ ((rest : Vars) × (overwrite key value vars ≡ some rest) × (vars' ≡ n ∷ rest))
unfolding overwrite
overwrite-cons key value n vars vars' h = elim (Option-cases (overwrite key value vars)) [
  | inl missing ↦ inl (ground arith)
  | inr (rest, found) ↦ elim (Bool-cases (strncmp_eq n.key key (length key))) [
    | inl here ↦ inl (ground arith)
    | inr past ↦ inr (rest, found, ground arith)
  ]
]

IsShadowFree-overwrite :
    (key value : Str) (vars vars' : Vars)
    → overwrite key value vars ≡ some vars'
    → IsShadowFree vars
    → IsShadowFree vars'
IsShadowFree-overwrite key value [] vars' h free = absurd (unfold overwrite in cc h)
IsShadowFree-overwrite key value (n ∷ vars) vars' h free =
    elim (overwrite-cons key value n vars vars' h) [
      | inl here ↦ rw here free
      | inr (rest, found, past) ↦ rw past (
        shadow-overwrite key value vars {vars' = rest} n.key found ∙ free.0,
        IsShadowFree-overwrite key value vars rest found free.1,
      )
    ]

shadow_of_overwrite-none :
    (key value : Str) (vars : Vars) → overwrite key value vars ≡ none → shadow key vars ≡ none
unfolding overwrite
shadow_of_overwrite-none key value [] h = refl
shadow_of_overwrite-none key value (n ∷ vars) h =
    ground (arith, strncmp_eq-is_prefix n.key key, shadow_of_overwrite-none key value vars)

-- Whatever its arguments and whichever allocation fails, `set_variable` keeps the names free of
-- shadowing.
pub set_variable-IsShadowFree :
    (mem : Allocs) (key value : Option Str) (vars : Vars)
    → IsShadowFree vars
    → IsShadowFree (set_variable mem key value vars).1
unfolding set_variable
set_variable-IsShadowFree mem none value vars free = free
set_variable-IsShadowFree mem (some key) none vars free = free
set_variable-IsShadowFree mem (some key) (some value) vars free =
    elim (Option-cases (overwrite key value vars)) [
      | inl missing ↦
          rw (missing, set_variable) (ground (arith, shadow_of_overwrite-none key value vars))
      | inr (vars', found) ↦
          rw (found, set_variable) (ground (arith, IsShadowFree-overwrite key value vars vars'))
    ]

-- A name that begins the name of another variable cannot be assigned: the other variable takes the
-- value, and the name itself reads as before.
pub set_variable_clobbers :
    (key value : Str) (vars : Vars) {k : Str}
    → shadow key vars ≡ some k
    → k ≢ key
    → (find_val_with_key k (set_variable all_succeed (some key) (some value) vars).1 ≡ value)
      × (find_val_with_key key (set_variable all_succeed (some key) (some value) vars).1
          ≡ find_val_with_key key vars)
set_variable_clobbers key value vars {k} h ne = ground (
  arith,
  find-set_variable key value vars k,
  find-set_variable key value vars key,
  strcmp_eq_iff k k,
  strcmp_eq_iff key k,
)
