-- ===== src/Variables/Lookup.antt =====
-- What `find_val_with_key` returns after `set_variable`, for every list.
use c_based_linux_shell.Prelude.{
  ◌≡◌, refl, inl, inr, true, false, Option, none, some, [], ◌∷◌, arith, if◌then◌else◌, ◌==◌, length,
  Bool-cases, Option-cases, success, failure,
}
use c_based_linux_shell.CString.{Str, strcmp_eq, strncmp_eq}
use c_based_linux_shell.CString.Compare.{strcmp_eq_iff, is_prefix, strncmp_eq-is_prefix}
use c_based_linux_shell.Variables.{Node, Vars, Allocs, overwrite, set_variable, find_val_with_key}

-- The two tests of the search decide that the keys are equal.
same_key-strcmp_eq :
    (key k : Str)
    → (if length k == length key then strncmp_eq key k (length key) else false) ≡ strcmp_eq key k
unfolding strncmp_eq strcmp_eq
same_key-strcmp_eq [] [] = refl
same_key-strcmp_eq [] (y ∷ ys) = ground arith
same_key-strcmp_eq (x ∷ xs) [] = ground arith
same_key-strcmp_eq (x ∷ xs) (y ∷ ys) = ground (arith, same_key-strcmp_eq xs ys)

-- One step of the search.
pub find-cons :
    (j : Str) (n : Node) (vars : Vars)
    → find_val_with_key j (n ∷ vars)
      ≡ (if strcmp_eq j n.key then n.value else find_val_with_key j vars)
unfolding find_val_with_key
find-cons j n vars = ground (arith, same_key-strcmp_eq j n.key)

-- The key of the first node whose key has `key` as a prefix.
abbrev pub shadow : Str → Vars → Option Str
shadow key [] = none
shadow key (n ∷ vars) =
    let rest = shadow key vars in if is_prefix key n.key then some n.key else rest

shadow-is_prefix :
    (key : Str) (vars : Vars) {k : Str} → shadow key vars ≡ some k → is_prefix key k ≡ true
shadow-is_prefix key [] h = cc
shadow-is_prefix key (n ∷ vars) {k} h = ground (arith, shadow-is_prefix key vars {k = k})

overwrite-none :
    (key value : Str) (vars : Vars) → shadow key vars ≡ none → overwrite key value vars ≡ none
unfolding overwrite
overwrite-none key value [] h = refl
overwrite-none key value (n ∷ vars) h =
    rw strncmp_eq-is_prefix (ground (arith, overwrite-none key value vars))

-- A node that is passed over has another key than the node that is found.
passed_over :
    (j key : Str) (a k : Str)
    → is_prefix key a ≡ false
    → is_prefix key k ≡ true
    → strcmp_eq j a ≡ true
    → strcmp_eq j k ≡ false
passed_over j key a k no_prefix prefix ja = elim (Bool-cases (strcmp_eq j k)) [
  | inr other ↦ other
  | inl same ↦ cc (no_prefix, prefix, (strcmp_eq_iff j a).0 ja, (strcmp_eq_iff j k).0 same)
]

overwrite-some :
    (key value : Str) (vars : Vars) {k : Str}
    → shadow key vars ≡ some k
    → (vars' : Vars) × (overwrite key value vars ≡ some vars')
      × ((j : Str)
          → find_val_with_key j vars' ≡ (if strcmp_eq j k then value else find_val_with_key j vars))
unfolding overwrite
overwrite-some key value [] h = cc
overwrite-some key value (n ∷ vars) {k} h = elim (Bool-cases (is_prefix key n.key)) [
  | inl here ↦ (
    record n { value = value } ∷ vars,
    rw (strncmp_eq-is_prefix, here),
    λ j. ground (arith, find-cons j n vars, find-cons j (record n { value = value }) vars),
  )
  | inr past ↦
      let (vars', stored, reads) = overwrite-some key value vars {k = k} (ground arith) in
      (
        n ∷ vars',
        rw strncmp_eq-is_prefix (ground arith),
        λ j. ground (
          arith,
          find-cons j n vars,
          find-cons j n vars',
          reads j,
          passed_over j key n.key k past (shadow-is_prefix key vars {k = k} (ground arith)),
        ),
      )
]

-- The node that an assignment to `key` writes: its own, or the first one that `key` is a prefix of.
abbrev pub target : Str → Vars → Str
target key vars = elim (shadow key vars) [ none ↦ key | some k ↦ k ]

abbrev pub all_succeed : Allocs
all_succeed = record { new_value = true; node = true; key = true; value = true }

-- With memory at hand, `set_variable` succeeds; it gives the value to the first variable whose name
-- begins with the key, or to a new variable of that name if there is none, and every other name
-- reads as before.
pub find-set_variable :
    (key value : Str) (vars : Vars) (j : Str)
    → ((set_variable all_succeed (some key) (some value) vars).0 ≡ success)
      × (find_val_with_key j (set_variable all_succeed (some key) (some value) vars).1
          ≡ (if strcmp_eq j (target key vars) then value else find_val_with_key j vars))
unfolding set_variable
find-set_variable key value vars j = elim (Option-cases (shadow key vars)) [
  | inl fresh ↦
      rw (overwrite-none key value vars fresh, set_variable)
        (ground (arith, find-cons j (record { key = key; value = value }) vars))
  | inr (k, found) ↦
      let (vars', stored, reads) = overwrite-some key value vars {k = k} found in
      rw (stored, set_variable) (ground (arith, reads j))
]

-- A call that returns -1 has left the list as it was, whichever allocation failed.
pub set_variable_atomic :
    (mem : Allocs) (key value : Option Str) (vars : Vars)
    → (set_variable mem key value vars).0 ≡ failure
    → (set_variable mem key value vars).1 ≡ vars
unfolding set_variable
set_variable_atomic mem none value vars h = refl
set_variable_atomic mem (some key) none vars h = refl
set_variable_atomic mem (some key) (some value) vars h = ground arith
