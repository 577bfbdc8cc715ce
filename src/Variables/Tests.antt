-- ===== src/Variables/Tests.antt =====
-- Runs of the functions on variables, and the theorems about them at concrete lists.
use c_based_linux_shell.Prelude.{
  ◌≡◌, ◌≢◌, ◌↔◌, refl, true, false, some, [], ◌∷◌, arith, if◌then◌else◌, success,
}
use c_based_linux_shell.CString.{codes, strcmp_eq, strncmp_eq, contains, is_alpha, is_digit, strchr}
use c_based_linux_shell.CString.Compare.{is_prefix}
use c_based_linux_shell.Variables.{
  Vars, Allocs, Checked, set_variable, find_val_with_key, find_key, is_valid_varname,
}
use c_based_linux_shell.Variables.Assignment.{is_valid_varname_lem, IsName}
use c_based_linux_shell.Variables.Lookup.{all_succeed, target, find-set_variable}
use c_based_linux_shell.Variables.Names.{IsShadowFree, set_variable-IsShadowFree}

-- ab=1 and then x=2
abbrev two_vars : Vars
two_vars =
    record { key = codes "x"; value = codes "2" }
    ∷ record { key = codes "ab"; value = codes "1" }
    ∷ []

set_new :
    (set_variable all_succeed (some (codes "y")) (some (codes "3")) two_vars).1
    ≡ record { key = codes "y"; value = codes "3" } ∷ two_vars
unfolding set_variable strncmp_eq
set_new = refl

find-set_variable_example :
    ((set_variable all_succeed (some (codes "x")) (some (codes "7")) two_vars).0 ≡ success)
    × (find_val_with_key
          (codes "x")
          (set_variable all_succeed (some (codes "x")) (some (codes "7")) two_vars).1
        ≡ (if strcmp_eq (codes "x") (target (codes "x") two_vars)
            then codes "7"
            else find_val_with_key (codes "x") two_vars))
find-set_variable_example = find-set_variable (codes "x") (codes "7") two_vars (codes "x")

-- `a=5` writes the variable `ab`.
clobbered :
    find_val_with_key
      (codes "ab")
      (set_variable all_succeed (some (codes "a")) (some (codes "5")) two_vars).1
    ≡ codes "5"
unfolding set_variable strncmp_eq find_val_with_key
clobbered = refl

abbrev no_new_value : Allocs
no_new_value = record { new_value = false; node = true; key = true; value = true }

set_variable-IsShadowFree_example :
    IsShadowFree (set_variable no_new_value (some (codes "y")) (some (codes "3")) two_vars).1
unfolding is_prefix
set_variable-IsShadowFree_example =
    set_variable-IsShadowFree no_new_value (some (codes "y")) (some (codes "3")) two_vars
      (refl, (refl, tt))

a_is_not_ab : codes "ab" ≢ codes "a"
a_is_not_ab = ground arith

is_valid_varname_example :
    (r : Checked) × (is_valid_varname true (some (codes "_k1=v")) ≡ some r)
    × (r.freed_argument ≡ false)
    × ((r.valid ≡ true) ↔ IsName (codes "_k1"))
unfolding contains
is_valid_varname_example = is_valid_varname_lem (codes "_k1") (codes "v") refl

bad_name :
    is_valid_varname true (some (codes "1k=v"))
    ≡ some (record { valid = false; freed_argument = false })
unfolding is_valid_varname find_key strchr is_alpha is_digit
bad_name = refl
