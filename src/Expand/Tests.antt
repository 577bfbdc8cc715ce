-- ===== src/Expand/Tests.antt =====
-- Runs of `expand_variables`, and the theorems about it at concrete inputs.
use c_based_linux_shell.Prelude.{◌≡◌, refl, true, none, some, [], ◌∷◌, arith, replicate}
use c_based_linux_shell.CString.{codes, contains, strncmp_eq}
use c_based_linux_shell.Variables.{Vars, find_val_with_key}
use c_based_linux_shell.Expand.{expand_variables}
use c_based_linux_shell.Expand.Meaning.{meaning, expand_variables-meaning}
use c_based_linux_shell.Expand.Overflow.{expand_variables_overflow}

abbrev vars : Vars
vars =
    record { key = codes "x"; value = codes "2" }
    ∷ record { key = codes "ab"; value = codes "one" }
    ∷ []

expand_pieces : expand_variables true vars (some (codes "v$ab$x$none$")) ≡ some (codes "vone2$")
unfolding expand_variables find_val_with_key strncmp_eq
expand_pieces = refl

expand_variables-meaning_example :
    expand_variables true vars (some (codes "v$ab$x")) ≡ some (meaning vars (codes "v$ab$x"))
unfolding find_val_with_key strncmp_eq
expand_variables-meaning_example =
    expand_variables-meaning vars (codes "v$ab$x") (omega arith) (omega arith) (omega arith)

-- A value of 70 bytes.
abbrev long_vars : Vars
long_vars = record { key = codes "k"; value = replicate 70 b'z' } ∷ []

expand_variables_overflow_example : expand_variables true long_vars (some (codes "$k$k$k")) ≡ none
unfolding find_val_with_key contains strncmp_eq
expand_variables_overflow_example =
    expand_variables_overflow long_vars (codes "k") refl (omega arith) (omega arith) (omega arith)
      (omega arith)

expand_twice : expand_variables true long_vars (some (codes "$k$k")) ≡ some (replicate 128 b'z')
unfolding expand_variables find_val_with_key strncmp_eq
expand_twice = refl
