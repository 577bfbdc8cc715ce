-- ===== src/Command/Assign.antt =====
-- The line `name=value`, from the count of pipes to the list of variables.
use c_based_linux_shell.Prelude.{
  ◌≤◌, ◌≡◌, refl, sym, ◌∙◌, ap, inl, inr, true, false, none, some, [], ◌∷◌, ◌++◌, arith, length,
  All, Bool-cases, Option-cases, success, failure,
}
use c_based_linux_shell.CString.{Str, strcmp_eq, contains, max_str_len}
use c_based_linux_shell.CString.Compare.{strcmp_eq_iff}
use c_based_linux_shell.Variables.{Vars, set_variable}
use c_based_linux_shell.Variables.Assignment.{IsName, find_key_value, is_valid_varname_lem}
use c_based_linux_shell.Expand.Meaning.{
  meaning, head_piece, names, IsShort, expand_variables-meaning,
}
use c_based_linux_shell.Command.{
  pipe, count_pipes, World, Builtin, check_builtin, Message, stored_value, store, assign,
  simple_command, execute_counted, execute_command,
}
use c_based_linux_shell.Command.Builtins.{name_of, check_builtin_lem}

contains-sign : (k v : Str) → contains (k ++ b'=' ∷ v) b'=' ≡ true
unfolding contains
contains-sign [] v = refl
contains-sign (x ∷ k) v = ground (arith, contains-sign k v)

name_of-contains : (fn : Builtin) → contains (name_of fn) b'=' ≡ false
unfolding contains
name_of-contains Builtin.echo = refl
name_of-contains Builtin.ls = refl
name_of-contains Builtin.cd = refl
name_of-contains Builtin.cat = refl
name_of-contains Builtin.wc = refl
name_of-contains Builtin.ps = refl
name_of-contains Builtin.kill = refl
name_of-contains Builtin.start_server = refl
name_of-contains Builtin.close_server = refl
name_of-contains Builtin.send = refl
name_of-contains Builtin.start_client = refl

-- No builtin is named by a token with a sign.
check_builtin-sign : (t : Str) → contains t b'=' ≡ true → check_builtin t ≡ none
check_builtin-sign t sign = elim (Option-cases (check_builtin t)) [
  | inl none_found ↦ none_found
  | inr (fn, found) ↦
      let e : contains (name_of fn) b'=' ≡ true = rw ((check_builtin_lem t fn).0 found) at sign in
      cc (e, name_of-contains fn)
]

-- Nor is it a pipe.
IsWord-sign : (t : Str) → contains t b'=' ≡ true → strcmp_eq t pipe ≡ false
unfolding contains
IsWord-sign t sign = elim (Bool-cases (strcmp_eq t pipe)) [
  | inr word ↦ word
  | inl is_pipe ↦ let e : false ≡ true = rw ((strcmp_eq_iff t pipe).0 is_pipe) at sign in cc
]

simple_command-sign :
    (w : World) (vars : Vars) (t : Str)
    → contains t b'=' ≡ true
    → simple_command w vars t [] ≡ assign w vars t
unfolding simple_command
simple_command-sign w vars t sign = rw (check_builtin-sign t sign, simple_command, sign) refl

execute_command-sign :
    (w : World) (vars : Vars) (t : Str)
    → contains t b'=' ≡ true
    → execute_command w vars (t ∷ []) ≡ assign w vars t
unfolding execute_command execute_counted count_pipes
execute_command-sign w vars t sign = rw (IsWord-sign t sign) (simple_command-sign w vars t sign)

-- Without a `$`, a text stands for itself.
meaning-plain : (vars : Vars) (s : Str) → contains s b'$' ≡ false → meaning vars s ≡ s
unfolding contains
meaning-plain vars [] h = refl
meaning-plain vars (c ∷ cs) h = ground (arith, meaning-plain vars cs)

stored_value-meaning :
    (vars : Vars) (s : Str)
    → IsShort (head_piece s)
    → All IsShort (names s)
    → length (meaning vars s) ≤ max_str_len
    → stored_value vars s ≡ some (meaning vars s)
unfolding stored_value
stored_value-meaning vars s short shorts fits = elim (Bool-cases (contains s b'$')) [
  | inl sign ↦ rw sign (expand_variables-meaning vars s short shorts fits)
  | inr plain ↦ rw plain (ap some (sym (meaning-plain vars s plain)))
]

-- The line `name=value` with a valid name stores what the value stands for under the name, as
-- one call of `set_variable` does; nothing runs, nothing is printed, and the result is 0. The
-- text of the value must fit in MAX_STR_LEN bytes, and its pieces between the `$` signs in the
-- name buffer.
pub execute_command_assigns :
    (w : World) (vars : Vars) (k v : Str)
    → contains k b'=' ≡ false
    → IsName k
    → IsShort (head_piece v)
    → All IsShort (names v)
    → length (meaning vars v) ≤ max_str_len
    → execute_command w vars ((k ++ b'=' ∷ v) ∷ [])
      ≡ some (record {
        status = success;
        messages = [];
        calls = [];
        vars = (set_variable w.mem (some k) (some (meaning vars v)) vars).1;
      })
unfolding assign store
execute_command_assigns w vars k v no_sign name short shorts fits =
    let (checked, is_checked, kept, decides) = is_valid_varname_lem k v no_sign in
    let (key, value) = find_key_value k v no_sign in
    execute_command-sign w vars (k ++ b'=' ∷ v) (contains-sign k v)
    ∙ rw (is_checked, decides.1 name, value, stored_value-meaning vars v short shorts fits, key)
        refl

-- With an invalid name the line is refused with a message that shows the name; nothing runs and the
-- variables stay.
pub execute_command_refuses :
    (w : World) (vars : Vars) (k v : Str)
    → contains k b'=' ≡ false
    → (IsName k → ⊥)
    → execute_command w vars ((k ++ b'=' ∷ v) ∷ [])
      ≡ some (record {
        status = failure;
        messages = Message.invalid_name k ∷ [];
        calls = [];
        vars = vars;
      })
unfolding assign store
execute_command_refuses w vars k v no_sign no_name =
    let (checked, is_checked, kept, decides) = is_valid_varname_lem k v no_sign in
    let (key, value) = find_key_value k v no_sign in
    execute_command-sign w vars (k ++ b'=' ∷ v) (contains-sign k v)
    ∙ elim (Bool-cases checked.valid) [
      | inl valid ↦ absurd (no_name (decides.0 valid))
      | inr invalid ↦ rw (is_checked, invalid, key) refl
    ]
