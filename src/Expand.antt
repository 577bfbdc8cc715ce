-- ===== src/Expand.antt =====
-- `expand_variables` of src/variables.c: its loop over the characters, with its two buffers.
-- The result is `none` where the code writes or reads outside a buffer.
pub mod Meaning
pub mod Overflow
mod Tests
use c_based_linux_shell.Prelude.{
  ℕ, ◌+◌, Bool, true, false, not, ◌&&◌, Option, none, some, [], ◌∷◌, ◌++◌, ◌==◌, ltb, if◌then◌else◌,
  length, ◌>>=◌,
}
use c_based_linux_shell.CString.{Str, max_str_len, strncat, size_sub}
use c_based_linux_shell.Variables.{Vars, find_val_with_key}

-- The local variables of the loop; `array` and `var_name` without their trailing zeros.
pub record Expansion : Type 0 where
  pub array : Str
  pub remaining : ℕ
  pub taking_var : Bool
  pub var_name : Str

-- `strncat(array, text, remaining); remaining -= strlen(text);`, with MAX_STR_LEN + 1 bytes.
unfoldable pub append_text : Str → Expansion → Option Expansion
append_text text e = do
  array ← strncat (max_str_len + 1) e.array text e.remaining
  some (record e { array = array; remaining = size_sub e.remaining (length text) })

-- `var_name[strlen(var_name)] = c` twice: the second `strlen` needs a terminator within the
-- MAX_STR_LEN bytes.
unfoldable pub push_char : ℕ → Expansion → Option Expansion
push_char c e =
    if ltb (length e.var_name + 1) max_str_len
    then some (record e { var_name = e.var_name ++ c ∷ [] })
    else none

-- The three cases of `input[i] == '$'`.
unfoldable pub dollar : Vars → Expansion → Option Expansion
dollar vars e =
    let value = find_val_with_key e.var_name vars in
    if e.taking_var
    then if length value == 0
      then some (record e { var_name = [] })
      else (do e' ← append_text value e; some (record e' { taking_var = true; var_name = [] }))
    else if length e.var_name == 0
    then some (record e { taking_var = true })
    else (do e' ← append_text e.var_name e; some (record e' { taking_var = true; var_name = [] }))

-- What is left behind the loop.
unfoldable pub flush : Vars → Expansion → Option Expansion
flush vars e =
    if not (length e.var_name == 0)
    then (do
      e' ← append_text (if e.taking_var then find_val_with_key e.var_name vars else e.var_name) e
      some (record e' { taking_var = false; var_name = [] }))
    else some e

-- "$ single char"
unfoldable pub lone_dollar : Expansion → Option Expansion
lone_dollar e =
    if (length e.var_name == 0) && e.taking_var then append_text (b'$' ∷ []) e else some e

unfoldable pub expand_loop : Vars → Expansion → Str → Option Str
expand_loop vars e [] = do e' ← flush vars e; e'' ← lone_dollar e'; some e''.array
expand_loop vars e (c ∷ cs) =
    if ltb e.remaining 1
    then some e.array
    else do e' ← if c == b'$' then dollar vars e else push_char c e; expand_loop vars e' cs

abbrev pub started : Expansion
started = record { array = []; remaining = max_str_len; taking_var = false; var_name = [] }

-- A failed `malloc` is reported, and then the NULL pointer is written through.
unfoldable pub expand_variables : Bool → Vars → Option Str → Option Str
unfolding expand_loop append_text push_char dollar flush lone_dollar strncat size_sub
expand_variables malloc_ok vars none = some []
expand_variables malloc_ok vars (some input) =
    if malloc_ok then expand_loop vars started input else none
