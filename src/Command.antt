-- ===== src/Command.antt =====
-- `execute_command` and the first half of `execute_pipeline` of src/commands.c, and `check_builtin`
-- of src/builtins.c. What the processes and the builtins themselves do is the argument `World`.
pub mod Builtins
pub mod Pipeline
pub mod Syntax
pub mod Assign
pub mod Names
mod Tests
use c_based_linux_shell.Prelude.{
  ℕ, zero, suc, not, ◌+◌, ◌≡◌, Bool, true, false, ◌&&◌, ◌||◌, Option, none, some, List, [], ◌∷◌,
  ◌++◌, ◌==◌, leb, ltb, if◌then◌else◌, length, ◌>>=◌, Status, success, failure,
}
use c_based_linux_shell.CString.{Str, codes, max_str_len, strcmp_eq, strncmp_eq, contains}
use c_based_linux_shell.Variables.{
  Vars, Allocs, Checked, KeyPtr, null, alias, owned, find_key, find_value, is_valid_varname,
  set_variable,
}
use c_based_linux_shell.Expand.{expand_variables}

-- The functions of `BUILTINS_FN`, by the names in `BUILTINS`.
pub data Builtin : Type 0 where
  echo ls cd cat wc ps kill start_server close_server send start_client : Builtin

abbrev pub builtins : List (Str × Builtin)
builtins =
    (codes "echo", echo)
    ∷ (codes "ls", ls)
    ∷ (codes "cd", cd)
    ∷ (codes "cat", cat)
    ∷ (codes "wc", wc)
    ∷ (codes "ps", ps)
    ∷ (codes "kill", kill)
    ∷ (codes "start-server", start_server)
    ∷ (codes "close-server", close_server)
    ∷ (codes "send", send)
    ∷ (codes "start-client", start_client)
    ∷ []

builtin_from : List (Str × Builtin) → Str → Option Builtin
builtin_from [] cmd = none
builtin_from ((name, fn) ∷ others) cmd =
    let rest = builtin_from others cmd in if strncmp_eq name cmd max_str_len then some fn else rest

-- `none` is the NULL behind the functions.
unfoldable pub check_builtin : Str → Option Builtin
unfolding builtin_from
check_builtin cmd = builtin_from builtins cmd

abbrev pub pipe : Str
pipe = codes "|"

-- The loop of `execute_command` that counts the pipes; the flag is `previous_pipe`. A pipe behind a
-- pipe is reported and not counted.
pub record PipeCount : Type 0 where
  pub number_of_pipes : ℕ
  pub reported : ℕ

unfoldable pub count_pipes : Bool → List Str → PipeCount
count_pipes previous [] = record { number_of_pipes = 0; reported = 0 }
count_pipes previous (t ∷ ts) =
    let rest = count_pipes (strcmp_eq t pipe) ts in
    if strcmp_eq t pipe
    then if previous
      then record rest { reported = rest.reported + 1 }
      else record rest { number_of_pipes = rest.number_of_pipes + 1 }
    else rest

-- What `execute_pipeline` makes of its tokens before it forks: the rows of `commands`, an error, or
-- a write outside `commands[number_of_pipes + 1][128]`.
pub data Split : Type 0 where
  rows : List (List Str) → Split
  syntax_error : Split
  out_of_bounds : Split

-- `commands[command_index][second_index] = …`, with the rows before and the current one.
abbrev pub in_bounds : ℕ → List (List Str) → List Str → Bool
in_bounds number_of_pipes before row = leb (length before) number_of_pipes && ltb (length row) 128

unfoldable pub split_loop : ℕ → List (List Str) → List Str → List Str → Split
split_loop pipes before row [] =
    if in_bounds pipes before row then rows (before ++ row ∷ []) else out_of_bounds
split_loop pipes before row (t ∷ ts) =
    let on_pipe = split_loop pipes (before ++ row ∷ []) [] ts in
    let on_word = split_loop pipes before (row ++ t ∷ []) ts in
    if strcmp_eq t pipe
    then if not (length before == 0) && (length row == 0)
      then syntax_error
      else if in_bounds pipes before row
      then on_pipe
      else out_of_bounds
    else if in_bounds pipes before row
    then on_word
    else out_of_bounds

-- What is printed, and what is run.
pub data Message : Type 0 where
  pipe_error pipeline_failed : Message
  builtin_failed invalid_name unknown_command : Str → Message

pub data Call : Type 0 where
  builtin : Builtin → List Str → Call
  pipeline : List (List Str) → Call
  external : List Str → Call

pub record Done : Type 0 where
  pub status : Status
  pub messages : List Message
  pub calls : List Call
  pub vars : Vars

-- Whether a builtin returns something other than -1, whether all processes of a pipeline end with
-- status 0, and whether a program does.
pub record World : Type 0 where
  pub builtin_ok : Builtin → List Str → Bool
  pub pipeline_ok : List (List Str) → Bool
  pub program_ok : List Str → Bool
  pub mem : Allocs

-- `execute_command` behind a pipeline that ran.
unfoldable pub pipeline_done : World → Vars → List Message → List (List Str) → Done
pipeline_done w vars printed commands = record {
  status = if w.pipeline_ok commands then success else failure;
  messages = if w.pipeline_ok commands then printed else printed ++ pipeline_failed ∷ [];
  calls = pipeline commands ∷ [];
  vars = vars;
}

-- `execute_pipeline`, and what `execute_command` makes of its result.
unfoldable pub run_pipeline : World → Vars → List Message → Split → Option Done
run_pipeline w vars printed out_of_bounds = none
run_pipeline w vars printed syntax_error = some (record {
  status = failure;
  messages = printed ++ pipe_error ∷ pipeline_failed ∷ [];
  calls = [];
  vars = vars;
})
run_pipeline w vars printed (rows commands) = some (pipeline_done w vars printed commands)

-- The name of a key pointer in a message.
abbrev pub key_text : KeyPtr → Str
key_text null = []
key_text (alias s) = s
key_text (owned s) = s

abbrev pub key_option : KeyPtr → Option Str
key_option null = none
key_option (alias s) = some s
key_option (owned s) = some s

-- The value that is stored: expanded if it holds a `$`.
unfoldable pub stored_value : Vars → Str → Option Str
stored_value vars value =
    if contains value b'$' then expand_variables true vars (some value) else some value

-- What is done with a valid name. The result of `set_variable` is not looked at.
unfoldable pub store : World → Vars → Str → Option Done
store w vars token = do
  value ← find_value true (some token)
  stored ← stored_value vars value
  some (record {
    status = success;
    messages = [];
    calls = [];
    vars = (set_variable w.mem (key_option (find_key true (some token))) (some stored) vars).1;
  })

-- The branch for `name=value`.
unfoldable pub assign : World → Vars → Str → Option Done
unfolding store
assign w vars token = do
  checked ← is_valid_varname true (some token)
  (if checked.valid
      then store w vars token
      else some (record {
        status = failure;
        messages = invalid_name (key_text (find_key true (some token))) ∷ [];
        calls = [];
        vars = vars;
      }))

-- The branch for a builtin.
unfoldable pub run_builtin : World → Vars → Str → List Str → Builtin → Done
run_builtin w vars name tokens fn =
    if w.builtin_ok fn tokens
    then record { status = success; messages = []; calls = builtin fn tokens ∷ []; vars = vars }
    else record {
      status = failure;
      messages = builtin_failed name ∷ [];
      calls = builtin fn tokens ∷ [];
      vars = vars;
    }

-- The branch for a program: 0 is returned whatever its end.
unfoldable pub run_external : World → Vars → Str → List Str → Done
run_external w vars name tokens = record {
  status = success;
  messages = if w.program_ok tokens then [] else unknown_command name ∷ [];
  calls = external tokens ∷ [];
  vars = vars;
}

-- The last token.
abbrev pub last_or : Str → List Str → Str
last_or t [] = t
last_or t (u ∷ us) = last_or u us

abbrev pub reports : ℕ → List Message
reports zero = []
reports (suc n) = pipe_error ∷ reports n

unfoldable pub simple_command : World → Vars → Str → List Str → Option Done
unfolding assign run_builtin run_external
simple_command w vars t ts = elim (check_builtin t) [
  | some fn ↦ some (run_builtin w vars t (t ∷ ts) fn)
  | none ↦
      if contains t b'=' && (length ts == 0)
      then assign w vars t
      else some (run_external w vars t (t ∷ ts))
]

-- What follows the count.
unfoldable pub execute_counted : World → Vars → PipeCount → Str → List Str → Option Done
execute_counted w vars counted t ts =
    if not (counted.number_of_pipes == 0)
    then if strcmp_eq t pipe || strcmp_eq (last_or t ts) pipe
      then some (record {
        status = failure;
        messages = reports counted.reported ++ pipe_error ∷ [];
        calls = [];
        vars = vars;
      })
      else run_pipeline w vars (reports counted.reported)
          (split_loop counted.number_of_pipes [] [] (t ∷ ts))
    else simple_command w vars t ts

unfoldable pub execute_command : World → Vars → List Str → Option Done
execute_command w vars [] =
    some (record { status = success; messages = []; calls = []; vars = vars })
execute_command w vars (t ∷ ts) = execute_counted w vars (count_pipes false (t ∷ ts)) t ts
