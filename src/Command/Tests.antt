-- ===== src/Command/Tests.antt =====
-- Runs of `execute_command`, and the theorems about it at concrete lines.
use c_based_linux_shell.Prelude.{
  ◌≤◌, length, ◌≡◌, ◌⊎◌, refl, true, false, some, List, [], ◌∷◌, arith, if◌then◌else◌, success,
  failure,
}
use c_based_linux_shell.CString.{Str, codes, max_str_len, strcmp_eq, strncmp_eq, contains, is_alpha}
use c_based_linux_shell.Variables.{Vars, set_variable, find_val_with_key}
use c_based_linux_shell.Variables.Assignment.{IsName, IsRest}
use c_based_linux_shell.Variables.Lookup.{all_succeed}
use c_based_linux_shell.Expand.Meaning.{meaning}
use c_based_linux_shell.Command.{
  World, Done, Call, Message, check_builtin, count_pipes, execute_command, execute_counted,
  simple_command, split_loop, run_pipeline, run_external, pipe,
}
use c_based_linux_shell.Command.Pipeline.{joined, execute_command_pipeline}
use c_based_linux_shell.Command.Syntax.{execute_command-IsSplit}
use c_based_linux_shell.Command.Assign.{execute_command_assigns}

-- Builtins and pipelines succeed, programs do not.
abbrev world : World
world = record {
  builtin_ok = λ _ _. true;
  pipeline_ok = λ _. true;
  program_ok = λ _. false;
  mem = all_succeed;
}

-- A program that fails is reported as an unknown command, and the result is 0.
failed_program :
    execute_command world [] (codes "false" ∷ [])
    ≡ some (record {
      status = success;
      messages = Message.unknown_command (codes "false") ∷ [];
      calls = Call.external (codes "false" ∷ []) ∷ [];
      vars = [];
    })
unfolding execute_command execute_counted count_pipes simple_command check_builtin strcmp_eq
    strncmp_eq contains run_external
failed_program = refl

double_pipe :
    execute_command world [] (codes "ls" ∷ pipe ∷ pipe ∷ codes "wc" ∷ [])
    ≡ some (record {
      status = failure;
      messages = Message.pipe_error ∷ Message.pipe_error ∷ Message.pipeline_failed ∷ [];
      calls = [];
      vars = [];
    })
unfolding execute_command execute_counted count_pipes split_loop strcmp_eq run_pipeline
double_pipe = refl

abbrev ls_cmd : List Str
ls_cmd = codes "ls" ∷ codes "-f" ∷ []

abbrev wc_cmd : List Str
wc_cmd = codes "wc" ∷ []

execute_command_pipeline_example :
    (r : Done) × (execute_command world [] (joined (ls_cmd ∷ wc_cmd ∷ [])) ≡ some r)
    × (r.calls ≡ Call.pipeline (ls_cmd ∷ wc_cmd ∷ []) ∷ [])
    × (r.vars ≡ [])
    × (r.status ≡ (if world.pipeline_ok (ls_cmd ∷ wc_cmd ∷ []) then success else failure))
unfolding strcmp_eq
execute_command_pipeline_example =
    execute_command_pipeline world [] ls_cmd wc_cmd []
      ((omega arith, omega arith, (refl, (refl, tt))), ((omega arith, omega arith, (refl, tt)), tt))

execute_command-IsSplit_example :
    (r : Done) × (execute_command world [] (codes "ls" ∷ pipe ∷ codes "wc" ∷ []) ≡ some r)
    × (r.vars ≡ [])
    × (((r.calls ≡ []) × (r.status ≡ failure))
        ⊎ ((commands : List (List Str)) × (r.calls ≡ Call.pipeline commands ∷ [])
            × (joined commands ≡ codes "ls" ∷ pipe ∷ codes "wc" ∷ [])))
unfolding count_pipes strcmp_eq
execute_command-IsSplit_example =
    execute_command-IsSplit world [] (codes "ls") (pipe ∷ codes "wc" ∷ []) (omega arith)
      (λ e. omega arith)

-- x=2
abbrev one_var : Vars
one_var = record { key = codes "x"; value = codes "2" } ∷ []

a_IsName : IsName (codes "a")
unfolding is_alpha
a_IsName = IsName.letter refl IsRest.nil

fits : length (meaning one_var (codes "1$x")) ≤ max_str_len
unfolding find_val_with_key strncmp_eq
fits = omega arith

execute_command_assigns_example :
    execute_command world one_var (codes "a=1$x" ∷ [])
    ≡ some (record {
      status = success;
      messages = [];
      calls = [];
      vars =
          (set_variable world.mem
            (some (codes "a"))
            (some (meaning one_var (codes "1$x")))
            one_var).1;
    })
unfolding contains
execute_command_assigns_example =
    execute_command_assigns world one_var (codes "a") (codes "1$x") refl a_IsName (omega arith)
      (omega arith, tt) fits

digit_is_no_name : IsName (codes "1") → ⊥
unfolding is_alpha
digit_is_no_name (IsName.letter h r) = cc
digit_is_no_name (IsName.underscore h r) = absurd (omega arith)
