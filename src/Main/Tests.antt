-- ===== src/Main/Tests.antt =====
-- The theorems about a round of `main` at concrete lines.
use c_based_linux_shell.Input.{read_tokens, pad_loop, pad_pipes, put_char, tokenize_input}
use c_based_linux_shell.Prelude.{
  ◌≡◌, refl, true, false, some, none, [], ◌∷◌, ◌++◌, arith, replicate, set, take,
}
use c_based_linux_shell.Prelude.Int.{pos}
use c_based_linux_shell.CString.{
  codes, strcmp_eq, strncmp_eq, contains, strchr, is_alpha, strtok_all, strtok, token_front,
  token_rest,
}
use c_based_linux_shell.CString.Tokens.{join}
use c_based_linux_shell.Variables.{
  Session, find_val_with_key, is_valid_varname, find_key, find_value, after_sign, set_variable,
  overwrite,
}
use c_based_linux_shell.Variables.Lookup.{all_succeed}
use c_based_linux_shell.Expand.{expand_variables}
use c_based_linux_shell.Jobs.{
  Jobs, Slot, SlotState, find_new_spot, display_done_process, reap_all, report_killed,
  all_terminated, initialize_available_indices,
}
use c_based_linux_shell.Jobs.Table.{Packed}
use c_based_linux_shell.Command.{
  World, execute_command, execute_counted, count_pipes, simple_command, check_builtin, assign,
  store, stored_value,
}
use c_based_linux_shell.Main.{
  Shell, table_size, run_tokens, started, expand_tokens, run_foreground, after_calls, main_round,
}
use c_based_linux_shell.Main.Expanding.{Expanded, nil, plain, sign}
use c_based_linux_shell.Main.Background.{run_tokens_background}
use c_based_linux_shell.Main.{main_round}
use c_based_linux_shell.Main.Reach.{start_shell, ShellReached, begun, after_round}

-- x=2, with no token expanded yet, and with 256.
abbrev session : Session
session = record {
  head = record { key = codes "x"; value = codes "2" } ∷ [];
  expanded_tokens = replicate table_size none;
  expanded_token_count = 0;
}

abbrev worn : Session
worn = record session { expanded_token_count = table_size }

x_is : expand_variables true session.head (some (codes "$x")) ≡ some (codes "2")
unfolding expand_variables find_val_with_key strncmp_eq
x_is = refl

tokens : Expanded session.head (codes "wc" ∷ codes "$x" ∷ []) (codes "wc" ∷ codes "2" ∷ [])
unfolding contains
tokens = plain refl (sign refl x_is nil)

abbrev free_slot : Slot
free_slot = record {
  state = SlotState.empty;
  process = record { pid = pos 0; job_num = 0; command = []; is_running = false };
}

abbrev shell : Shell
shell = record { session = session; jobs = free_slot ∷ [] }

abbrev world : World
world = record {
  builtin_ok = λ _ _. true;
  pipeline_ok = λ _. true;
  program_ok = λ _. true;
  mem = all_succeed;
}

run_tokens_background_example :
    (jobs : Jobs) × (run_tokens world
        (λ _ _. true)
        (some (pos 7))
        true
        shell
        (codes "sleep" ∷ (codes "9" ∷ []) ++ codes "&" ∷ [])
      ≡ some (started 0 (pos 7) (record shell { jobs = jobs })))
    × (jobs
        ≡ set shell.jobs 0 (record {
          state = SlotState.running;
          process = record {
            pid = pos 7;
            job_num = 1;
            command = take 127 (join b' ' (codes "sleep" ∷ codes "9" ∷ []));
            is_running = true;
          };
        }))
    × Packed 0 jobs
unfolding strcmp_eq find_new_spot
run_tokens_background_example =
    run_tokens_background world (λ _ _. true) (pos 7) true shell (codes "sleep") (codes "9" ∷ [])
      refl (omega arith) refl (Packed.unused refl tt)

-- A round in which a variable is assigned.
abbrev assigned : Shell
assigned = record (start_shell (free_slot ∷ [])) {
  session = record (start_shell []).session {
    head = record { key = codes "y"; value = codes "5" } ∷ [];
  };
}

assigned-ShellReached : ShellReached assigned
unfolding read_tokens pad_loop pad_pipes put_char tokenize_input expand_tokens run_foreground
    after_calls run_tokens main_round display_done_process reap_all report_killed all_terminated
    initialize_available_indices execute_command execute_counted count_pipes simple_command
    check_builtin assign store stored_value is_valid_varname find_key find_value after_sign
    set_variable overwrite strcmp_eq strncmp_eq strchr is_alpha contains strtok_all strtok
    token_front token_rest
assigned-ShellReached =
    after_round world (λ _ _. true) none [] true (codes "y=5") _ (begun (free_slot ∷ [])) refl refl
