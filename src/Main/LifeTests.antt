-- ===== src/Main/LifeTests.antt =====
-- The theorems about the process of the shell where a server is started and the shell is left.
use c_based_linux_shell.Prelude.{◌≡◌, refl, true, false, some, none, [], ◌∷◌, arith}
use c_based_linux_shell.Prelude.Int.{pos}
use c_based_linux_shell.CString.{
  Str, codes, strcmp_eq, strncmp_eq, contains, strchr, strtok_all, strtok, token_front, token_rest,
}
use c_based_linux_shell.CString.Number.{atoi}
use c_based_linux_shell.Display.{display_message}
use c_based_linux_shell.Input.{read_tokens, pad_loop, pad_pipes, put_char, tokenize_input}
use c_based_linux_shell.Variables.Lookup.{all_succeed}
use c_based_linux_shell.Jobs.{
  Slot, SlotState, display_done_process, reap_all, report_killed, all_terminated,
  initialize_available_indices,
}
use c_based_linux_shell.Command.{
  execute_command, execute_counted, count_pipes, simple_command, check_builtin,
}
use c_based_linux_shell.Hosting.{
  no_server, closed_text, without, cleanup_server, cleanup_pid, kill_server, bn_start_server,
  start_at, start_server,
}
use c_based_linux_shell.Hosting.Lifecycle.{runs, host_of}
use c_based_linux_shell.Main.{
  expand_tokens, run_foreground, after_call, after_calls, run_tokens, main_round,
}
use c_based_linux_shell.Main.Process.{
  Process, host_after_call, host_after_calls, Line, typed, over, after_line, process_step,
  begin_main, first_process,
}
use c_based_linux_shell.Main.Lifetime.{
  ProcessReached, set_up, after_step, IsProcess, ProcessReached-IsProcess,
}
use c_based_linux_shell.Main.Ending.{process_step_ends}

abbrev free_slot : Slot
free_slot = record {
  state = SlotState.empty;
  process = record { pid = pos 0; job_num = 0; command = []; is_running = false };
}

abbrev line : Str → Line
line input = record {
  world = record {
    builtin_ok = λ _ _. true;
    pipeline_ok = λ _. true;
    program_ok = λ _. true;
    mem = all_succeed;
  };
  kill_ok = λ _ _. true;
  fork = none;
  ended = [];
  read_ok = true;
  input = input;
  host_answers = record { fork = some 77; kill_ok = true; client_exits = false };
}

-- Behind `start-server 4000`.
abbrev serving : Process
serving = record (first_process (free_slot ∷ [])) { host = host_of 77 (pos 4000) [] }

serving-ProcessReached : ProcessReached [] serving
unfolding read_tokens pad_loop pad_pipes put_char tokenize_input expand_tokens run_foreground
    after_call after_calls run_tokens main_round display_done_process reap_all report_killed
    all_terminated initialize_available_indices execute_command execute_counted count_pipes
    simple_command check_builtin strcmp_eq strncmp_eq strchr contains strtok_all strtok token_front
    token_rest atoi host_after_call host_after_calls after_line process_step begin_main
    bn_start_server start_at start_server
serving-ProcessReached =
    after_step (typed (line (codes "start-server 4000")))
      (set_up true true true (free_slot ∷ []) refl) refl

ProcessReached-IsProcess_example : IsProcess [] serving
ProcessReached-IsProcess_example = ProcessReached-IsProcess serving-ProcessReached

leaves :
    process_step (typed (line (codes "exit"))) serving
    ≡ some (over (no_server []) (display_message (closed_text (pos 4000)) ∷ []))
unfolding read_tokens tokenize_input expand_tokens run_tokens main_round display_done_process
    reap_all report_killed all_terminated strcmp_eq strchr contains strtok_all strtok token_front
    token_rest after_line process_step cleanup_server cleanup_pid kill_server
leaves = refl

process_step_ends_example :
    (no_server [] ≡ no_server (without 77 serving.host.alive))
    × (runs 77 (no_server []).alive ≡ false)
    × (display_message (closed_text (pos 4000)) ∷ []
        ≡ display_message (closed_text serving.host.server_port) ∷ [])
process_step_ends_example =
    process_step_ends (typed (line (codes "exit"))) serving (no_server [])
      (display_message (closed_text (pos 4000)) ∷ []) 77 leaves refl refl refl refl (omega arith)
