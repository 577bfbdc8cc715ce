-- ===== src/Processes/Tests.antt =====
-- The theorems about the processes at `cat | wc`.
use c_based_linux_shell.Prelude.{
  ◌+◌, ◌*◌, ◌≡◌, refl, true, false, none, some, List, [], ◌∷◌, arith, ltb, if◌then◌else◌, length,
  all, success, failure,
}
use c_based_linux_shell.CString.{Str, codes, strcmp_eq}
use c_based_linux_shell.Variables.Lookup.{all_succeed}
use c_based_linux_shell.Command.{Done, execute_command}
use c_based_linux_shell.Command.Pipeline.{joined}
use c_based_linux_shell.Processes.{
  closed, inherited, Table, Pipes, exited, Kernel, run_processes, world,
}
use c_based_linux_shell.Main.Child.{background_child, status_text, background_child_processes}
use c_based_linux_shell.Processes.Wiring.{IsFresh, opened}
use c_based_linux_shell.Processes.Result.{
  processes_at, ends_well, run_processes_lem, run_processes_no_pipe, run_processes_fork_failed,
  execute_command_processes,
}

-- The standard streams are open.
abbrev streams : Table
streams fd = if ltb fd 3 then inherited fd else closed

-- All forks succeed, and every program ends with 0.
abbrev kernel : Kernel
kernel = record {
  pipe_fds = λ i. some (3 + 2 * i, 4 + 2 * i);
  fork_ok = λ _. true;
  exec = λ path argv. some (exited 0);
  builtin_ok = λ fn argv. true;
}

abbrev no_pipes : Kernel
no_pipes = record kernel { pipe_fds = λ i. none }

-- Just the first fork succeeds.
abbrev one_fork : Kernel
one_fork = record kernel { fork_ok = λ j. ltb j 1 }

abbrev one_pipe : Pipes
one_pipe = (3, 4) ∷ []

abbrev cat_row : List Str
cat_row = codes "cat" ∷ codes "notes" ∷ []

abbrev wc_row : List Str
wc_row = codes "sort" ∷ []

one_pipe-IsFresh : IsFresh streams one_pipe
one_pipe-IsFresh = record {
  distinct = (refl, refl, refl, tt);
  above = λ fd h. ground arith;
  unused = λ fd h. ground arith;
}

run_processes_example :
    run_processes kernel streams (length one_pipe) (cat_row ∷ wc_row ∷ [])
    ≡ some (record {
      status = if all (ends_well kernel) (cat_row ∷ wc_row ∷ []) then success else failure;
      table = streams;
      processes = processes_at kernel streams (length one_pipe) 0 (cat_row ∷ wc_row ∷ []);
      waited = true;
    })
run_processes_example =
    run_processes_lem kernel one_pipe streams (cat_row ∷ wc_row ∷ []) (refl, tt) one_pipe-IsFresh
      refl (omega arith, (omega arith, tt)) (λ j low. refl)

run_processes_no_pipe_example :
    run_processes no_pipes streams 1 (cat_row ∷ wc_row ∷ [])
    ≡ some (record { status = failure; table = streams; processes = []; waited = true })
run_processes_no_pipe_example =
    run_processes_no_pipe no_pipes 1 [] streams (cat_row ∷ wc_row ∷ []) tt
      (record { distinct = tt; above = λ fd h. ground arith; unused = λ fd h. ground arith })
      (omega arith) refl

run_processes_fork_failed_example :
    run_processes one_fork streams (length one_pipe) (cat_row ∷ wc_row ∷ [])
    ≡ some (record {
      status = failure;
      table = opened 0 one_pipe streams;
      processes = processes_at one_fork streams (length one_pipe) 0 (cat_row ∷ []);
      waited = false;
    })
run_processes_fork_failed_example =
    run_processes_fork_failed one_fork one_pipe streams (cat_row ∷ []) wc_row [] (refl, tt)
      one_pipe-IsFresh refl (omega arith, tt) (λ j low. ground arith) refl

execute_command_processes_example :
    (r : Done) × (execute_command
        (world kernel streams all_succeed)
        []
        (joined (cat_row ∷ wc_row ∷ []))
      ≡ some r)
    × (r.vars ≡ [])
    × (r.status ≡ (if all (ends_well kernel) (cat_row ∷ wc_row ∷ []) then success else failure))
unfolding strcmp_eq
execute_command_processes_example =
    execute_command_processes kernel one_pipe streams all_succeed [] cat_row wc_row [] (refl, tt)
      one_pipe-IsFresh refl
      ((omega arith, omega arith, (refl, (refl, tt))), ((omega arith, omega arith, (refl, tt)), tt))
      (λ j low. refl)

background_child_processes_example :
    background_child (world kernel streams all_succeed) [] (joined (cat_row ∷ wc_row ∷ []))
    ≡ some (status_text (all (ends_well kernel) (cat_row ∷ wc_row ∷ [])) (codes "cat" ∷ []))
unfolding strcmp_eq
background_child_processes_example =
    background_child_processes kernel one_pipe streams all_succeed [] (codes "cat")
      (codes "notes" ∷ []) wc_row [] (refl, tt) one_pipe-IsFresh refl
      ((omega arith, omega arith, (refl, (refl, tt))), ((omega arith, omega arith, (refl, tt)), tt))
      (λ j low. refl)
