-- ===== src/Processes.antt =====
-- The processes and the pipes of a pipeline: `execute_bin` and the second half of `execute_pipeline`
-- of src/commands.c. The kernel and what the programs do are the argument `Kernel`.
pub mod Wiring
pub mod Result
mod Tests
use c_based_linux_shell.Prelude.{
  ℕ, zero, suc, ◌+◌, ◌-◌, Bool, true, false, Option, none, some, List, [], ◌∷◌, ◌++◌, ◌==◌, ltb,
  if◌then◌else◌, length, take, get_elem?, ◌>>=◌, Status, success, failure,
}
use c_based_linux_shell.CString.{Str, codes}
use c_based_linux_shell.Variables.{Allocs}
use c_based_linux_shell.Command.{
  Builtin, check_builtin, Message, builtin_failed, unknown_command, World,
}

-- What a file descriptor of a process refers to; `read_end i` and `write_end i` belong to the pipe
-- `pipes[i]`, `inherited` is a file that was open before.
pub data Desc : Type 0 where
  closed : Desc
  inherited read_end write_end : ℕ → Desc

-- The descriptors of a process.
abbrev pub Table : Type 0
Table = ℕ → Desc

abbrev pub set_fd : ℕ → Desc → Table → Table
set_fd fd d t n = if n == fd then d else t n

-- `dup2`, which leaves all as it is if `old` is not open.
abbrev pub dup2_desc : ℕ → Desc → Table → Table
dup2_desc new closed t = t
dup2_desc new (inherited n) t = set_fd new (inherited n) t
dup2_desc new (read_end i) t = set_fd new (read_end i) t
dup2_desc new (write_end i) t = set_fd new (write_end i) t

abbrev pub dup2 : ℕ → ℕ → Table → Table
dup2 old new t = dup2_desc new (t old) t

-- The ends of `pipes`, and the loop that closes them.
abbrev pub Pipes : Type 0
Pipes = List (ℕ × ℕ)

unfoldable pub close_all : Pipes → Table → Table
close_all [] t = t
close_all ((r, w) ∷ pipes) t = close_all pipes (set_fd w closed (set_fd r closed t))

-- How a process ends, as `waitpid` tells.
pub data End : Type 0 where
  exited signalled : ℕ → End

abbrev pub is_success : End → Bool
is_success (exited n) = n == 0
is_success (signalled n) = false

-- What the kernel answers: the ends of the pipe with a number or an error, whether the fork with a
-- number succeeds, the end of a program at a path unless `execv` fails, and whether a builtin
-- returns something other than -1.
pub record Kernel : Type 0 where
  pub pipe_fds : ℕ → Option (ℕ × ℕ)
  pub fork_ok : ℕ → Bool
  pub exec : Str → List Str → Option End
  pub builtin_ok : Builtin → List Str → Bool

-- `snprintf(cmd_path, MAX_PATH_LEN + 1, "%s%s", …)`
abbrev pub cmd_path : Str → Str → Str
cmd_path dir name = take 128 (dir ++ name)

-- A child that runs a program: its end, and what it prints itself.
unfoldable pub exec_program : Kernel → Str → List Str → End × List Message
exec_program k name argv = elim (k.exec (cmd_path (codes "/bin/") name) argv) [
  | some end ↦ (end, [])
  | none ↦ elim (k.exec (cmd_path (codes "/usr/bin/") name) argv) [
    | some end ↦ (end, [])
    | none ↦ (exited 1, unknown_command name ∷ [])
  ]
]

-- `execute_bin`; the tokens are not empty.
unfoldable pub execute_bin : Kernel → Str → List Str → Status
execute_bin k name argv =
    if k.fork_ok 0
    then if is_success (exec_program k name argv).0 then success else failure
    else failure

-- A child of a pipeline behind its set-up: a builtin or a program.
unfoldable pub run_child : Kernel → Str → List Str → End × List Message
run_child k name argv = elim (check_builtin name) [
  | none ↦ exec_program k name argv
  | some fn ↦ if k.builtin_ok fn argv then (exited 0, []) else (exited 1, builtin_failed name ∷ [])
]

-- A process of the pipeline: its command, its descriptors when the command starts, its end and what
-- it prints.
pub record Process : Type 0 where
  pub argv : List Str
  pub fds : Table
  pub end : End
  pub printed : List Message

-- The set-up of the child `i`; `none` is an access outside `pipes`.
unfoldable pub connect_input : Pipes → ℕ → Table → Option Table
connect_input pipes zero t = some t
connect_input pipes (suc i) t = do (r, w) ← get_elem? pipes i; some (dup2 r 0 t)

unfoldable pub connect_output : Pipes → ℕ → ℕ → Table → Option Table
connect_output pipes number_of_pipes i t =
    if ltb i number_of_pipes then (do (r, w) ← get_elem? pipes i; some (dup2 w 1 t)) else some t

unfoldable pub child_table : Pipes → ℕ → ℕ → Table → Option Table
child_table pipes number_of_pipes i t = do
  t₁ ← connect_input pipes i t
  t₂ ← connect_output pipes number_of_pipes i t₁
  some (close_all pipes t₂)

-- The child of a command; `none` is a NULL name.
unfoldable pub child : Kernel → Pipes → ℕ → ℕ → Table → List Str → Option Process
child k pipes number_of_pipes i t [] = none
child k pipes number_of_pipes i t (name ∷ args) = do
  fds ← child_table pipes number_of_pipes i t
  some (record {
    argv = name ∷ args;
    fds = fds;
    end = (run_child k name (name ∷ args)).0;
    printed = (run_child k name (name ∷ args)).1;
  })

-- The loop that makes the pipes, from the number `i` on.
pub data Opened : Type 0 where
  made : Pipes → Table → Opened
  not_made : Table → Opened

unfoldable pub make_pipes : Kernel → ℕ → ℕ → Pipes → Table → Opened
make_pipes k zero i pipes t = made pipes t
make_pipes k (suc left) i pipes t = elim (k.pipe_fds i) [
  | none ↦ not_made (close_all pipes t)
  | some (r, w) ↦
      make_pipes k left (i + 1) (pipes ++ (r, w) ∷ [])
        (set_fd w (write_end i) (set_fd r (read_end i) t))
]

-- The loop that forks, from the child `i` on: the children made, and whether these are all.
unfoldable pub fork_all :
    Kernel → Pipes → ℕ → ℕ → Table → List (List Str) → Option (Bool × List Process)
fork_all k pipes number_of_pipes i t [] = some (true, [])
fork_all k pipes number_of_pipes i t (row ∷ rows) =
    let others = fork_all k pipes number_of_pipes (i + 1) t rows in
    if k.fork_ok i
    then (do
      process ← child k pipes number_of_pipes i t row
      (every, processes) ← others
      some (every, process ∷ processes))
    else some (false, [])

-- The loop that waits.
unfoldable pub wait_all : List Process → Bool
wait_all [] = true
wait_all (p ∷ ps) = let rest = wait_all ps in if is_success p.end then rest else false

-- What is left of a pipeline in the shell: its descriptors, the children, and whether it waited for
-- them.
pub record Outcome : Type 0 where
  pub status : Status
  pub table : Table
  pub processes : List Process
  pub waited : Bool

-- `execute_pipeline` behind the pipes.
unfoldable pub run_made : Kernel → ℕ → List (List Str) → Pipes → Table → Option Outcome
run_made k number_of_pipes commands pipes t = do
  (every, processes) ← fork_all k pipes number_of_pipes 0 t commands
  some (
      if every
      then record {
        status = if wait_all processes then success else failure;
        table = close_all pipes t;
        processes = processes;
        waited = true;
      }
      else record { status = failure; table = t; processes = processes; waited = false })

-- `execute_pipeline` behind its syntax: there are `number_of_pipes + 1` commands.
unfoldable pub run_processes : Kernel → Table → ℕ → List (List Str) → Option Outcome
run_processes k t number_of_pipes commands = elim (make_pipes k number_of_pipes 0 [] t) [
  | not_made t' ↦ some (record { status = failure; table = t'; processes = []; waited = true })
  | made pipes t' ↦ run_made k number_of_pipes commands pipes t'
]

-- The `World` of `execute_command`, with the processes in it.
abbrev pub is_ok : Status → Bool
is_ok success = true
is_ok failure = false

abbrev pub outcome_ok : Option Outcome → Bool
outcome_ok none = false
outcome_ok (some o) = is_ok o.status

abbrev pub program_ok : Kernel → List Str → Bool
program_ok k [] = false
program_ok k (name ∷ args) = is_ok (execute_bin k name (name ∷ args))

abbrev pub world : Kernel → Table → Allocs → World
world k t mem = record {
  builtin_ok = k.builtin_ok;
  pipeline_ok = λ commands. outcome_ok (run_processes k t (length commands - 1) commands);
  program_ok = program_ok k;
  mem = mem;
}
