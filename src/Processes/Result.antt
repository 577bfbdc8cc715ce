-- ===== src/Processes/Result.antt =====
-- What becomes of a pipeline: its processes, its result, and the descriptors of the shell.
use c_based_linux_shell.Prelude.{
  ℕ, zero, suc, ◌+◌, ◌≤◌, ◌<◌, ◌≡◌, refl, ap, sym, ◌∙◌, inl, inr, Bool, true, false, Option, none,
  some, List, [], ◌∷◌, ◌++◌, arith, if◌then◌else◌, length, Bool-cases, all, All, append_assoc,
  append-nil, ◌>>=◌, success, failure, length-append,
}
use mathlib.Core.Path.{fun_ext}
use c_based_linux_shell.CString.{Str}
use c_based_linux_shell.Variables.{Vars, Allocs}
use c_based_linux_shell.Command.{Message, Done, execute_command}
use c_based_linux_shell.Command.Pipeline.{IsCommand, joined, execute_command_pipeline}
use c_based_linux_shell.Processes.{
  read_end, write_end, set_fd, Table, Pipes, close_all, End, signalled, is_success, Kernel,
  run_child, Process, child, not_made, make_pipes, fork_all, wait_all, outcome_ok, is_ok, run_made,
  run_processes, world,
}
use c_based_linux_shell.Processes.Wiring.{
  is_end, IsFresh, opened, Offers, make_pipes-opened, close_all_at, opened-other, wired,
  child_table-wired,
}

-- The end of a command in its process; one without a name does not come about.
abbrev pub command_end : Kernel → List Str → End × List Message
command_end k [] = (signalled 11, [])
command_end k (name ∷ args) = run_child k name (name ∷ args)

abbrev pub process_at : Kernel → Table → ℕ → ℕ → List Str → Process
process_at k t n i row = record {
  argv = row;
  fds = wired t n i;
  end = (command_end k row).0;
  printed = (command_end k row).1;
}

abbrev pub processes_at : Kernel → Table → ℕ → ℕ → List (List Str) → List Process
processes_at k t n i [] = []
processes_at k t n i (row ∷ rows) = process_at k t n i row ∷ processes_at k t n (i + 1) rows

abbrev pub ends_well : Kernel → List Str → Bool
ends_well k row = is_success (command_end k row).0

-- The pipes leave no descriptor behind when they are closed.
close_all-opened :
    (pipes : Pipes) (t : Table) → IsFresh t pipes → close_all pipes (opened 0 pipes t) ≡ t
close_all-opened pipes t fresh = fun_ext (λ fd. elim (Bool-cases (is_end fd pipes)) [
  | inl end ↦ close_all_at pipes (opened 0 pipes t) fd ∙ rw end (sym (fresh.unused fd end))
  | inr other ↦
      close_all_at pipes (opened 0 pipes t) fd ∙ rw other (opened-other 0 pipes t fd other)
])

child-process_at :
    (k : Kernel) (pipes : Pipes) (t : Table) (i : ℕ) (row : List Str)
    → IsFresh t pipes
    → i ≤ length pipes
    → 1 ≤ length row
    → child k pipes (length pipes) i (opened 0 pipes t) row
      ≡ some (process_at k t (length pipes) i row)
unfolding child
child-process_at k pipes t i [] fresh inside named = absurd (omega arith)
child-process_at k pipes t i (name ∷ args) fresh inside named =
    rw (child_table-wired pipes t i fresh inside) refl

-- The loop that forks, over commands whose forks succeed.
abbrev put_processes : List Process → Option (Bool × List Process) → Option (Bool × List Process)
put_processes ps none = none
put_processes ps (some (every, qs)) = some (every, ps ++ qs)

put_processes-nil : (o : Option (Bool × List Process)) → put_processes [] o ≡ o
put_processes-nil none = refl
put_processes-nil (some (every, qs)) = refl

put_processes-cons :
    (p : Process) (ps : List Process) (o : Option (Bool × List Process))
    → (put_processes ps o >>= (λ x. some (x.0, p ∷ x.1))) ≡ put_processes (p ∷ ps) o
put_processes-cons p ps none = refl
put_processes-cons p ps (some (every, qs)) = refl

fork_all-append :
    (k : Kernel) (pipes : Pipes) (t : Table) (i : ℕ) (rows rest : List (List Str))
    → IsFresh t pipes
    → All (λ row. 1 ≤ length row) rows
    → i + length rows ≤ length pipes + 1
    → ((j : ℕ) → j < i + length rows → k.fork_ok j ≡ true)
    → fork_all k pipes (length pipes) i (opened 0 pipes t) (rows ++ rest)
      ≡ put_processes
          (processes_at k t (length pipes) i rows)
          (fork_all k pipes (length pipes) (i + length rows) (opened 0 pipes t) rest)
unfolding fork_all
fork_all-append k pipes t i [] rest fresh named inside forks =
    sym (put_processes-nil (fork_all k pipes (length pipes) i (opened 0 pipes t) rest))
    ∙ ap (λ n. put_processes [] (fork_all k pipes (length pipes) n (opened 0 pipes t) rest))
        (omega arith)
fork_all-append k pipes t i (row ∷ rows) rest fresh (here, named) inside forks =
    let ih =
      fork_all-append k pipes t (i + 1) rows rest fresh named (omega arith)
        (λ j low. forks j (omega arith)) in
    rw (forks i (omega arith), child-process_at k pipes t i row fresh (omega arith) here, ih)
      (put_processes-cons (process_at k t (length pipes) i row)
          (processes_at k t (length pipes) (i + 1) rows)
          (fork_all k pipes (length pipes) (i + 1 + length rows) (opened 0 pipes t) rest)
        ∙ ap
            (λ n.
              put_processes (processes_at k t (length pipes) i (row ∷ rows))
                (fork_all k pipes (length pipes) n (opened 0 pipes t) rest))
            (omega arith))

wait_all-processes_at :
    (k : Kernel) (t : Table) (n i : ℕ) (rows : List (List Str))
    → wait_all (processes_at k t n i rows) ≡ all (ends_well k) rows
unfolding wait_all
wait_all-processes_at k t n i [] = refl
wait_all-processes_at k t n i (row ∷ rows) =
    ground (arith, wait_all-processes_at k t n (i + 1) rows)

-- A pipeline of `n + 1` commands, none empty, where the kernel makes `n` pipes of fresh descriptors
-- and all forks: the shell waits for a process of each command, which reads from the pipe before it
-- and writes to the pipe behind it and holds no other end of a pipe; the result is success just if
-- every one of them exits with 0; and the descriptors of the shell are again those from before.
pub run_processes_lem :
    (k : Kernel) (pipes : Pipes) (t : Table) (rows : List (List Str))
    → Offers k 0 pipes
    → IsFresh t pipes
    → length rows ≡ length pipes + 1
    → All (λ row. 1 ≤ length row) rows
    → ((j : ℕ) → j < length rows → k.fork_ok j ≡ true)
    → run_processes k t (length pipes) rows
      ≡ some (record {
        status = if all (ends_well k) rows then success else failure;
        table = t;
        processes = processes_at k t (length pipes) 0 rows;
        waited = true;
      })
unfolding run_processes run_made fork_all
run_processes_lem k pipes t rows offers fresh count named forks =
    let run =
      rw (append-nil rows, append-nil (processes_at k t (length pipes) 0 rows)) at
        (fork_all-append k pipes t 0 rows [] fresh named (omega arith)
          (λ j low. forks j (omega arith))) in
    rw
      (
        make_pipes-opened k 0 [] pipes t offers,
        run_processes,
        run,
        wait_all-processes_at k t (length pipes) 0 rows,
        close_all-opened pipes t fresh,
      )
      refl

make_pipes-not_made :
    (k : Kernel) (i n : ℕ) (before pipes : Pipes) (t : Table)
    → Offers k i pipes
    → length pipes < n
    → k.pipe_fds (i + length pipes) ≡ none
    → make_pipes k n i before t ≡ not_made (close_all (before ++ pipes) (opened i pipes t))
unfolding make_pipes
make_pipes-not_made k i zero before pipes t offers more out = absurd (omega arith)
make_pipes-not_made k i (suc n) before [] t offers more out =
    let here : k.pipe_fds i ≡ none = ap k.pipe_fds (omega arith) ∙ out in
    rw (here, make_pipes, append-nil before) refl
make_pipes-not_made k i (suc n) before ((r, w) ∷ pipes) t (offer, offers) more out =
    let t' = set_fd w (write_end i) (set_fd r (read_end i) t) in
    rw (offer, make_pipes)
      (make_pipes-not_made k (i + 1) n (before ++ (r, w) ∷ []) pipes t' offers (omega arith)
          (ap k.pipe_fds (omega arith) ∙ out)
        ∙ ap (λ p. not_made (close_all p (opened (i + 1) pipes t')))
            (append_assoc before ((r, w) ∷ []) pipes))

-- If the kernel makes fewer pipes than are wanted, the pipeline fails, nothing is forked, and the
-- descriptors of the shell are those from before: the pipes that were made are closed again.
pub run_processes_no_pipe :
    (k : Kernel) (n : ℕ) (pipes : Pipes) (t : Table) (rows : List (List Str))
    → Offers k 0 pipes
    → IsFresh t pipes
    → length pipes < n
    → k.pipe_fds (length pipes) ≡ none
    → run_processes k t n rows
      ≡ some (record { status = failure; table = t; processes = []; waited = true })
unfolding run_processes
run_processes_no_pipe k n pipes t rows offers fresh more out =
    rw
      (
        make_pipes-not_made k 0 n [] pipes t offers more (ap k.pipe_fds (omega arith) ∙ out),
        run_processes,
        close_all-opened pipes t fresh,
      )
      refl

-- If a fork fails, the pipeline fails, but the processes that were forked before are not waited for,
-- and the pipes stay open in the shell.
pub run_processes_fork_failed :
    (k : Kernel) (pipes : Pipes) (t : Table) (rows : List (List Str)) (row : List Str)
    (rest : List (List Str))
    → Offers k 0 pipes
    → IsFresh t pipes
    → length (rows ++ row ∷ rest) ≡ length pipes + 1
    → All (λ row. 1 ≤ length row) rows
    → ((j : ℕ) → j < length rows → k.fork_ok j ≡ true)
    → k.fork_ok (length rows) ≡ false
    → run_processes k t (length pipes) (rows ++ row ∷ rest)
      ≡ some (record {
        status = failure;
        table = opened 0 pipes t;
        processes = processes_at k t (length pipes) 0 rows;
        waited = false;
      })
unfolding run_processes run_made fork_all
run_processes_fork_failed k pipes t rows row rest offers fresh count named forks fails =
    let run =
      fork_all-append k pipes t 0 rows (row ∷ rest) fresh named
        (omega (arith, length-append rows (row ∷ rest))) (λ j low. forks j (omega arith)) in
    let fails_here : k.fork_ok (0 + length rows) ≡ false = ap k.fork_ok (omega arith) ∙ fails in
    rw
      (
        make_pipes-opened k 0 [] pipes t offers,
        run_processes,
        run,
        fails_here,
        append-nil (processes_at k t (length pipes) 0 rows),
      )
      refl

is_ok-if : (b : Bool) → is_ok (if b then success else failure) ≡ b
is_ok-if true = refl
is_ok-if false = refl

IsCommand-named : (rows : List (List Str)) → All IsCommand rows → All (λ row. 1 ≤ length row) rows
IsCommand-named [] commands = tt
IsCommand-named (row ∷ rows) ((some_words, short, words), commands) =
    (some_words, IsCommand-named rows commands)

-- A line of at least two commands, each of 1 to 127 words that are no pipes, with a pipe between
-- each two, where the kernel makes the pipes, of fresh descriptors, and all forks: the line succeeds
-- just if the process of every command exits with 0, not only the last, and the variables stay.
pub execute_command_processes :
    (k : Kernel) (pipes : Pipes) (t : Table) (mem : Allocs) (vars : Vars) (c d : List Str)
    (cs : List (List Str))
    → Offers k 0 pipes
    → IsFresh t pipes
    → length pipes ≡ length cs + 1
    → All IsCommand (c ∷ d ∷ cs)
    → ((j : ℕ) → j < length cs + 2 → k.fork_ok j ≡ true)
    → (r : Done) × (execute_command (world k t mem) vars (joined (c ∷ d ∷ cs)) ≡ some r)
      × (r.vars ≡ vars)
      × (r.status ≡ (if all (ends_well k) (c ∷ d ∷ cs) then success else failure))
execute_command_processes k pipes t mem vars c d cs offers fresh count commands forks =
    let rows = c ∷ d ∷ cs in
    let (r, run, calls, same, status) =
      execute_command_pipeline (world k t mem) vars c d cs commands in
    let ran =
      run_processes_lem k pipes t rows offers fresh (omega arith) (IsCommand-named rows commands)
        (λ j low. forks j (omega arith)) in
    let agree : (world k t mem).pipeline_ok rows ≡ all (ends_well k) rows =
      ap (λ n. outcome_ok (run_processes k t n rows)) (omega arith)
      ∙ ap outcome_ok ran
      ∙ is_ok-if (all (ends_well k) rows) in
    (r, run, same, status ∙ ap (λ b. if b then success else failure) agree)
