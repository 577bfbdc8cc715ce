-- ===== src/Main/Child.antt =====
-- The child that `main` of src/mysh.c forks for a line in the background.
use c_based_linux_shell.Prelude.{
  ℕ, ◌+◌, ◌<◌, ◌≡◌, refl, Bool, true, false, Option, none, some, List, [], ◌∷◌, if◌then◌else◌,
  length, all, All, Bool-cases, inl, inr, ◌>>=◌, Status, success, failure,
}
use c_based_linux_shell.CString.{Str, codes}
use c_based_linux_shell.Display.{display_error}
use c_based_linux_shell.Variables.{Vars, Allocs}
use c_based_linux_shell.Command.{World, execute_command}
use c_based_linux_shell.Command.Pipeline.{IsCommand, joined}
use c_based_linux_shell.Processes.{Table, Pipes, Kernel, world}
use c_based_linux_shell.Processes.Wiring.{IsFresh, Offers}
use c_based_linux_shell.Processes.Result.{ends_well, execute_command_processes}

-- How the child ends: its exit status, and what it shows itself.
pub record ChildEnd : Type 0 where
  pub exit_status : ℕ
  pub shown : List Str

-- Behind `execute_command`; `none` is the display of `token_arr[0]` where that is NULL.
unfoldable pub child_end : List Str → Status → Option ChildEnd
child_end tokens success = some (record { exit_status = 0; shown = [] })
child_end [] failure = none
child_end (t ∷ ts) failure =
    some
      (record { exit_status = 1; shown = display_error (codes "ERROR: Unknown command: ") t ∷ [] })

unfoldable pub background_child : World → Vars → List Str → Option ChildEnd
background_child w vars tokens = do
  done ← execute_command w vars tokens
  child_end tokens done.status

abbrev pub status_text : Bool → List Str → ChildEnd
status_text true tokens = record { exit_status = 0; shown = [] }
status_text false [] = record { exit_status = 1; shown = [] }
status_text false (t ∷ ts) = record {
  exit_status = 1;
  shown = display_error (codes "ERROR: Unknown command: ") t ∷ [];
}

child_end-Bool :
    (ok : Bool) (t : Str) (ts : List Str)
    → child_end (t ∷ ts) (if ok then success else failure) ≡ some (status_text ok (t ∷ ts))
unfolding child_end
child_end-Bool true t ts = refl
child_end-Bool false t ts = refl

-- A pipeline in the background, of commands as in the foreground: the child that runs it exits with 0
-- just if the process of every command does. Otherwise it exits with 1 and reports the first word of
-- the line as an unknown command, also where all commands are known and only one of them failed.
pub background_child_processes :
    (k : Kernel) (pipes : Pipes) (t : Table) (mem : Allocs) (vars : Vars) (word : Str)
    (c d : List Str) (cs : List (List Str))
    → Offers k 0 pipes
    → IsFresh t pipes
    → length pipes ≡ length cs + 1
    → All IsCommand ((word ∷ c) ∷ d ∷ cs)
    → ((j : ℕ) → j < length cs + 2 → k.fork_ok j ≡ true)
    → let rows = (word ∷ c) ∷ d ∷ cs in
      background_child (world k t mem) vars (joined rows)
      ≡ some (status_text (all (ends_well k) rows) (word ∷ []))
unfolding background_child
background_child_processes k pipes t mem vars word c d cs offers fresh count commands forks =
    let rows = (word ∷ c) ∷ d ∷ cs in
    let (r, run, same, status) =
      execute_command_processes k pipes t mem vars (word ∷ c) d cs offers fresh count commands
        forks in
    rw (run, status)
      (elim (Bool-cases (all (ends_well k) rows)) [
        | inl well ↦ rw well (child_end-Bool true word _)
        | inr ill ↦ rw ill (child_end-Bool false word _)
      ])
