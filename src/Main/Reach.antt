-- ===== src/Main/Reach.antt =====
-- The states of the shell that are reached by rounds of the loop of `main`.
use c_based_linux_shell.Prelude.{◌≡◌, Bool, Option, none, some, List, [], arith, replicate}
use c_based_linux_shell.Prelude.Int.{ℤ}
use c_based_linux_shell.CString.{Str}
use c_based_linux_shell.Jobs.{Jobs, initialize_available_indices}
use c_based_linux_shell.Jobs.Table.{AllEmpty-initialize, Packed-AllEmpty}
use c_based_linux_shell.Command.{World}
use c_based_linux_shell.Main.{Shell, table_size, Round, main_round}
use c_based_linux_shell.Main.Keeping.{IsShell, next_shell, GoesOn-next_shell, main_round-GoesOn}

-- The shell behind `initialize_available_indices`, over whatever the slots hold.
abbrev pub start_shell : Jobs → Shell
start_shell slots = record {
  session = record {
    head = [];
    expanded_tokens = replicate table_size none;
    expanded_token_count = 0;
  };
  jobs = initialize_available_indices slots;
}

-- The shells that rounds lead to, with any line and any answers of the system.
pub data ShellReached : Shell → Type 0 where
  begun : (slots : Jobs) → ShellReached (start_shell slots)
  after_round :
      {sh sh' : Shell} (w : World) (kill_ok : ℤ → ℤ → Bool) (fork : Option ℤ) (ended : List ℤ)
      (read_ok : Bool) (input : Str) (r : Round)
      → ShellReached sh
      → main_round w kill_ok fork ended read_ok input sh ≡ some r
      → next_shell r ≡ some sh'
      → ShellReached sh'

-- In every shell that is reached from the start by rounds that go on, whatever lines are typed and
-- however the system answers: the jobs stand at the front of their table, numbered from 1, no name
-- among the variables shadows another, and the expanded tokens are within their table.
pub ShellReached-IsShell : {sh : Shell} → ShellReached sh → IsShell sh
ShellReached-IsShell (begun slots) = record {
  packed = Packed-AllEmpty 0 (initialize_available_indices slots) (AllEmpty-initialize slots);
  names = tt;
  bounded = omega arith;
}
ShellReached-IsShell
      (after_round {sh = sh} {sh' = sh'} w kill_ok fork ended read_ok input r reached goes next) =
    GoesOn-next_shell r sh' next (
      main_round-GoesOn w kill_ok fork ended read_ok input sh r goes (ShellReached-IsShell reached))
