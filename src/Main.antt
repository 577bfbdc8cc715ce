-- ===== src/Main.antt =====
-- A round of the loop of `main` in src/mysh.c, from the tokens on: the table of expanded tokens, `exit`,
-- processes in the background and the execution of a command. `none` is a write outside an array.
pub mod Expanding
pub mod Background
pub mod Keeping
pub mod Reach
pub mod Process
pub mod Shown
pub mod Child
pub mod Lifetime
pub mod Ending
mod Tests
mod LifeTests
use c_based_linux_shell.Prelude.{
  ℕ, ◌+◌, ◌-◌, ◌*◌, ◌^◌, Bool, true, false, not, ◌&&◌, Option, none, some, List, [], ◌∷◌, ◌++◌,
  ◌==◌, ltb, if◌then◌else◌, length, set, ◌>>=◌,
}
use c_based_linux_shell.Prelude.Int.{ℤ}
use c_based_linux_shell.CString.{Str, codes, max_str_len, strcmp_eq, strncat, contains}
use c_based_linux_shell.Variables.{Vars, Session, remove_all_var}
use c_based_linux_shell.Expand.{expand_variables}
use c_based_linux_shell.Input.{read_tokens}
use c_based_linux_shell.Jobs.{
  Jobs, find_new_spot, add_bg_process, display_done_process, bn_kill, bn_ps,
}
use c_based_linux_shell.Command.{World, Done, Call, builtin, kill, ps, last_or, execute_command}

pub record Shell : Type 0 where
  pub session : Session
  pub jobs : Jobs

-- The size of `expanded_tokens`.
abbrev pub table_size : ℕ
table_size = max_str_len * 2

-- `expanded_tokens[expanded_token_count++] = expanded;`
unfoldable pub record_token : Str → Session → Option Session
record_token expanded s =
    if ltb s.expanded_token_count table_size
    then some (record s {
      expanded_tokens = set s.expanded_tokens s.expanded_token_count (some expanded);
      expanded_token_count = s.expanded_token_count + 1;
    })
    else none

unfoldable pub expand_tokens : Session → List Str → Option (Session × List Str)
expand_tokens s [] = some (s, [])
expand_tokens s (t ∷ ts) =
    let plain = expand_tokens s ts in
    if contains t b'$'
    then (do
      expanded ← expand_variables true s.head (some t)
      s₁ ← record_token expanded s
      (s₂, tokens) ← expand_tokens s₁ ts
      some (s₂, expanded ∷ tokens))
    else (do (s₂, tokens) ← plain; some (s₂, t ∷ tokens))

-- The space behind a token that is not the last. `remaining` has become an `int` that may be negative,
-- which `strncat` takes as a `size_t`.
unfoldable pub command_space : ℕ → Str → List Str → Str → Option Str
command_space remaining t [] command = some command
command_space remaining t (u ∷ ts) command =
    strncat (max_str_len + 1) command (b' ' ∷ [])
      (if ltb remaining (length t) then 2 ^ 64 - (length t - remaining) else remaining - length t)

-- The loop that makes the command string. It does not count the spaces.
unfoldable pub command_loop : Str → ℕ → List Str → Option Str
command_loop command remaining [] = some command
command_loop command remaining (t ∷ ts) =
    if ltb 0 remaining
    then (do
      c₁ ← strncat (max_str_len + 1) command t remaining
      c₂ ← command_space remaining t ts c₁
      command_loop c₂ (remaining - length t) ts)
    else some command

-- The end of a round.
pub data Round : Type 0 where
  exited : Session → Round
  idle fork_failed table_full : Shell → Round
  started : ℕ → ℤ → Shell → Round
  ran : Done → Shell → Round

-- The parent behind the `fork` of a process in the background; `none` is a `fork` that fails.
unfoldable pub run_background : Option ℤ → Shell → List Str → Option Round
run_background none shell tokens = some (fork_failed shell)
run_background (some pid) shell tokens = do
  command ← command_loop [] max_str_len tokens
  some (elim (find_new_spot shell.jobs) [
    | none ↦ table_full shell
    | some index ↦
        started index pid (record shell { jobs = add_bg_process pid command index shell.jobs })
  ])

-- What a builtin that the shell itself runs does to the table of jobs. Those in a pipeline run in
-- processes of their own.
unfoldable pub after_call : (ℤ → ℤ → Bool) → Vars → Call → Jobs → Option Jobs
after_call kill_ok vars (builtin kill tokens) jobs = do
  (result, jobs') ← bn_kill kill_ok vars tokens jobs
  some jobs'
after_call kill_ok vars (builtin ps tokens) jobs = do lines ← bn_ps jobs; some jobs
after_call kill_ok vars call jobs = some jobs

unfoldable pub after_calls : (ℤ → ℤ → Bool) → Vars → List Call → Jobs → Option Jobs
after_calls kill_ok vars [] jobs = some jobs
after_calls kill_ok vars (call ∷ calls) jobs = do
  jobs' ← after_call kill_ok vars call jobs
  after_calls kill_ok vars calls jobs'

unfoldable pub run_foreground : World → (ℤ → ℤ → Bool) → Shell → List Str → Option Round
run_foreground w kill_ok shell tokens = do
  done ← execute_command w shell.session.head tokens
  jobs ← after_calls kill_ok shell.session.head done.calls shell.jobs
  some (ran done (record { session = record shell.session { head = done.vars }; jobs = jobs }))

-- All tokens but the last.
abbrev pub front : Str → List Str → List Str
front t [] = []
front t (u ∷ us) = t ∷ front u us

-- `read_ok` is `ret != -1`, and `kill_ok` the answer of `kill`.
unfoldable pub run_tokens :
    World → (ℤ → ℤ → Bool) → Option ℤ → Bool → Shell → List Str → Option Round
run_tokens w kill_ok fork read_ok shell [] = some (idle shell)
run_tokens w kill_ok fork read_ok shell (t ∷ ts) =
    if read_ok && strcmp_eq (codes "exit") t
    then some (exited (remove_all_var shell.session))
    else if strcmp_eq (last_or t ts) (codes "&")
    then run_background fork shell (front t ts)
    else run_foreground w kill_ok shell (t ∷ ts)

-- A round, from the line that `get_input` has left; `ended` are the processes that `waitpid` returns.
unfoldable pub main_round :
    World → (ℤ → ℤ → Bool) → Option ℤ → List ℤ → Bool → Str → Shell → Option Round
main_round w kill_ok fork ended read_ok input shell = do
  tokens ← read_tokens input
  (session, expanded) ← expand_tokens shell.session tokens
  (jobs, lines) ← display_done_process ended shell.jobs
  run_tokens w kill_ok fork read_ok (record { session = session; jobs = jobs }) expanded
