-- ===== src/Jobs.antt =====
-- The table of background processes: src/commands.c from `add_bg_process` on, with `bn_ps` and
-- `bn_kill` of src/builtins.c. The two arrays `available_indices` and `bg_processes` are one list of
-- slots. A loop that tests the entry before the bound reads behind the array when no entry is
-- empty: `none`.
mod Sweep
pub mod Table
pub mod Reports
pub mod Full
pub mod Kill
mod Tests
use c_based_linux_shell.Prelude.{
  ℕ, ◌+◌, ◌*◌, ◌-◌, Bool, true, false, not, ◌&&◌, Option, none, some, List, [], ◌∷◌, ◌++◌, ◌==◌,
  if◌then◌else◌, length, get_elem?, set, take, replicate, map, Status, success, failure, ◌>>=◌,
}
use c_based_linux_shell.Prelude.Int.{ℤ, pos, negsuc, eq_ℤ, in_range}
use c_based_linux_shell.CString.{Str, max_str_len, strtok}
use c_based_linux_shell.CString.Number.{atoi, decimal}
use c_based_linux_shell.Display.{display_message}
use c_based_linux_shell.Variables.{Vars}
use c_based_linux_shell.Expand.{expand_variables}

-- MAX_PROCESS
abbrev pub max_process : ℕ
max_process = 1000

-- `available_indices[i]`: 0 running, 1 empty, 2 terminated, 3 killed.
pub data SlotState : Type 0 where
  running empty terminated killed : SlotState

abbrev pub is_empty : SlotState → Bool
is_empty empty = true
is_empty _ = false

abbrev pub is_busy : SlotState → Bool
is_busy running = true
is_busy _ = false

abbrev pub is_killed : SlotState → Bool
is_killed killed = true
is_killed _ = false

-- `bg_process`
pub record Process : Type 0 where
  pub pid : ℤ
  pub job_num : ℕ
  pub command : Str
  pub is_running : Bool

pub record Slot : Type 0 where
  pub state : SlotState
  pub process : Process

abbrev pub Jobs : Type 0
Jobs = List Slot

unfoldable pub initialize_available_indices : Jobs → Jobs
initialize_available_indices [] = []
initialize_available_indices (s ∷ jobs) =
    record s { state = empty } ∷ initialize_available_indices jobs

find_from : ℕ → Jobs → Option ℕ
find_from i [] = none
find_from i (s ∷ jobs) =
    let rest = find_from (i + 1) jobs in if is_empty s.state then some i else rest

-- `none` is -1.
unfoldable pub find_new_spot : Jobs → Option ℕ
unfolding find_from
find_new_spot = find_from 0

-- The slot that `add_bg_process` writes.
abbrev pub new_slot : ℤ → Str → ℕ → Slot
new_slot pid command i = record {
  state = running;
  process = record {
    pid = pid;
    job_num = i + 1;
    command = take (max_str_len - 1) command;
    is_running = true;
  };
}

unfoldable pub add_bg_process : ℤ → Str → ℕ → Jobs → Jobs
add_bg_process pid command i jobs = set jobs i (new_slot pid command i)

-- `%d`
abbrev pub show_int : ℤ → Str
show_int (pos n) = decimal n
show_int (negsuc n) = b'-' ∷ decimal (n + 1)

-- `snprintf` into MAX_STR_LEN * 2 bytes.
abbrev pub formatted : Str → Str
formatted s = take (max_str_len * 2 - 1) s

-- "[%d]+  Done %s\n", as `display_message` writes it.
abbrev pub done_line : Process → Str
done_line p = display_message (
    formatted (
      b'['
      ∷ (decimal p.job_num
          ++ (b']'
              ∷ b'+'
              ∷ b' '
              ∷ b' '
              ∷ b'D'
              ∷ b'o'
              ∷ b'n'
              ∷ b'e'
              ∷ b' '
              ∷ (p.command ++ b'\n' ∷ [])))))

abbrev pub begins_with : ℕ → Str → Bool
begins_with c [] = false
begins_with c (d ∷ cs) = d == c

-- `is_running = 0`, state 2.
abbrev pub finished : Slot → Slot
finished s = record s { state = terminated; process = record s.process { is_running = false } }

-- The slots and the lines printed, with one slot put in front.
abbrev pub keep : Slot → Jobs × List Str → Jobs × List Str
keep s (jobs, lines) = (s ∷ jobs, lines)

abbrev pub report : Slot → Jobs × List Str → Jobs × List Str
report s (jobs, lines) = (finished s ∷ jobs, done_line s.process ∷ lines)

abbrev pub ends : ℤ → Slot → Bool
ends pid s = eq_ℤ s.process.pid pid && s.process.is_running

-- The loop of `display_done_process` over the slots for one process that `waitpid` returned.
unfoldable pub reap : ℤ → Jobs → Option (Jobs × List Str)
reap pid [] = none
reap pid (s ∷ jobs) =
    let rest = reap pid jobs in
    if is_empty s.state
    then some (s ∷ jobs, [])
    else do r ← rest; some (if ends pid s then report s r else keep s r)

-- The loop over the slots that `kill` has marked.
unfoldable pub report_killed : Jobs → Option (Jobs × List Str)
report_killed [] = none
report_killed (s ∷ jobs) =
    let rest = report_killed jobs in
    if is_empty s.state
    then some (s ∷ jobs, [])
    else do r ← rest; some (if is_killed s.state then report s r else keep s r)

unfoldable pub all_terminated : Jobs → Bool
all_terminated [] = true
all_terminated (s ∷ jobs) =
    let rest = all_terminated jobs in
    if is_empty s.state then true else if is_busy s.state then false else rest

-- `while ((pid = waitpid(-1, &status, WNOHANG)) > 0)`, on the processes that have ended.
unfoldable pub reap_all : List ℤ → Jobs → Option (Jobs × List Str)
reap_all [] jobs = some (jobs, [])
reap_all (pid ∷ pids) jobs = do
  (jobs₁, lines₁) ← reap pid jobs
  (jobs₂, lines₂) ← reap_all pids jobs₁
  some (jobs₂, lines₁ ++ lines₂)

abbrev pub reset : Jobs → Jobs
reset jobs = if all_terminated jobs then initialize_available_indices jobs else jobs

unfoldable pub display_done_process : List ℤ → Jobs → Option (Jobs × List Str)
unfolding reap_all reap report_killed all_terminated initialize_available_indices
display_done_process pids jobs = do
  (jobs₁, lines₁) ← reap_all pids jobs
  (jobs₂, lines₂) ← report_killed jobs₁
  some (reset jobs₂, lines₁ ++ lines₂)

-- "%s %d", of the first word of the command, and its newline, as `display_message` writes them. The word
-- is freed. Of a command with no word that is the slot's own array, and of one that begins with a
-- space it is no start of a block: `none`.
unfoldable pub ps_line : Process → Option Str
ps_line p = elim (strtok (b' ' ∷ []) p.command) [
  | none ↦ none
  | some (first, rest) ↦
      if begins_with b' ' p.command
      then none
      else some (
          display_message (formatted (first ++ b' ' ∷ show_int p.pid))
          ++ display_message (b'\n' ∷ []))
]

-- The lines that `ps` prints.
unfoldable pub bn_ps : Jobs → Option (List Str)
bn_ps [] = none
bn_ps (s ∷ jobs) =
    let rest = bn_ps jobs in
    if is_empty s.state
    then some []
    else if s.process.is_running
    then (do line ← ps_line s.process; lines ← rest; some (line ∷ lines))
    else rest

-- The loop of `bn_kill` over the slots.
unfoldable pub mark_killed : ℤ → ℤ → Jobs → Jobs
mark_killed pid signo [] = []
mark_killed pid signo (s ∷ jobs) =
    let rest = mark_killed pid signo jobs in
    if is_empty s.state
    then s ∷ jobs
    else if eq_ℤ s.process.pid pid && not (eq_ℤ signo (pos 2))
    then record s { state = killed } ∷ jobs
    else s ∷ rest

pub data KillError : Type 0 where
  no_pid invalid_signal no_process : KillError

pub data KillResult : Type 0 where
  sent : ℤ → ℤ → KillResult
  refused : KillError → KillResult

-- `tokens[2]` as a signal; SIGTERM where there is none.
unfoldable pub signal_of : Vars → Option Str → Option (Option ℤ)
signal_of vars none = some (some (pos 15))
signal_of vars (some []) = some (some (atoi []))
signal_of vars (some (c ∷ cs)) =
    if c == b'$'
    then (do
      expanded ← expand_variables true vars (some (c ∷ cs))
      some (if length expanded == 0 then none else some (atoi expanded)))
    else some (some (atoi (c ∷ cs)))

-- The tests on the signal, and the call of `kill` (`kill_ok` is its answer).
unfoldable pub send_signal : (ℤ → ℤ → Bool) → ℤ → Option ℤ → Jobs → KillResult × Jobs
send_signal kill_ok pid none jobs = (refused invalid_signal, jobs)
send_signal kill_ok pid (some signo) jobs =
    if in_range 1 64 signo
    then if kill_ok pid signo
      then (sent pid signo, mark_killed pid signo jobs)
      else (refused no_process, jobs)
    else (refused invalid_signal, jobs)

unfoldable pub bn_kill : (ℤ → ℤ → Bool) → Vars → List Str → Jobs → Option (KillResult × Jobs)
bn_kill kill_ok vars tokens jobs = elim (get_elem? tokens 1) [
  | none ↦ some (refused no_pid, jobs)
  | some target ↦ do
    signo ← signal_of vars (get_elem? tokens 2)
    some (send_signal kill_ok (atoi target) signo jobs)
]
