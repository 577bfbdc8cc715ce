-- ===== src/Hosting.antt =====
-- The server as a process of the shell: `start_server` and `cleanup_server` of src/server.c,
-- `bn_start_server` and `bn_close_server` of src/builtins.c, `exit_handler` of src/mysh.c. The shell's
-- side of `fork` and `kill` is modelled, with the servers that run as a part of the state.
pub mod Lifecycle
mod Tests
use c_based_linux_shell.Prelude.{
  ℕ, zero, suc, ◌+◌, ◌-◌, Bool, true, false, not, ◌&&◌, Option, none, some, List, [], ◌∷◌, ◌++◌,
  ◌==◌, ltb, if◌then◌else◌, take, Status, success, failure,
}
use c_based_linux_shell.Prelude.Int.{ℤ, pos, negsuc, in_range}
use c_based_linux_shell.CString.{Str, codes}
use c_based_linux_shell.CString.Number.{atoi, decimal}
use c_based_linux_shell.Display.{display_message}
use c_based_linux_shell.Socket.{buf_size}

-- The globals of server.c that the shell keeps, and the processes that serve.
pub record Host : Type 0 where
  pub server_pid : ℤ
  pub server_port : ℤ
  pub server_num : ℕ
  pub alive : List ℕ

abbrev pub no_server : List ℕ → Host
no_server alive = record {
  server_pid = negsuc 0;
  server_port = negsuc 0;
  server_num = 0;
  alive = alive;
}

-- `start_server` with the answer of `fork`.
unfoldable pub start_server : Option ℕ → Host → Status × Host
start_server none h = (failure, record h { server_pid = negsuc 0 })
start_server (some pid) h = (success, record h { server_pid = pos pid; alive = pid ∷ h.alive })

pub data StartError : Type 0 where
  no_port invalid_port not_started : StartError

pub data StartResult : Type 0 where
  refused : StartError → Host → StartResult
  started : Host → StartResult

-- `bn_start_server`; `none` is an access behind the tokens.
unfoldable pub start_at : Option ℕ → ℤ → Host → StartResult
start_at fork port h =
    let (status, h') = start_server fork h in
    if not (in_range 1024 65535 port) then refused invalid_port h else elim status [
      | failure ↦ refused not_started h'
      | success ↦ started (record h' { server_port = port; server_num = 1 })
    ]

unfoldable pub bn_start_server : Option ℕ → List Str → Host → Option StartResult
bn_start_server fork [] h = none
bn_start_server fork (name ∷ []) h = some (refused no_port h)
bn_start_server fork (name ∷ port ∷ ts) h = some (start_at fork (atoi port) h)

-- "%d"
abbrev pub int_text : ℤ → Str
int_text (pos n) = decimal n
int_text (negsuc n) = b'-' ∷ decimal (n + 1)

-- "Server %d is closed successfully.\n"
abbrev pub closed_text : ℤ → Str
closed_text port =
    take (buf_size - 1)
      (codes "Server " ++ int_text port ++ codes " is closed successfully." ++ b'\n' ∷ [])

-- The processes without the one that gets SIGTERM.
abbrev pub without : ℕ → List ℕ → List ℕ
without pid [] = []
without pid (p ∷ ps) = let rest = without pid ps in if p == pid then rest else p ∷ rest

-- `cleanup_server`: its result, what it shows, and what it leaves.
pub record Cleaned : Type 0 where
  pub status : Status
  pub shown : List Str
  pub host : Host

unfoldable pub kill_server : Bool → ℕ → Host → Cleaned
kill_server kill_ok pid h =
    if kill_ok
    then record {
      status = success;
      shown = display_message (closed_text h.server_port) ∷ [];
      host = no_server (without pid h.alive);
    }
    else record { status = failure; shown = []; host = h }

abbrev pub nothing_closed : Host → Cleaned
nothing_closed h = record { status = success; shown = []; host = h }

unfoldable pub cleanup_pid : Bool → ℤ → Host → Cleaned
cleanup_pid kill_ok (negsuc n) h = nothing_closed h
cleanup_pid kill_ok (pos pid) h = if ltb 0 pid then kill_server kill_ok pid h else nothing_closed h

unfoldable pub cleanup_server : Bool → Host → Cleaned
cleanup_server kill_ok h =
    if ltb 0 h.server_num then cleanup_pid kill_ok h.server_pid h else nothing_closed h

unfoldable pub bn_close_server : Bool → List Str → Host → Cleaned
unfolding cleanup_server
bn_close_server kill_ok tokens h = cleanup_server kill_ok h

-- `exit_handler`, at SIGTERM: what is shown and what is left when the shell ends with 0.
unfoldable pub exit_handler : Bool → Host → List Str × Host
unfolding cleanup_server
exit_handler kill_ok h = ((cleanup_server kill_ok h).shown, (cleanup_server kill_ok h).host)

-- The commands of a session that concern the server, with the answers of the system.
pub data Command : Type 0 where
  start : Option ℕ → List Str → Command
  close : Bool → List Str → Command

abbrev pub host_after : Host → Option StartResult → Host
host_after h none = h
host_after h (some (refused e h')) = h'
host_after h (some (started h')) = h'

unfoldable pub run_command : Command → Host → Host
unfolding bn_close_server
run_command (start fork tokens) h = host_after h (bn_start_server fork tokens h)
run_command (close kill_ok tokens) h = (bn_close_server kill_ok tokens h).host

abbrev pub run_commands : List Command → Host → Host
run_commands [] h = h
run_commands (c ∷ cs) h = run_commands cs (run_command c h)
