-- ===== src/Main/Process.antt =====
-- The process of the shell as a whole: `main` of src/mysh.c from the set-up of its signals on, with the
-- table of jobs, the variables and the server that it has started, through lines and signals.
use c_based_linux_shell.Prelude.{
  Bool, Option, some, List, [], ◌∷◌, if◌then◌else◌, ◌>>=◌, ℕ, ◌&&◌, false, true,
}
use c_based_linux_shell.Prelude.Int.{ℤ}
use c_based_linux_shell.CString.{Str, codes}
use c_based_linux_shell.Display.{display_message, display_error}
use c_based_linux_shell.Jobs.{Jobs}
use c_based_linux_shell.Command.{World, Call, builtin, start_client, start_server, close_server}
use c_based_linux_shell.Hosting.{
  Host, without, no_server, host_after, bn_start_server, bn_close_server, cleanup_server,
  exit_handler,
}
use c_based_linux_shell.Main.{
  Shell, Round, exited, idle, fork_failed, table_full, started, ran, main_round,
}
use c_based_linux_shell.Main.Reach.{start_shell}

-- The shell with what it keeps of its server.
pub record Process : Type 0 where
  pub shell : Shell
  pub host : Host

-- What `fork` and `kill` answer to a builtin that concerns the server, and whether `start-client`, where
-- the shell itself runs it, ends the process with `exit`.
pub record HostAnswers : Type 0 where
  pub fork : Option ℕ
  pub kill_ok : Bool
  pub client_exits : Bool

abbrev pub runs_client : List Call → Bool
runs_client [] = false
runs_client (builtin start_client tokens ∷ calls) = true
runs_client (call ∷ calls) = runs_client calls

-- What the builtins that the shell itself runs do to its server; `none` is a read behind the tokens.
unfoldable pub host_after_call : HostAnswers → Call → Host → Option Host
host_after_call a (builtin start_server tokens) h = do
  result ← bn_start_server a.fork tokens h
  some (host_after h (some result))
host_after_call a (builtin close_server tokens) h = some (bn_close_server a.kill_ok tokens h).host
host_after_call a call h = some h

unfoldable pub host_after_calls : HostAnswers → List Call → Host → Option Host
host_after_calls a [] h = some h
host_after_calls a (call ∷ calls) h = do h' ← host_after_call a call h; host_after_calls a calls h'

-- What comes to the process: a line, with what the system answers in its round; a signal; the end of
-- the input, at which `get_input` calls `exit`; or the end of a process that serves, by itself or by a
-- signal, as one that `kill` has sent.
pub record Line : Type 0 where
  pub world : World
  pub kill_ok : ℤ → ℤ → Bool
  pub fork : Option ℤ
  pub ended : List ℤ
  pub read_ok : Bool
  pub input : Str
  pub host_answers : HostAnswers

-- The signals with a handler, and the others that end a process.
pub data Signal : Type 0 where
  sigint sigterm sighup unhandled : Signal

pub data Arrival : Type 0 where
  typed : Line → Arrival
  signalled : Signal → Bool → Arrival
  end_of_input : Arrival
  server_ended : ℕ → Arrival

-- The process goes on, or has ended, with the servers that still run; in both cases with what
-- signals and `exit` have made it show.
pub data Outcome : Type 0 where
  goes_on : Process → List Str → Outcome
  over : Host → List Str → Outcome

-- `cleanup_server`, then `exit(0)`.
abbrev pub ends_with : Bool → Host → Outcome
ends_with kill_ok h = over (cleanup_server kill_ok h).host (cleanup_server kill_ok h).shown

-- The end of a round; only a command in the foreground, which is one call, runs builtins in the shell
-- itself.
unfoldable pub after_line : HostAnswers → Host → Round → Option Outcome
after_line a h (exited session) = some (ends_with a.kill_ok h)
after_line a h (idle sh) = some (goes_on (record { shell = sh; host = h }) [])
after_line a h (fork_failed sh) = some (goes_on (record { shell = sh; host = h }) [])
after_line a h (table_full sh) = some (goes_on (record { shell = sh; host = h }) [])
after_line a h (started i pid sh) = some (goes_on (record { shell = sh; host = h }) [])
after_line a h (ran done sh) =
    if a.client_exits && runs_client done.calls then some (over h []) else do
      h' ← host_after_calls a done.calls h
      some (goes_on (record { shell = sh; host = h' }) [])

-- `handler` and `exit_handler`.
unfoldable pub on_signal : Signal → Bool → Process → Outcome
on_signal sigint kill_ok p = goes_on p (display_message (codes "\n") ∷ [])
on_signal sigterm kill_ok p = over (exit_handler kill_ok p.host).1 (exit_handler kill_ok p.host).0
on_signal sighup kill_ok p = over (exit_handler kill_ok p.host).1 (exit_handler kill_ok p.host).0
on_signal unhandled kill_ok p = over p.host []

abbrev pub server_gone : ℕ → Host → Host
server_gone pid h = record h { alive = without pid h.alive }

-- One arrival.
unfoldable pub process_step : Arrival → Process → Option Outcome
process_step (signalled signal kill_ok) p = some (on_signal signal kill_ok p)
process_step end_of_input p = some (over p.host [])
process_step (server_ended pid) p = some (goes_on (record p { host = server_gone pid p.host }) [])
process_step (typed l) p = do
  round ← main_round l.world l.kill_ok l.fork l.ended l.read_ok l.input p.shell
  after_line l.host_answers p.host round

-- The start of `main`, with the answers of its three calls of `sigaction`.
pub data Begun : Type 0 where
  ready : Process → Begun
  failed : Str → Begun

abbrev pub sigaction_failed : Str
sigaction_failed = display_error (codes "ERROR: sigaction failed") []

abbrev pub first_process : Jobs → Process
first_process slots = record { shell = start_shell slots; host = no_server [] }

unfoldable pub begin_main : Bool → Bool → Bool → Jobs → Begun
begin_main int_ok term_ok hup_ok slots =
    if int_ok
    then if term_ok
      then if hup_ok then ready (first_process slots) else failed sigaction_failed
      else failed sigaction_failed
    else failed sigaction_failed
