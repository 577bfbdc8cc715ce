-- ===== src/Main/Ending.antt =====
-- How the process of the shell ends: `exit` and `exit_handler` of src/mysh.c with `cleanup_server` of
-- src/server.c.
use c_based_linux_shell.Prelude.{
  ℕ, ◌<◌, ◌≡◌, refl, Bool, true, false, Option, some, List, [], ◌∷◌, arith, ltb, lt→ltb,
  >>=-eq-some, success, not, ◌&&◌,
}
use mathlib.Core.Path.{subst}
use c_based_linux_shell.Prelude.Int.{pos}
use c_based_linux_shell.CString.{Str}
use c_based_linux_shell.Display.{display_message}
use c_based_linux_shell.Hosting.{
  Host, no_server, closed_text, without, kill_server, cleanup_pid, cleanup_server, exit_handler,
}
use c_based_linux_shell.Hosting.Lifecycle.{runs}
use c_based_linux_shell.Main.{
  Round, exited, idle, fork_failed, table_full, started, ran, main_round,
}
use c_based_linux_shell.Main.Process.{
  runs_client, unhandled, end_of_input, server_ended, Process, HostAnswers, host_after_calls,
  sigint, sigterm, sighup, Arrival, typed, signalled, Outcome, goes_on, over, after_line, on_signal,
  process_step,
}

runs-without : (pid : ℕ) (ps : List ℕ) → runs pid (without pid ps) ≡ false
runs-without pid [] = refl
runs-without pid (p ∷ ps) = ground (arith, runs-without pid ps)

-- What `kill` answers where an arrival ends the shell.
abbrev pub kill_answer : Arrival → Bool
kill_answer (typed l) = l.host_answers.kill_ok
kill_answer (signalled signal kill_ok) = kill_ok
kill_answer end_of_input = false
kill_answer (server_ended pid) = false

-- A line, whose `start-client` does not end the shell, or a signal with a handler.
abbrev pub is_orderly : Arrival → Bool
is_orderly (typed l) = not l.host_answers.client_exits
is_orderly (signalled sigint kill_ok) = true
is_orderly (signalled sigterm kill_ok) = true
is_orderly (signalled sighup kill_ok) = true
is_orderly (signalled unhandled kill_ok) = false
is_orderly end_of_input = false
is_orderly (server_ended pid) = false

cleanup_server-names :
    (pid : ℕ) (h : Host)
    → ltb 0 h.server_num ≡ true
    → h.server_pid ≡ pos pid
    → 0 < pid
    → cleanup_server true h ≡ record {
      status = success;
      shown = display_message (closed_text h.server_port) ∷ [];
      host = no_server (without pid h.alive);
    }
unfolding cleanup_server cleanup_pid kill_server
cleanup_server-names pid h counted named positive =
    rw (counted, named) (rw (lt→ltb 0 pid positive) refl)

-- The process ends with what `cleanup_server` leaves and shows.
abbrev EndsClean : Bool → Host → Outcome → Type 0
EndsClean kill_ok before (goes_on p out) = Unit
EndsClean kill_ok before (over h out) =
    (h ≡ (cleanup_server kill_ok before).host) × (out ≡ (cleanup_server kill_ok before).shown)

EndsClean-same :
    (kill_ok : Bool) (before : Host) (o o' : Outcome)
    → ◌≡◌ {A = Option Outcome} (some o) (some o')
    → EndsClean kill_ok before o
    → EndsClean kill_ok before o'
EndsClean-same kill_ok before o o' e clean =
    let same : o ≡ o' = cc in subst (EndsClean kill_ok before) same clean

after_line-EndsClean :
    (a : HostAnswers) (h : Host) (r : Round) (o : Outcome)
    → after_line a h r ≡ some o
    → not a.client_exits ≡ true
    → EndsClean a.kill_ok h o
unfolding after_line
after_line-EndsClean a h (exited session) o e orderly =
    EndsClean-same a.kill_ok h _ o e (refl, refl)
after_line-EndsClean a h (idle sh) o e orderly = EndsClean-same a.kill_ok h _ o e tt
after_line-EndsClean a h (fork_failed sh) o e orderly = EndsClean-same a.kill_ok h _ o e tt
after_line-EndsClean a h (table_full sh) o e orderly = EndsClean-same a.kill_ok h _ o e tt
after_line-EndsClean a h (started i pid sh) o e orderly = EndsClean-same a.kill_ok h _ o e tt
after_line-EndsClean a h (ran done sh) o e orderly =
    let stays : (a.client_exits && runs_client done.calls) ≡ false = ground arith in
    let (h', run, last) = >>=-eq-some (host_after_calls a done.calls h) _ (rw stays at e) in
    EndsClean-same a.kill_ok h _ o last tt

process_step-EndsClean :
    (a : Arrival) (p : Process) (o : Outcome)
    → process_step a p ≡ some o
    → is_orderly a ≡ true
    → EndsClean (kill_answer a) p.host o
unfolding process_step on_signal exit_handler
process_step-EndsClean (signalled sigint kill_ok) p o e orderly =
    EndsClean-same kill_ok p.host _ o e tt
process_step-EndsClean (signalled sigterm kill_ok) p o e orderly =
    EndsClean-same kill_ok p.host _ o e (refl, refl)
process_step-EndsClean (signalled sighup kill_ok) p o e orderly =
    EndsClean-same kill_ok p.host _ o e (refl, refl)
process_step-EndsClean (typed l) p o e orderly =
    let (r, run, last) =
      >>=-eq-some (main_round l.world l.kill_ok l.fork l.ended l.read_ok l.input p.shell) _ e in
    after_line-EndsClean l.host_answers p.host r o last orderly
process_step-EndsClean (signalled unhandled kill_ok) p o e orderly = cc
process_step-EndsClean end_of_input p o e orderly = cc
process_step-EndsClean (server_ended pid) p o e orderly = cc

-- A shell that ends by a line that is `exit`, SIGTERM or SIGHUP does not leave the server that its
-- globals name: if it can be killed, just the server's process is gone, its port is named, and the
-- globals name none. The end of the input, other signals and an `exit` in `start-client` are no such
-- endings.
pub process_step_ends :
    (a : Arrival) (p : Process) (h : Host) (out : List Str) (pid : ℕ)
    → process_step a p ≡ some (over h out)
    → is_orderly a ≡ true
    → kill_answer a ≡ true
    → ltb 0 p.host.server_num ≡ true
    → p.host.server_pid ≡ pos pid
    → 0 < pid
    → (h ≡ no_server (without pid p.host.alive))
      × (runs pid h.alive ≡ false)
      × (out ≡ display_message (closed_text p.host.server_port) ∷ [])
process_step_ends a p h out pid ends orderly killed counted named positive =
    let (left, shown) = process_step-EndsClean a p (over h out) ends orderly in
    let cleaned = cleanup_server-names pid p.host counted named positive in
    let host : h ≡ no_server (without pid p.host.alive) = rw (killed, cleaned) at left in
    (host, rw host (runs-without pid p.host.alive), rw (killed, cleaned) at shown)

-- The end of the input and a signal without a handler leave all servers running.
pub process_step_orphans :
    (p : Process) (kill_ok : Bool)
    → (process_step end_of_input p ≡ some (over p.host []))
      × (process_step (signalled unhandled kill_ok) p ≡ some (over p.host []))
unfolding process_step on_signal
process_step_orphans p kill_ok = (refl, refl)
