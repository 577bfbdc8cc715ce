-- ===== src/Main/Lifetime.antt =====
-- What holds through the whole life of the shell's process, and at its end.
use c_based_linux_shell.Prelude.{
  ◌≡◌, Bool, true, false, Option, some, List, [], ◌∷◌, >>=-eq-some, Bool-cases, ◌&&◌, inl, inr, ap,
  sym, ◌∙◌, ltb, none, ℕ, ◌||◌, ◌==◌, ==_iff, arith, refl,
}
use mathlib.Core.Path.{subst}
use c_based_linux_shell.Prelude.Int.{pos, in_range}
use c_based_linux_shell.CString.Number.{atoi}
use c_based_linux_shell.CString.{Str}
use c_based_linux_shell.Jobs.{Jobs}
use c_based_linux_shell.Command.{Call, builtin, start_server, close_server}
use c_based_linux_shell.Hosting.{
  without, Host, Command, host_after, bn_start_server, start_at, start_server as start_process,
  bn_close_server, start, close, run_command,
}
use c_based_linux_shell.Hosting.Lifecycle.{runs, cleanup_server-cases}
use c_based_linux_shell.Main.{
  Round, exited, idle, fork_failed, table_full, started, ran, main_round,
}
use c_based_linux_shell.Main.Keeping.{IsShell, GoesOn, main_round-GoesOn}
use c_based_linux_shell.Main.Reach.{begun, ShellReached-IsShell}
use c_based_linux_shell.Main.Process.{
  server_gone, runs_client, unhandled, end_of_input, server_ended, Process, HostAnswers,
  host_after_call, host_after_calls, sigint, sigterm, sighup, Arrival, typed, signalled, Outcome,
  goes_on, over, after_line, on_signal, process_step, begin_main, first_process, ready,
}

-- The processes that serve no more, where one has ended by itself or by a signal of another command.
abbrev pub ended_by : Arrival → List ℕ → List ℕ
ended_by (server_ended pid) gone = pid ∷ gone
ended_by end_of_input gone = gone
ended_by (signalled signal kill_ok) gone = gone
ended_by (typed l) gone = gone

-- The processes that come from the set-up of `main` by lines and signals, with the servers that have
-- ended of themselves.
pub data ProcessReached : List ℕ → Process → Type 0 where
  set_up :
      {p : Process} (int_ok term_ok hup_ok : Bool) (slots : Jobs)
      → begin_main int_ok term_ok hup_ok slots ≡ ready p
      → ProcessReached [] p
  after_step :
      {p p' : Process} {out : List Str} {gone : List ℕ} (a : Arrival)
      → ProcessReached gone p
      → process_step a p ≡ some (goes_on p' out)
      → ProcessReached (ended_by a gone) p'

-- Where a server is counted, its port is valid; and the one that `server_pid` names runs, or it has
-- ended of itself.
pub record IsServing (gone : List ℕ) (h : Host) : Type 0 where
  pub port : in_range 1024 65535 h.server_port ≡ true
  pub named : (pid : ℕ) → h.server_pid ≡ pos pid → (runs pid h.alive || runs pid gone) ≡ true

abbrev pub IsHosting : List ℕ → Host → Type 0
IsHosting gone h = ltb 0 h.server_num ≡ true → IsServing gone h

or_true : (b : Bool) → (b || true) ≡ true
or_true true = refl
or_true false = refl

runs-without-other :
    (pid q : ℕ) (ps : List ℕ) → (q == pid) ≡ false → runs pid (without q ps) ≡ runs pid ps
runs-without-other pid q [] other = refl
runs-without-other pid q (p ∷ ps) other = ground (arith, runs-without-other pid q ps other)

server_gone-IsHosting :
    (q : ℕ) (gone : List ℕ) (h : Host) → IsHosting gone h → IsHosting (q ∷ gone) (server_gone q h)
server_gone-IsHosting q gone h good counted =
    let serving = good counted in
    record {
      port = serving.port;
      named = λ pid e. elim (Bool-cases (q == pid)) [
        | inl same ↦ rw same (or_true (runs pid (without q h.alive)))
        | inr other ↦ rw (other, runs-without-other pid q h.alive other) (serving.named pid e)
      ];
    }

run_command-IsHosting :
    (gone : List ℕ) (c : Command) (h : Host) → IsHosting gone h → IsHosting gone (run_command c h)
unfolding run_command bn_start_server start_at start_process bn_close_server
run_command-IsHosting gone (start fork []) h good = good
run_command-IsHosting gone (start fork (name ∷ [])) h good = good
run_command-IsHosting gone (start none (name ∷ port ∷ ts)) h good =
    elim (Bool-cases (in_range 1024 65535 (atoi port))) [
      | inl valid ↦ rw valid (λ counted. record { port = (good counted).port; named = λ pid e. cc })
      | inr invalid ↦ rw invalid good
    ]
run_command-IsHosting gone (start (some new) (name ∷ port ∷ ts)) h good =
    elim (Bool-cases (in_range 1024 65535 (atoi port))) [
      | inl valid ↦ rw valid (λ counted. record {
        port = valid;
        named = λ pid e. let same : new ≡ pid = cc in ground (arith, (==_iff new pid).1 same);
      })
      | inr invalid ↦ rw invalid good
    ]
run_command-IsHosting gone (close kill_ok tokens) h good = elim (cleanup_server-cases kill_ok h) [
  | inl same ↦ subst (IsHosting gone) (sym same) good
  | inr none_left ↦
      λ counted. let absurd_count : false ≡ true = sym (ap (ltb 0) none_left) ∙ counted in absurd cc
]

pub record IsProcess (gone : List ℕ) (p : Process) : Type 0 where
  pub shell : IsShell p.shell
  pub host : IsHosting gone p.host

-- What a step leaves, where the process goes on.
abbrev Kept : List ℕ → Outcome → Type 0
Kept gone (goes_on p out) = IsProcess gone p
Kept gone (over h out) = Unit

host_after_call-IsHosting :
    (gone : List ℕ) (a : HostAnswers) (call : Call) (h h' : Host)
    → host_after_call a call h ≡ some h'
    → IsHosting gone h
    → IsHosting gone h'
unfolding host_after_call run_command
host_after_call-IsHosting gone a (builtin start_server tokens) h h' e good =
    let (r, run, last) = >>=-eq-some (bn_start_server a.fork tokens h) _ e in
    let same : host_after h (bn_start_server a.fork tokens h) ≡ h' = rw run cc in
    subst (IsHosting gone) same (run_command-IsHosting gone (start a.fork tokens) h good)
host_after_call-IsHosting gone a (builtin close_server tokens) h h' e good =
    let same : (bn_close_server a.kill_ok tokens h).host ≡ h' = cc in
    subst (IsHosting gone) same (run_command-IsHosting gone (close a.kill_ok tokens) h good)
host_after_call-IsHosting gone a call h h' e good =
    let same : h ≡ h' = cc in subst (IsHosting gone) same good

host_after_calls-IsHosting :
    (gone : List ℕ) (a : HostAnswers) (calls : List Call) (h h' : Host)
    → host_after_calls a calls h ≡ some h'
    → IsHosting gone h
    → IsHosting gone h'
unfolding host_after_calls
host_after_calls-IsHosting gone a [] h h' e good =
    let same : h ≡ h' = cc in subst (IsHosting gone) same good
host_after_calls-IsHosting gone a (call ∷ calls) h h' e good =
    let (h₁, run, last) = >>=-eq-some (host_after_call a call h) _ e in
    host_after_calls-IsHosting gone a calls h₁ h' last
      (host_after_call-IsHosting gone a call h h₁ run good)

Kept-same :
    (gone : List ℕ) (o o' : Outcome)
    → ◌≡◌ {A = Option Outcome} (some o) (some o')
    → Kept gone o
    → Kept gone o'
Kept-same gone o o' e kept = let same : o ≡ o' = cc in subst (Kept gone) same kept

after_line-Kept :
    (gone : List ℕ) (a : HostAnswers) (h : Host) (r : Round) (o : Outcome)
    → after_line a h r ≡ some o
    → GoesOn r
    → IsHosting gone h
    → Kept gone o
unfolding after_line
after_line-Kept gone a h (exited session) o e good host = Kept-same gone _ o e tt
after_line-Kept gone a h (idle sh) o e good host =
    Kept-same gone _ o e (record { shell = good; host = host })
after_line-Kept gone a h (fork_failed sh) o e good host =
    Kept-same gone _ o e (record { shell = good; host = host })
after_line-Kept gone a h (table_full sh) o e good host =
    Kept-same gone _ o e (record { shell = good; host = host })
after_line-Kept gone a h (started i pid sh) o e good host =
    Kept-same gone _ o e (record { shell = good; host = host })
after_line-Kept gone a h (ran done sh) o e good host =
    elim (Bool-cases (a.client_exits && runs_client done.calls)) [
      | inl leaves ↦ Kept-same gone (over h []) o (rw leaves at e) tt
      | inr stays ↦
          let (h', run, last) = >>=-eq-some (host_after_calls a done.calls h) _ (rw stays at e) in
          Kept-same gone (goes_on (record { shell = sh; host = h' }) []) o last (record {
            shell = good;
            host = host_after_calls-IsHosting gone a done.calls h h' run host;
          })
    ]

process_step-Kept :
    (gone : List ℕ) (a : Arrival) (p : Process) (o : Outcome)
    → process_step a p ≡ some o
    → IsProcess gone p
    → Kept (ended_by a gone) o
unfolding process_step on_signal
process_step-Kept gone (signalled sigint kill_ok) p o e good = Kept-same gone _ o e good
process_step-Kept gone (signalled sigterm kill_ok) p o e good = Kept-same gone _ o e tt
process_step-Kept gone (signalled sighup kill_ok) p o e good = Kept-same gone _ o e tt
process_step-Kept gone (signalled unhandled kill_ok) p o e good = Kept-same gone _ o e tt
process_step-Kept gone end_of_input p o e good = Kept-same gone _ o e tt
process_step-Kept gone (server_ended pid) p o e good =
    Kept-same (pid ∷ gone) _ o e
      (record { shell = good.shell; host = server_gone-IsHosting pid gone p.host good.host })
process_step-Kept gone (typed l) p o e good =
    let (r, run, last) =
      >>=-eq-some (main_round l.world l.kill_ok l.fork l.ended l.read_ok l.input p.shell) _ e in
    after_line-Kept gone l.host_answers p.host r o last
      (main_round-GoesOn l.world l.kill_ok l.fork l.ended l.read_ok l.input p.shell r run
        good.shell)
      good.host

begin_main-IsProcess :
    (int_ok term_ok hup_ok : Bool) (slots : Jobs) (p : Process)
    → begin_main int_ok term_ok hup_ok slots ≡ ready p
    → IsProcess [] p
unfolding begin_main
begin_main-IsProcess true true true slots p e =
    let same : first_process slots ≡ p = cc in
    subst (IsProcess []) same
      (record { shell = ShellReached-IsShell (begun slots); host = λ some_server. cc })
begin_main-IsProcess true true false slots p e = cc
begin_main-IsProcess true false hup_ok slots p e = cc
begin_main-IsProcess false term_ok hup_ok slots p e = cc

-- Through the whole life of the shell's process, whatever lines and signals come to it, whatever
-- servers end of themselves, and however the system answers, as long as no step is a fault: the jobs
-- stand at the front of their table, numbered from 1; no name among the variables shadows another; the
-- expanded tokens are within their table (where they would leave it the step is a fault); and where
-- a server is counted, its port is from 1024 to 65535, and the process that `server_pid` names runs,
-- or it has ended of itself or by a signal that another command has sent.
pub ProcessReached-IsProcess :
    {gone : List ℕ} {p : Process} → ProcessReached gone p → IsProcess gone p
ProcessReached-IsProcess (set_up {p = p} int_ok term_ok hup_ok slots e) =
    begin_main-IsProcess int_ok term_ok hup_ok slots p e
ProcessReached-IsProcess (after_step {p = p} {p' = p'} {out = out} {gone = gone} a reached e) =
    process_step-Kept gone a p (goes_on p' out) e (ProcessReached-IsProcess reached)
