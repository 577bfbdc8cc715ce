-- ===== src/Jobs/Kill.antt =====
-- What `kill` does to the table, and what the next prompt then prints.
use c_based_linux_shell.Prelude.{
  ℕ, ◌^◌, ◌+◌, ◌<◌, ◌≡◌, ◌∙◌, refl, ap, inl, inr, Bool, true, false, some, List, [], ◌∷◌, arith,
  if◌then◌else◌, length, Bool-cases,
}
use c_based_linux_shell.Prelude.Int.{ℤ, pos, eq_ℤ, in_range}
use c_based_linux_shell.CString.{Str}
use c_based_linux_shell.Variables.{Vars}
use c_based_linux_shell.Jobs.Sweep.{
  marked, Swept, stop, reported, kept, nothing_reaped, Displayed-display_done_process,
}
use c_based_linux_shell.Jobs.{
  is_empty, is_killed, Jobs, display_done_process, mark_killed, send_signal, signal_of, bn_kill,
  sent, refused,
}
use c_based_linux_shell.CString.Number.{decimal, atoi-decimal}
use c_based_linux_shell.Jobs.{no_process}
use c_based_linux_shell.Jobs.Reports.{Quiet, here, past}

-- A pid in the form in which `ps` prints it, with no signal, sends SIGTERM to that process.
pub bn_kill-decimal :
    (kill_ok : ℤ → ℤ → Bool) (vars : Vars) (name : Str) (n : ℕ) (jobs : Jobs)
    → n < 2 ^ 31
    → bn_kill kill_ok vars (name ∷ decimal n ∷ []) jobs
      ≡ some (
          if kill_ok (pos n) (pos 15)
          then (sent (pos n) (pos 15), mark_killed (pos n) (pos 15) jobs)
          else (refused no_process, jobs))
unfolding bn_kill signal_of send_signal
bn_kill-decimal kill_ok vars name n jobs h = rw (atoi-decimal n h)

-- Some slot before the first empty one has the pid.
abbrev pub has_pid : ℤ → Jobs → Bool
has_pid pid [] = false
has_pid pid (s ∷ jobs) =
    let rest = has_pid pid jobs in
    if is_empty s.state then false else if eq_ℤ s.process.pid pid then true else rest

abbrev killed_count : Jobs → ℕ
killed_count [] = 0
killed_count (s ∷ jobs) =
    let rest = killed_count jobs in
    if is_empty s.state then 0 else if is_killed s.state then rest + 1 else rest

length-Swept :
    {jobs jobs' : Jobs} {lines : List Str}
    → Swept marked jobs jobs' lines
    → length lines ≡ killed_count jobs
length-Swept (stop e) = ground arith
length-Swept (reported b t r) = ground (arith, length-Swept r)
length-Swept (kept b f r) = ground (arith, length-Swept r)

killed_count-zero : {jobs : Jobs} → Quiet marked jobs → killed_count jobs ≡ 0
killed_count-zero (here e) = ground arith
killed_count-zero (past b f q) = ground (arith, killed_count-zero q)

killed_count-mark :
    (pid signo : ℤ) {jobs : Jobs}
    → Quiet marked jobs
    → eq_ℤ signo (pos 2) ≡ false
    → has_pid pid jobs ≡ true
    → killed_count (mark_killed pid signo jobs) ≡ 1
unfolding mark_killed
killed_count-mark pid signo (here e) other h = ground arith
killed_count-mark pid signo (past {s = s} {jobs = jobs} b f q) other h =
    elim (Bool-cases (eq_ℤ s.process.pid pid)) [
      | inl hit ↦ rw (b, hit, other) (ground (arith, killed_count-zero q))
      | inr miss ↦ rw (b, miss) (rw (b, f) (killed_count-mark pid signo q other (ground arith)))
    ]

-- A signal from 1 to 64 other than SIGINT that reaches a job makes the next prompt announce the end
-- of one job, although no process has ended: SIGCONT and SIGSTOP among them.
pub kill_announces_done :
    (kill_ok : ℤ → ℤ → Bool) (pid signo : ℤ) (jobs jobs' : Jobs) (lines : List Str)
    → Quiet marked jobs
    → has_pid pid jobs ≡ true
    → in_range 1 64 signo ≡ true
    → eq_ℤ signo (pos 2) ≡ false
    → kill_ok pid signo ≡ true
    → display_done_process [] (send_signal kill_ok pid (some signo) jobs).1 ≡ some (jobs', lines)
    → length lines ≡ 1
unfolding send_signal
kill_announces_done kill_ok pid signo jobs jobs' lines quiet there good other reached h =
    let sent_to : (send_signal kill_ok pid (some signo) jobs).1 ≡ mark_killed pid signo jobs =
      rw (good, reached, send_signal) refl in
    let parts = Displayed-display_done_process [] _ jobs' lines h in
    let (same, silent) = nothing_reaped _ parts.between parts.first parts.reaped in
    rw (parts.printed, silent)
      (length-Swept parts.killed_reported
        ∙ ap killed_count (same ∙ sent_to)
        ∙ killed_count-mark pid signo quiet other there)
