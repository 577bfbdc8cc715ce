-- ===== src/Jobs/Tests.antt =====
-- Runs of the functions on the table of jobs, and the theorems about them at concrete tables.
use c_based_linux_shell.Prelude.{none, ◌↔◌, ◌≡◌, refl, true, false, Bool, some, [], ◌∷◌, map}
use c_based_linux_shell.Prelude.Int.{ℤ, pos}
use c_based_linux_shell.CString.{codes, strtok, token_front, contains}
use c_based_linux_shell.CString.Number.{decimal, atoi}
use c_based_linux_shell.Jobs.{
  empty, killed, Slot, Jobs, new_slot, find_new_spot, display_done_process, finished, ps_line,
  bn_ps, signal_of, sent, mark_killed, send_signal, bn_kill, reset,
}
use c_based_linux_shell.Jobs.Sweep.{marked}
use c_based_linux_shell.Jobs.Table.{Packed, job, unused}
use c_based_linux_shell.Jobs.Full.{display_done_process_faults}
use c_based_linux_shell.Jobs.Reports.{
  Announced, ps_text, running_jobs, Quiet, past, here, display_done_process_announces, bn_ps_lem,
}

abbrev unused_slot : Slot
unused_slot = record {
  state = empty;
  process = record { pid = pos 0; job_num = 0; command = []; is_running = false };
}

-- `sleep 9 &` as process 41 and `cat &` as process 42, and room for one more.
abbrev two_jobs : Jobs
two_jobs =
    new_slot (pos 41) (codes "sleep 9") 0 ∷ new_slot (pos 42) (codes "cat") 1 ∷ unused_slot ∷ []

two_jobs-Packed : Packed 0 two_jobs
two_jobs-Packed =
    job refl (record { numbered = refl; runs = λ _. refl; ended = λ x. cc })
      (job refl (record { numbered = refl; runs = λ _. refl; ended = λ x. cc }) (unused refl tt))

two_jobs-Quiet : Quiet marked two_jobs
two_jobs-Quiet = past refl refl (past refl refl (here refl))

abbrev one_ended : Jobs
one_ended =
    new_slot (pos 41) (codes "sleep 9") 0
    ∷ finished (new_slot (pos 42) (codes "cat") 1)
    ∷ unused_slot
    ∷ []

cat_ends :
    display_done_process (pos 42 ∷ []) two_jobs ≡ some (one_ended, codes "[2]+  Done cat\n" ∷ [])
unfolding display_done_process decimal
cat_ends = refl

both_end :
    display_done_process (pos 42 ∷ pos 41 ∷ []) two_jobs
    ≡ some (
      reset (
          finished (new_slot (pos 41) (codes "sleep 9") 0)
          ∷ finished (new_slot (pos 42) (codes "cat") 1)
          ∷ unused_slot
          ∷ []),
      codes "[2]+  Done cat\n" ∷ codes "[1]+  Done sleep 9\n" ∷ [],
    )
unfolding display_done_process decimal
both_end = refl

ps_two_jobs : bn_ps two_jobs ≡ some (codes "sleep 41\n" ∷ codes "cat 42\n" ∷ [])
unfolding bn_ps ps_line strtok token_front contains decimal
ps_two_jobs = refl

abbrev any_process : ℤ → ℤ → Bool
any_process pid signo = true

abbrev cat_killed : Jobs
cat_killed =
    new_slot (pos 41) (codes "sleep 9") 0
    ∷ record (new_slot (pos 42) (codes "cat") 1) { state = killed }
    ∷ unused_slot
    ∷ []

kill_cat :
    bn_kill any_process [] (codes "kill" ∷ codes "42" ∷ codes "18" ∷ []) two_jobs
    ≡ some (sent (pos 42) (pos 18), cat_killed)
unfolding bn_kill signal_of send_signal mark_killed atoi
kill_cat = refl

display_done_process_announces_example :
    Announced two_jobs one_ended (codes "[2]+  Done cat\n" ∷ [])
display_done_process_announces_example =
    display_done_process_announces (pos 42 ∷ []) two_jobs one_ended (codes "[2]+  Done cat\n" ∷ [])
      two_jobs-Packed cat_ends

bn_ps_example : bn_ps two_jobs ≡ some (map ps_text (running_jobs two_jobs))
bn_ps_example = bn_ps_lem two_jobs two_jobs-Packed refl (refl, (refl, tt))

-- A table with one slot, which is in use.
display_done_process_faults_example :
    (display_done_process [] (new_slot (pos 41) (codes "cat") 0 ∷ []) ≡ none)
    ↔ (find_new_spot (new_slot (pos 41) (codes "cat") 0 ∷ []) ≡ none)
display_done_process_faults_example =
    display_done_process_faults [] (new_slot (pos 41) (codes "cat") 0 ∷ [])
