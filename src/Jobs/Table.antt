-- ===== src/Jobs/Table.antt =====
-- The invariant of the table: jobs fill it from the front, each carries the number of its slot, and
-- the flags agree. Every operation keeps it.
use c_based_linux_shell.Prelude.{
  ℕ, suc, ◌+◌, ◌≡◌, ◌⊎◌, refl, inl, inr, Bool, true, false, not, ◌&&◌, Option, none, some, List, [],
  ◌∷◌, arith, set, All, Bool-cases, Option-cases, get_elem?,
}
use c_based_linux_shell.Prelude.Int.{ℤ, pos, eq_ℤ, in_range}
use c_based_linux_shell.CString.{Str}
use c_based_linux_shell.Variables.{Vars}
use c_based_linux_shell.CString.Number.{atoi}
use c_based_linux_shell.Jobs.Sweep.{
  Swept, stop, reported, kept, Reaped-reap_all, nothing_reaped, Displayed-display_done_process,
}
use c_based_linux_shell.Jobs.{
  running, terminated, is_empty, Slot, Jobs, initialize_available_indices, find_from, find_new_spot,
  new_slot, add_bg_process, finished, all_terminated, reap_all, reset, display_done_process,
  mark_killed, send_signal, signal_of, bn_kill, KillResult,
}

-- The job in slot `i`.
pub record IsJob (i : ℕ) (s : Slot) : Type 0 where
  pub numbered : s.process.job_num ≡ i + 1
  pub runs : s.state ≡ running → s.process.is_running ≡ true
  pub ended : s.state ≡ terminated → s.process.is_running ≡ false

abbrev pub AllEmpty : Jobs → Type 0
AllEmpty = All (λ s. is_empty s.state ≡ true)

-- The slots from `i` on.
pub data Packed : ℕ → Jobs → Type 0 where
  over : {i : ℕ} → Packed i []
  unused :
      {i : ℕ} {s : Slot} {jobs : Jobs}
      → is_empty s.state ≡ true
      → AllEmpty jobs
      → Packed i (s ∷ jobs)
  job :
      {i : ℕ} {s : Slot} {jobs : Jobs}
      → is_empty s.state ≡ false
      → IsJob i s
      → Packed (i + 1) jobs
      → Packed i (s ∷ jobs)

pub Packed-AllEmpty : (i : ℕ) (jobs : Jobs) → AllEmpty jobs → Packed i jobs
Packed-AllEmpty i [] h = over
Packed-AllEmpty i (s ∷ jobs) h = unused h.0 h.1

pub AllEmpty-initialize : (jobs : Jobs) → AllEmpty (initialize_available_indices jobs)
unfolding initialize_available_indices
AllEmpty-initialize [] = tt
AllEmpty-initialize (s ∷ jobs) = (refl, AllEmpty-initialize jobs)

Packed-set :
    (pid : ℤ) (command : Str) {i k : ℕ} {jobs : Jobs}
    → Packed i jobs
    → find_from i jobs ≡ some k
    → (d : ℕ) × (k ≡ i + d) × Packed i (set jobs d (new_slot pid command k))
unfolding find_from
Packed-set pid command over h = cc
Packed-set pid command {i} {k} (unused {s = s} {jobs = jobs} e rest) h =
    let here : k ≡ i = ground arith in
    (
      0,
      omega (arith, here),
      rw here (
          job refl (record { numbered = refl; runs = λ _. refl; ended = λ x. cc })
            (Packed-AllEmpty (i + 1) jobs rest)),
    )
Packed-set pid command {i} {k} (job {s = s} {jobs = jobs} b j rest) h =
    let (d, at, packed) = Packed-set pid command {k = k} rest (ground arith) in
    (suc d, omega (arith, at), job b j packed)

-- Of a packed table with a free slot, a new job goes into the slot that `find_new_spot` finds,
-- and keeps the table packed.
pub add_bg_process-Packed :
    (pid : ℤ) (command : Str) {i : ℕ} {jobs : Jobs}
    → Packed 0 jobs
    → find_new_spot jobs ≡ some i
    → Packed 0 (add_bg_process pid command i jobs)
unfolding add_bg_process find_new_spot
add_bg_process-Packed pid command {i} {jobs} p h =
    let (d, at, packed) = Packed-set pid command {k = i} p h in
    let same : d ≡ i = omega (arith, at) in rw same at packed

finished-IsJob : {i : ℕ} {s : Slot} → IsJob i s → IsJob i (finished s)
finished-IsJob j = record { numbered = j.numbered; runs = λ x. cc; ended = λ _. refl }

pub Packed-cons :
    {i : ℕ} {s : Slot} {jobs : Jobs}
    → Packed i (s ∷ jobs)
    → is_empty s.state ≡ false
    → IsJob i s × Packed (i + 1) jobs
Packed-cons (unused e rest) b = cc
Packed-cons (job b' j rest) b = (j, rest)

pub Packed-Swept :
    {test : Slot → Bool} {jobs jobs' : Jobs} {lines : List Str}
    → Swept test jobs jobs' lines
    → (i : ℕ) → Packed i jobs
    → Packed i jobs'
Packed-Swept (stop e) i p = p
Packed-Swept (reported b t r) i p =
    let (j, rest) = Packed-cons p b in job refl (finished-IsJob j) (Packed-Swept r (i + 1) rest)
Packed-Swept (kept b f r) i p =
    let (j, rest) = Packed-cons p b in job b j (Packed-Swept r (i + 1) rest)

pub Packed-reap_all :
    (pids : List ℤ) (jobs jobs' : Jobs) (lines : List Str)
    → reap_all pids jobs ≡ some (jobs', lines)
    → Packed 0 jobs
    → Packed 0 jobs'
Packed-reap_all [] jobs jobs' lines h p = rw (nothing_reaped jobs jobs' lines h).0 p
Packed-reap_all (pid ∷ pids) jobs jobs' lines h p =
    let parts = Reaped-reap_all pid pids jobs jobs' lines h in
    Packed-reap_all pids parts.between jobs' parts.later parts.others
      (Packed-Swept parts.reaped 0 p)

Packed-reset : (jobs : Jobs) → Packed 0 jobs → Packed 0 (reset jobs)
Packed-reset jobs p = elim (Bool-cases (all_terminated jobs)) [
  | inl done ↦ rw done (Packed-AllEmpty 0 _ (AllEmpty-initialize jobs))
  | inr busy ↦ rw busy p
]

-- Reporting keeps the table packed, whatever processes have ended.
pub display_done_process-Packed :
    (pids : List ℤ) (jobs jobs' : Jobs) (lines : List Str)
    → display_done_process pids jobs ≡ some (jobs', lines)
    → Packed 0 jobs
    → Packed 0 jobs'
display_done_process-Packed pids jobs jobs' lines h p =
    let parts = Displayed-display_done_process pids jobs jobs' lines h in
    rw parts.result (
      Packed-reset parts.settled (
        Packed-Swept parts.killed_reported 0
          (Packed-reap_all pids jobs parts.between parts.first parts.reaped p)))

Packed-mark_killed :
    (pid signo : ℤ) {i : ℕ} {jobs : Jobs} → Packed i jobs → Packed i (mark_killed pid signo jobs)
unfolding mark_killed
Packed-mark_killed pid signo over = over
Packed-mark_killed pid signo (unused e rest) = rw e (unused e rest)
Packed-mark_killed pid signo (job {s = s} b j rest) =
    rw b (elim (Bool-cases (eq_ℤ s.process.pid pid && not (eq_ℤ signo (pos 2)))) [
      | inl hit ↦
          rw hit (job refl (record { numbered = j.numbered; runs = λ x. cc; ended = λ x. cc }) rest)
      | inr miss ↦ rw miss (job b j (Packed-mark_killed pid signo rest))
    ])

send_signal-Packed :
    (kill_ok : ℤ → ℤ → Bool) (pid : ℤ) (signo : Option ℤ) (jobs : Jobs)
    → Packed 0 jobs
    → Packed 0 (send_signal kill_ok pid signo jobs).1
unfolding send_signal
send_signal-Packed kill_ok pid none jobs p = p
send_signal-Packed kill_ok pid (some signo) jobs p = elim (Bool-cases (in_range 1 64 signo)) [
  | inr bad ↦ rw bad p
  | inl good ↦ rw good (elim (Bool-cases (kill_ok pid signo)) [
    | inl yes' ↦ rw yes' (Packed-mark_killed pid signo p)
    | inr no' ↦ rw no' p
  ])
]

-- `kill` leaves the table alone, or the signal it sends makes the change.
bn_kill-cases :
    (kill_ok : ℤ → ℤ → Bool) (vars : Vars) (tokens : List Str) (jobs : Jobs) (r : KillResult)
    (jobs' : Jobs)
    → bn_kill kill_ok vars tokens jobs ≡ some (r, jobs')
    → (jobs' ≡ jobs)
      ⊎ ((pid : ℤ) × (signo : Option ℤ) × (jobs' ≡ (send_signal kill_ok pid signo jobs).1))
unfolding bn_kill
bn_kill-cases kill_ok vars tokens jobs r jobs' h = elim (Option-cases (get_elem? tokens 1)) [
  | inl missing ↦ inl (ground arith)
  | inr (target, given) ↦ elim (Option-cases (signal_of vars (get_elem? tokens 2))) [
    | inl fault ↦ absurd (ground arith)
    | inr (signo, read) ↦ inr (atoi target, signo, ground arith)
  ]
]

-- `kill` keeps the table packed, whatever its arguments and whether or not a process is there.
pub bn_kill-Packed :
    (kill_ok : ℤ → ℤ → Bool) (vars : Vars) (tokens : List Str) (jobs : Jobs) (r : KillResult)
    (jobs' : Jobs)
    → bn_kill kill_ok vars tokens jobs ≡ some (r, jobs')
    → Packed 0 jobs
    → Packed 0 jobs'
bn_kill-Packed kill_ok vars tokens jobs r jobs' h p =
    elim (bn_kill-cases kill_ok vars tokens jobs r jobs' h) [
      | inl same ↦ rw same p
      | inr (pid, signo, changed) ↦ rw changed (send_signal-Packed kill_ok pid signo jobs p)
    ]
