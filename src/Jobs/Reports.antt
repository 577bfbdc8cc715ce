-- ===== src/Jobs/Reports.antt =====
-- What `display_done_process` and `ps` print of a packed table.
use c_based_linux_shell.Prelude.{
  ap, ◌∙◌, ◌++◌, ◌==◌, ◌≤◌, ◌*◌, ◌-◌, take, map, zero, suc, none, append_assoc, All, Option-cases,
  ℕ, ◌+◌, ◌≡◌, refl, sym, inl, inr, Bool, true, false, not, ◌||◌, ◌&&◌, some, List, [], ◌∷◌, arith,
  if◌then◌else◌, Bool-cases,
}
use mathlib.Core.Path.{ap₂}
use mathlib.Core.List.{Perm, perm_middle}
use mathlib.Core.List.Perm
use c_based_linux_shell.CString.{codes, max_str_len, strtok, token_front, token_rest, contains}
use c_based_linux_shell.CString.Number.{decimal}
use c_based_linux_shell.Prelude.Int.{ℤ}
use c_based_linux_shell.CString.{Str}
use c_based_linux_shell.Jobs.Sweep.{
  marked, Swept, stop, reported, kept, has_room, Reaped-reap_all, nothing_reaped,
  Displayed-display_done_process,
}
use c_based_linux_shell.Jobs.{
  Process, done_line, show_int, begins_with, SlotState, running, empty, terminated, killed,
  is_empty, is_busy, is_killed, Slot, Jobs, finished, ends, all_terminated, reap_all, reset,
  display_done_process, ps_line, bn_ps,
}
use c_based_linux_shell.Jobs.Table.{
  Packed, over, unused, job, AllEmpty, AllEmpty-initialize, Packed-cons, Packed-Swept,
  Packed-reap_all,
}

-- A job whose end has not been announced.
abbrev pub is_pending : Slot → Bool
is_pending s = not (is_empty s.state) && (s.process.is_running || is_killed s.state)

abbrev pub pending : Jobs → List Process
pending [] = []
pending (s ∷ jobs) = if is_pending s then s.process ∷ pending jobs else pending jobs

pending_of_AllEmpty : (jobs : Jobs) → AllEmpty jobs → pending jobs ≡ []
pending_of_AllEmpty [] h = refl
pending_of_AllEmpty (s ∷ jobs) h = rw h.0 (pending_of_AllEmpty jobs h.1)

-- What an announcement looks like on the screen.
abbrev pub announcement : Process → Str
announcement p =
    take max_str_len
      (codes "[" ++ (decimal p.job_num ++ (codes "]+  Done " ++ (p.command ++ codes "\n"))))

take-take : (m n : ℕ) (xs : Str) → m ≤ n → take m (take n xs) ≡ take m xs
take-take zero n xs h = refl
take-take (suc m) zero xs h = absurd (omega arith)
take-take (suc m) (suc n) [] h = refl
take-take (suc m) (suc n) (x ∷ xs) h = ap (◌∷◌ x) (take-take m n xs (omega arith))

done_line-announcement : (p : Process) → done_line p ≡ announcement p
done_line-announcement p =
    take-take max_str_len (max_str_len * 2 - 1)
      (codes "[" ++ (decimal p.job_num ++ (codes "]+  Done " ++ (p.command ++ codes "\n"))))
      (omega arith)

-- The lines are the announcements of some jobs, which together with those that are pending behind are
-- those that were pending before, each as often.
pub record Announced (before after : Jobs) (lines : List Str) : Type 0 where
  pub jobs : List Process
  pub shown : lines ≡ map announcement jobs
  pub each_once : Perm (jobs ++ pending after) (pending before)

-- A test that only pending jobs pass.
abbrev Announces : (Slot → Bool) → Type 0
Announces test = (s : Slot) → is_empty s.state ≡ false → test s ≡ true → is_pending s ≡ true

Announced-Swept :
    {test : Slot → Bool} {jobs jobs' : Jobs} {lines : List Str}
    → Announces test
    → Swept test jobs jobs' lines
    → Announced jobs jobs' lines
Announced-Swept a (stop e) = record { jobs = []; shown = refl; each_once = Perm.refl _ }
Announced-Swept a (reported {s = s} {jobs = jobs} b t r) =
    let later = Announced-Swept a r in
    let waits : is_pending s ≡ true = a s b t in
    record {
      jobs = s.process ∷ later.jobs;
      shown = rw (done_line-announcement s.process) (ap (◌∷◌ (announcement s.process)) later.shown);
      each_once = rw waits (Perm.cons s.process later.each_once);
    }
Announced-Swept a (kept {s = s} {jobs = jobs} {jobs' = jobs'} b f r) =
    let later = Announced-Swept a r in
    record {
      jobs = later.jobs;
      shown = later.shown;
      each_once = elim (Bool-cases (is_pending s)) [
        | inl waits ↦ rw waits (
            Perm.trans (perm_middle later.jobs (pending jobs'))
              (Perm.cons s.process later.each_once))
        | inr quiet ↦ rw quiet later.each_once
      ];
    }

Announced-same : (jobs : Jobs) → Announced jobs jobs []
Announced-same jobs = record { jobs = []; shown = refl; each_once = Perm.refl _ }

map-both : (f : Process → Str) (xs ys : List Process) → map f (xs ++ ys) ≡ map f xs ++ map f ys
map-both f [] ys = refl
map-both f (x ∷ xs) ys = ap (◌∷◌ (f x)) (map-both f xs ys)

-- Two rounds of announcements, one behind the other.
Announced-append :
    {before between after : Jobs} {first later : List Str}
    → Announced before between first
    → Announced between after later
    → Announced before after (first ++ later)
Announced-append {after = after} a b = record {
  jobs = a.jobs ++ b.jobs;
  shown = ap₂ ◌++◌ a.shown b.shown ∙ sym (map-both announcement a.jobs b.jobs);
  each_once =
      rw (append_assoc a.jobs b.jobs (pending after))
        (Perm.trans (Perm.append (Perm.refl a.jobs) b.each_once) a.each_once);
}

ends-Announces : (pid : ℤ) → Announces (ends pid)
ends-Announces pid s b t = ground arith

marked-Announces : Announces marked
marked-Announces s b t = ground arith

Announced-reap_all :
    (pids : List ℤ) (jobs jobs' : Jobs) (lines : List Str)
    → reap_all pids jobs ≡ some (jobs', lines)
    → Announced jobs jobs' lines
Announced-reap_all [] jobs jobs' lines h =
    let (same, silent) = nothing_reaped jobs jobs' lines h in
    rw (same, silent) (Announced-same jobs)
Announced-reap_all (pid ∷ pids) jobs jobs' lines h =
    let parts = Reaped-reap_all pid pids jobs jobs' lines h in
    rw parts.printed (
      Announced-append (Announced-Swept (ends-Announces pid) parts.reaped)
        (Announced-reap_all pids parts.between jobs' parts.later parts.others))

-- No slot before the first empty one passes the test.
pub data Quiet (test : Slot → Bool) : Jobs → Type 0 where
  here : {s : Slot} {jobs : Jobs} → is_empty s.state ≡ true → Quiet test (s ∷ jobs)
  past :
      {s : Slot} {jobs : Jobs}
      → is_empty s.state ≡ false
      → test s ≡ false
      → Quiet test jobs
      → Quiet test (s ∷ jobs)

-- A sweep leaves no slot that passes its test, if `finished` slots do not, and keeps other tests
-- quiet.
pub Quiet-Swept :
    {test : Slot → Bool} {jobs jobs' : Jobs} {lines : List Str}
    → ((s : Slot) → test (finished s) ≡ false)
    → Swept test jobs jobs' lines
    → Quiet test jobs'
Quiet-Swept settles (stop e) = here e
Quiet-Swept settles (reported {s = s} b t r) = past refl (settles s) (Quiet-Swept settles r)
Quiet-Swept settles (kept b f r) = past b f (Quiet-Swept settles r)

Packed-empty :
    {i : ℕ} {s : Slot} {jobs : Jobs} → Packed i (s ∷ jobs) → is_empty s.state ≡ true → AllEmpty jobs
Packed-empty (unused e rest) h = rest
Packed-empty (job b j rest) h = cc

terminated_of :
    (x : SlotState) → is_empty x ≡ false → is_killed x ≡ false → is_busy x ≡ false → x ≡ terminated
terminated_of running b k r = cc
terminated_of empty b k r = cc
terminated_of terminated b k r = refl
terminated_of killed b k r = cc

-- A table with no marked job and no running one has no pending one.
settled-pending :
    {jobs : Jobs}
    → Quiet marked jobs
    → (i : ℕ) → Packed i jobs
    → all_terminated jobs ≡ true
    → pending jobs ≡ []
unfolding all_terminated
settled-pending (here {jobs = jobs} e) i p h = rw e (pending_of_AllEmpty jobs (Packed-empty p e))
settled-pending (past {s = s} {jobs = jobs} b f q) i p h =
    let (j, rest) = Packed-cons p b in
    let done : s.state ≡ terminated = terminated_of s.state b f (ground arith) in
    let quiet : is_pending s ≡ false = ground (arith, j.ended done) in
    rw quiet (settled-pending q (i + 1) rest (ground arith))

pending-reset :
    (jobs : Jobs) → Packed 0 jobs → Quiet marked jobs → pending (reset jobs) ≡ pending jobs
pending-reset jobs p q = elim (Bool-cases (all_terminated jobs)) [
  | inl done ↦
      rw done (pending_of_AllEmpty _ (AllEmpty-initialize jobs) ∙ sym (settled-pending q 0 p done))
  | inr busy ↦ rw busy
]

-- Of a packed table each line printed is the announcement of one pending job, with its number and its
-- command, and none comes twice: the jobs that are announced and those that are pending behind are
-- together just those that were pending before, also over the reset of the table.
pub display_done_process_announces :
    (pids : List ℤ) (jobs jobs' : Jobs) (lines : List Str)
    → Packed 0 jobs
    → display_done_process pids jobs ≡ some (jobs', lines)
    → Announced jobs jobs' lines
display_done_process_announces pids jobs jobs' lines p h =
    let parts = Displayed-display_done_process pids jobs jobs' lines h in
    let packed = Packed-reap_all pids jobs parts.between parts.first parts.reaped p in
    let all =
      Announced-append (Announced-reap_all pids jobs parts.between parts.first parts.reaped)
        (Announced-Swept marked-Announces parts.killed_reported) in
    let same =
      pending-reset parts.settled (Packed-Swept parts.killed_reported 0 packed)
        (Quiet-Swept (λ s. refl) parts.killed_reported) in
    let through : Announced jobs (reset parts.settled) (parts.first ++ parts.later) = record {
      jobs = all.jobs;
      shown = all.shown;
      each_once = rw same all.each_once;
    } in
    rw (parts.result, parts.printed) through

-- The processes that run, over the whole table.
abbrev pub running_jobs : Jobs → List Process
running_jobs [] = []
running_jobs (s ∷ jobs) =
    if not (is_empty s.state) && s.process.is_running
    then s.process ∷ running_jobs jobs
    else running_jobs jobs

abbrev pub first_word : Str → Str
first_word [] = []
first_word (c ∷ cs) = if c == b' ' then [] else c ∷ first_word cs

-- A command that begins with a word.
abbrev pub IsNamed : Str → Type 0
IsNamed [] = ⊥
IsNamed (c ∷ cs) = (c == b' ') ≡ false

-- What `ps` shows of a process.
abbrev pub ps_text : Process → Str
ps_text p = take max_str_len (first_word p.command ++ b' ' ∷ show_int p.pid) ++ codes "\n"

first_word-front : (s : Str) → token_front (b' ' ∷ []) s ≡ first_word s
unfolding token_front contains
first_word-front [] = refl
first_word-front (c ∷ cs) = ground (arith, first_word-front cs)

strtok-IsNamed :
    (s : Str)
    → IsNamed s
    → (rest : Str) × (strtok (b' ' ∷ []) s ≡ some (first_word s, rest))
      × (begins_with b' ' s ≡ false)
unfolding strtok contains
strtok-IsNamed [] h = absurd h
strtok-IsNamed (c ∷ cs) h =
    let front = first_word-front (c ∷ cs) in
    let letter : contains (b' ' ∷ []) c ≡ false = ground arith in
    (
      token_rest (b' ' ∷ []) (c ∷ cs),
      rw (strtok, letter) (ap (λ t. some (t, token_rest (b' ' ∷ []) (c ∷ cs))) front),
      h,
    )

ps_line-ps_text : (p : Process) → IsNamed p.command → ps_line p ≡ some (ps_text p)
unfolding ps_line
ps_line-ps_text p named =
    let (rest, token, no_space) = strtok-IsNamed p.command named in
    rw (ps_line, token, no_space)
      (ap (λ t. some (t ++ codes "\n"))
        (take-take max_str_len (max_str_len * 2 - 1) (first_word p.command ++ b' ' ∷ show_int p.pid)
          (omega arith)))

running_of_AllEmpty : (jobs : Jobs) → AllEmpty jobs → running_jobs jobs ≡ []
running_of_AllEmpty [] h = refl
running_of_AllEmpty (s ∷ jobs) h = rw h.0 (running_of_AllEmpty jobs h.1)

bn_ps-running :
    (i : ℕ) {jobs : Jobs}
    → Packed i jobs
    → has_room jobs ≡ true
    → All (λ p. IsNamed p.command) (running_jobs jobs)
    → bn_ps jobs ≡ some (map ps_text (running_jobs jobs))
unfolding bn_ps ps_line
bn_ps-running i over h named = cc
bn_ps-running i (unused {jobs = jobs} e rest) h named =
    rw e (ap (λ ps. some (map ps_text ps)) (sym (running_of_AllEmpty jobs rest)))
bn_ps-running i (job {s = s} {jobs = jobs} b j rest) h named =
    let more = bn_ps-running (i + 1) rest (rw b at h) in
    elim (Bool-cases s.process.is_running) [
      | inl runs ↦
          let (begins, later) = rw (b, runs) at named in
          rw (b, runs) (rw (ps_line-ps_text s.process begins, more later) refl)
      | inr stands ↦ rw (b, stands) (more (rw (b, stands) at named))
    ]

-- Of a packed table with an empty slot, where the command of each running job begins with a word:
-- `ps` shows the first word of the command and the process id of each running job, a line for each,
-- in the order of the job numbers, and nothing of the other slots, although its loop ends at the first
-- empty one.
pub bn_ps_lem :
    (jobs : Jobs)
    → Packed 0 jobs
    → has_room jobs ≡ true
    → All (λ p. IsNamed p.command) (running_jobs jobs)
    → bn_ps jobs ≡ some (map ps_text (running_jobs jobs))
bn_ps_lem jobs = bn_ps-running 0

-- A job whose command begins with a space is a fault of `ps`.
pub ps_line_faults : (p : Process) → begins_with b' ' p.command ≡ true → ps_line p ≡ none
unfolding ps_line
ps_line_faults p space = elim (Option-cases (strtok (b' ' ∷ []) p.command)) [
  | inl e ↦ rw (ps_line, e) refl
  | inr (r, e) ↦ rw (ps_line, e, space) refl
]
