-- ===== src/Jobs/Sweep.antt =====
-- The two loops that report jobs are one loop, over a test on the slot.
use c_based_linux_shell.Prelude.{
  ◌≡◌, refl, inl, inr, Bool, true, false, ◌||◌, Option, none, some, List, [], ◌∷◌, arith,
  if◌then◌else◌, Bool-cases, ◌>>=◌,
}
use c_based_linux_shell.Prelude.Int.{ℤ}
use c_based_linux_shell.CString.{Str}
use c_based_linux_shell.Prelude.{>>=-eq-some, ◌++◌}
use c_based_linux_shell.Jobs.{
  reap_all, reset, display_done_process, is_empty, is_killed, Slot, Jobs, done_line, finished, keep,
  report, ends, reap, report_killed,
}

unfoldable pub sweep : (Slot → Bool) → Jobs → Option (Jobs × List Str)
sweep test [] = none
sweep test (s ∷ jobs) =
    let rest = sweep test jobs in
    if is_empty s.state
    then some (s ∷ jobs, [])
    else do r ← rest; some (if test s then report s r else keep s r)

abbrev pub marked : Slot → Bool
marked s = is_killed s.state

pub reap-sweep : (pid : ℤ) (jobs : Jobs) → reap pid jobs ≡ sweep (ends pid) jobs
unfolding reap sweep
reap-sweep pid [] = refl
reap-sweep pid (s ∷ jobs) = rw (reap-sweep pid jobs)

pub report_killed-sweep : (jobs : Jobs) → report_killed jobs ≡ sweep marked jobs
unfolding report_killed sweep
report_killed-sweep [] = refl
report_killed-sweep (s ∷ jobs) = rw (report_killed-sweep jobs)

-- A sweep that gets through: the slots and the lines, each slot before the first empty one reported
-- or kept.
pub data Swept (test : Slot → Bool) : Jobs → Jobs → List Str → Type 0 where
  stop : {s : Slot} {jobs : Jobs} → is_empty s.state ≡ true → Swept test (s ∷ jobs) (s ∷ jobs) []
  reported :
      {s : Slot} {jobs jobs' : Jobs} {lines : List Str}
      → is_empty s.state ≡ false
      → test s ≡ true
      → Swept test jobs jobs' lines
      → Swept test (s ∷ jobs) (finished s ∷ jobs') (done_line s.process ∷ lines)
  kept :
      {s : Slot} {jobs jobs' : Jobs} {lines : List Str}
      → is_empty s.state ≡ false
      → test s ≡ false
      → Swept test jobs jobs' lines
      → Swept test (s ∷ jobs) (s ∷ jobs') lines

-- Some slot is empty.
abbrev pub has_room : Jobs → Bool
has_room [] = false
has_room (s ∷ jobs) = is_empty s.state || has_room jobs

abbrev pub Outcome : (Slot → Bool) → Jobs → Option (Jobs × List Str) → Type 0
Outcome test jobs none = has_room jobs ≡ false
Outcome test jobs (some (jobs', lines)) = Swept test jobs jobs' lines

module _ (test : Slot → Bool) where
  Outcome-cons :
      (s : Slot) (jobs : Jobs) (r : Option (Jobs × List Str))
      → is_empty s.state ≡ false
      → Outcome test jobs r
      → Outcome test (s ∷ jobs) (r >>= λ q. some (if test s then report s q else keep s q))
  Outcome-cons s jobs none b h = rw b h
  Outcome-cons s jobs (some (jobs', lines)) b h = elim (Bool-cases (test s)) [
    | inl t ↦ rw t (reported b t h)
    | inr f ↦ rw f (kept b f h)
  ]

  -- A sweep faults exactly on a table with no empty slot.
  pub sweep-Outcome : (jobs : Jobs) → Outcome test jobs (sweep test jobs)
  unfolding sweep
  sweep-Outcome [] = refl
  sweep-Outcome (s ∷ jobs) = elim (Bool-cases (is_empty s.state)) [
    | inl e ↦ rw e (stop e)
    | inr b ↦ rw b (Outcome-cons s jobs (sweep test jobs) b (sweep-Outcome jobs))
  ]

  pub Swept-sweep :
      (jobs jobs' : Jobs) (lines : List Str)
      → sweep test jobs ≡ some (jobs', lines)
      → Swept test jobs jobs' lines
  Swept-sweep jobs jobs' lines h = rw h at (sweep-Outcome jobs)

  -- A sweep leaves the room as it is.
  pub has_room-Swept :
      {jobs jobs' : Jobs} {lines : List Str}
      → Swept test jobs jobs' lines
      → (has_room jobs ≡ true) × (has_room jobs' ≡ true)
  has_room-Swept (stop e) = ground arith
  has_room-Swept (reported b t r) = ground (arith, has_room-Swept r)
  has_room-Swept (kept b f r) = ground (arith, has_room-Swept r)

-- The parts of a call of `reap_all` that came through.
pub record Reaped (pid : ℤ) (pids : List ℤ) (jobs jobs' : Jobs) (lines : List Str) : Type 0 where
  pub between : Jobs
  pub first : List Str
  pub later : List Str
  pub reaped : Swept (ends pid) jobs between first
  pub others : reap_all pids between ≡ some (jobs', later)
  pub printed : lines ≡ first ++ later

pub Reaped-reap_all :
    (pid : ℤ) (pids : List ℤ) (jobs jobs' : Jobs) (lines : List Str)
    → reap_all (pid ∷ pids) jobs ≡ some (jobs', lines)
    → Reaped pid pids jobs jobs' lines
unfolding reap_all
Reaped-reap_all pid pids jobs jobs' lines h =
    let ((between, first), reaped, h') = >>=-eq-some (reap pid jobs) _ h in
    let ((last, later), others, h'') = >>=-eq-some (reap_all pids between) _ h' in
    record {
      between = between;
      first = first;
      later = later;
      reaped = Swept-sweep (ends pid) jobs between first (rw reap-sweep at reaped);
      others = cc;
      printed = cc;
    }

pub nothing_reaped :
    (jobs jobs' : Jobs) (lines : List Str)
    → reap_all [] jobs ≡ some (jobs', lines)
    → (jobs' ≡ jobs) × (lines ≡ [])
unfolding reap_all
nothing_reaped jobs jobs' lines h = ground arith

-- The parts of a call of `display_done_process` that came through.
pub record Displayed (pids : List ℤ) (jobs jobs' : Jobs) (lines : List Str) : Type 0 where
  pub between : Jobs
  pub settled : Jobs
  pub first : List Str
  pub later : List Str
  pub reaped : reap_all pids jobs ≡ some (between, first)
  pub killed_reported : Swept marked between settled later
  pub result : jobs' ≡ reset settled
  pub printed : lines ≡ first ++ later

pub Displayed-display_done_process :
    (pids : List ℤ) (jobs jobs' : Jobs) (lines : List Str)
    → display_done_process pids jobs ≡ some (jobs', lines)
    → Displayed pids jobs jobs' lines
unfolding display_done_process
Displayed-display_done_process pids jobs jobs' lines h =
    let ((between, first), reaped, h') = >>=-eq-some (reap_all pids jobs) _ h in
    let ((settled, later), swept, h'') = >>=-eq-some (report_killed between) _ h' in
    record {
      between = between;
      settled = settled;
      first = first;
      later = later;
      reaped = reaped;
      killed_reported = Swept-sweep marked between settled later (rw report_killed-sweep at swept);
      result = cc;
      printed = cc;
    }
