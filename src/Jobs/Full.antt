-- ===== src/Jobs/Full.antt =====
-- A table with no empty slot: the loops that look for the first one run past its end.
use c_based_linux_shell.Prelude.{
  ℕ, ◌+◌, ◌≡◌, ◌≢◌, ◌↔◌, refl, inl, inr, Bool, true, false, Option, none, some, List, [], ◌∷◌, ◌++◌,
  arith, Bool-cases,
}
use c_based_linux_shell.Prelude.Int.{ℤ}
use c_based_linux_shell.CString.{Str}
use c_based_linux_shell.Jobs.Sweep.{
  sweep, marked, reap-sweep, report_killed-sweep, has_room, has_room-Swept, sweep-Outcome, Outcome,
}
use c_based_linux_shell.Jobs.{
  Slot, Jobs, find_from, find_new_spot, ends, reap_all, display_done_process,
}

find_from-none : (i : ℕ) (jobs : Jobs) → (find_from i jobs ≡ none) ↔ (has_room jobs ≡ false)
unfolding find_from
find_from-none i [] = (λ _. refl, λ _. refl)
find_from-none i (s ∷ jobs) = ground (arith, find_from-none (i + 1) jobs)

-- With room, a sweep gets through, and there is room after it.
sweep-some :
    (test : Slot → Bool) (jobs : Jobs)
    → has_room jobs ≡ true
    → (r : Jobs × List Str) × (sweep test jobs ≡ some r) × (has_room r.0 ≡ true)
sweep-some test jobs h = go (sweep test jobs) refl (sweep-Outcome test jobs)
  where
    go :
        (o : Option (Jobs × List Str))
        → sweep test jobs ≡ o
        → Outcome test jobs o
        → (r : Jobs × List Str) × (sweep test jobs ≡ some r) × (has_room r.0 ≡ true)
    go none e full = cc
    go (some (jobs', lines)) e swept = ((jobs', lines), e, (has_room-Swept test swept).1)

sweep-none : (test : Slot → Bool) (jobs : Jobs) → has_room jobs ≡ false → sweep test jobs ≡ none
unfolding sweep
sweep-none test [] h = refl
sweep-none test (s ∷ jobs) h = ground (arith, sweep-none test jobs)

reap_all-some :
    (pids : List ℤ) (jobs : Jobs)
    → has_room jobs ≡ true
    → (r : Jobs × List Str) × (reap_all pids jobs ≡ some r) × (has_room r.0 ≡ true)
unfolding reap_all
reap_all-some [] jobs h = ((jobs, []), refl, h)
reap_all-some (pid ∷ pids) jobs h =
    let ((jobs₁, lines₁), e₁, h₁) = sweep-some (ends pid) jobs h in
    let ((jobs₂, lines₂), e₂, h₂) = reap_all-some pids jobs₁ h₁ in
    ((jobs₂, lines₁ ++ lines₂), rw (reap-sweep, e₁) (rw e₂), h₂)

-- With an empty slot the jobs are reported, whatever processes have ended.
display-some :
    (pids : List ℤ) (jobs : Jobs) → has_room jobs ≡ true → display_done_process pids jobs ≢ none
unfolding display_done_process
display-some pids jobs h e =
    let ((jobs₁, lines₁), e₁, h₁) = reap_all-some pids jobs h in
    let (r, e₂, h₂) = sweep-some marked jobs₁ h₁ in cc (e₁, report_killed-sweep jobs₁, e₂)

display-none :
    (pids : List ℤ) (jobs : Jobs) → has_room jobs ≡ false → display_done_process pids jobs ≡ none
unfolding display_done_process reap_all
display-none [] jobs h = rw (report_killed-sweep, sweep-none marked jobs h)
display-none (pid ∷ pids) jobs h = rw (reap-sweep, sweep-none (ends pid) jobs h)

-- Whatever processes have ended, `display_done_process` reads behind the table exactly if
-- `find_new_spot` finds no slot left in it.
pub display_done_process_faults :
    (pids : List ℤ) (jobs : Jobs)
    → (display_done_process pids jobs ≡ none) ↔ (find_new_spot jobs ≡ none)
unfolding find_new_spot
display_done_process_faults pids jobs = elim (Bool-cases (has_room jobs)) [
  | inl room ↦ (
    (λ e. absurd (display-some pids jobs room e)),
    λ e. absurd (cc (room, (find_from-none 0 jobs).0 e)),
  )
  | inr full ↦ ((λ _. (find_from-none 0 jobs).1 full), λ _. display-none pids jobs full)
]
