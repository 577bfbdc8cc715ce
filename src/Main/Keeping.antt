-- ===== src/Main/Keeping.antt =====
-- What a round of the loop of `main` keeps, on every branch.
use c_based_linux_shell.Prelude.{
  ◌+◌, ◌≤◌, ◌≡◌, refl, sym, ◌∙◌, inl, inr, Bool, true, ◌&&◌, Option, none, some, List, [], ◌∷◌,
  arith, ltb, ltb→lt, Bool-cases, Option-cases, >>=-eq-some,
}
use mathlib.Core.Path.{subst}
use c_based_linux_shell.Prelude.Int.{ℤ}
use c_based_linux_shell.CString.{Str, codes, max_str_len, strcmp_eq, contains}
use c_based_linux_shell.Variables.{Session, Vars, remove_all_var}
use c_based_linux_shell.Variables.Names.{IsShadowFree}
use c_based_linux_shell.Expand.{expand_variables}
use c_based_linux_shell.Input.{read_tokens}
use c_based_linux_shell.Jobs.{
  Jobs, find_new_spot, add_bg_process, display_done_process, bn_kill, bn_ps,
}
use c_based_linux_shell.Jobs.Table.{
  Packed, add_bg_process-Packed, display_done_process-Packed, bn_kill-Packed,
}
use c_based_linux_shell.Command.{World, Call, builtin, kill, ps, last_or, execute_command}
use c_based_linux_shell.Command.Names.{execute_command-IsShadowFree}
use c_based_linux_shell.Main.{
  Shell, table_size, record_token, expand_tokens, command_loop, Round, exited, idle, fork_failed,
  table_full, started, ran, run_background, after_call, after_calls, run_foreground, front,
  run_tokens, main_round,
}

-- The table of jobs is packed, no name shadows another, and `expanded_tokens` is within its bounds.
pub record IsShell (sh : Shell) : Type 0 where
  pub packed : Packed 0 sh.jobs
  pub names : IsShadowFree sh.session.head
  pub bounded : sh.session.expanded_token_count ≤ table_size

-- What a round leaves, where the loop goes on.
abbrev pub GoesOn : Round → Type 0
GoesOn (exited session) = Unit
GoesOn (idle sh) = IsShell sh
GoesOn (fork_failed sh) = IsShell sh
GoesOn (table_full sh) = IsShell sh
GoesOn (started i pid sh) = IsShell sh
GoesOn (ran done sh) = IsShell sh

abbrev pub next_shell : Round → Option Shell
next_shell (exited session) = none
next_shell (idle sh) = some sh
next_shell (fork_failed sh) = some sh
next_shell (table_full sh) = some sh
next_shell (started i pid sh) = some sh
next_shell (ran done sh) = some sh

pub GoesOn-next_shell : (r : Round) (sh : Shell) → next_shell r ≡ some sh → GoesOn r → IsShell sh
GoesOn-next_shell (exited session) sh e good = cc
GoesOn-next_shell (idle sh') sh e good = let same : sh' ≡ sh = cc in subst IsShell same good
GoesOn-next_shell (fork_failed sh') sh e good = let same : sh' ≡ sh = cc in subst IsShell same good
GoesOn-next_shell (table_full sh') sh e good = let same : sh' ≡ sh = cc in subst IsShell same good
GoesOn-next_shell (started i pid sh') sh e good =
    let same : sh' ≡ sh = cc in subst IsShell same good
GoesOn-next_shell (ran done sh') sh e good = let same : sh' ≡ sh = cc in subst IsShell same good

-- The expansion of tokens keeps the variables, and its table within bounds.
abbrev KeptBy : Session → Session → Type 0
KeptBy s s' = (s'.head ≡ s.head) × (s'.expanded_token_count ≤ table_size)

KeptBy-same : (s s₁ s' : Session) → KeptBy s s₁ → s₁ ≡ s' → KeptBy s s'
KeptBy-same s s₁ s' kept same = subst (KeptBy s) same kept

record_token-KeptBy : (v : Str) (s s' : Session) → record_token v s ≡ some s' → KeptBy s s'
unfolding record_token
record_token-KeptBy v s s' e = elim (Bool-cases (ltb s.expanded_token_count table_size)) [
  | inr full ↦ let clash = rw full at e in cc
  | inl room ↦
      let recorded = rw room at e in
      let head : s'.head ≡ s.head = cc in
      let count : s'.expanded_token_count ≡ s.expanded_token_count + 1 = cc in
      (head, omega (arith, count, ltb→lt s.expanded_token_count table_size room))
]

expand_tokens-KeptBy :
    (s : Session) (ts : List Str) (s' : Session) (vs : List Str)
    → expand_tokens s ts ≡ some (s', vs)
    → s.expanded_token_count ≤ table_size
    → KeptBy s s'
unfolding expand_tokens
expand_tokens-KeptBy s [] s' vs e bounded =
    let same : s ≡ s' = cc in KeptBy-same s s s' (refl, bounded) same
expand_tokens-KeptBy s (t ∷ ts) s' vs e bounded = elim (Bool-cases (contains t b'$')) [
  | inr plain ↦
      let (r, run, last) = >>=-eq-some (expand_tokens s ts) _ (rw plain at e) in
      let same : r.0 ≡ s' = cc in
      KeptBy-same s r.0 s' (expand_tokens-KeptBy s ts r.0 r.1 run bounded) same
  | inl dollar ↦
      let (v, found, e₁) = >>=-eq-some (expand_variables true s.head (some t)) _ (rw dollar at e) in
      let (s₁, recorded, e₂) = >>=-eq-some (record_token v s) _ e₁ in
      let (r, run, last) = >>=-eq-some (expand_tokens s₁ ts) _ e₂ in
      let (head, count) = record_token-KeptBy v s s₁ recorded in
      let (head', count') = expand_tokens-KeptBy s₁ ts r.0 r.1 run count in
      let same : r.0 ≡ s' = cc in KeptBy-same s r.0 s' (head' ∙ head, count') same
]

-- What the calls of a command do to the table of jobs.
Packed-same :
    (jobs jobs' : Jobs)
    → ◌≡◌ {A = Option Jobs} (some jobs) (some jobs')
    → Packed 0 jobs
    → Packed 0 jobs'
Packed-same jobs jobs' e p = let same : jobs ≡ jobs' = cc in subst (Packed 0) same p

after_call-Packed :
    (kill_ok : ℤ → ℤ → Bool) (vars : Vars) (call : Call) (jobs jobs' : Jobs)
    → after_call kill_ok vars call jobs ≡ some jobs'
    → Packed 0 jobs
    → Packed 0 jobs'
unfolding after_call
after_call-Packed kill_ok vars (builtin kill tokens) jobs jobs' e p =
    let (r, run, last) = >>=-eq-some (bn_kill kill_ok vars tokens jobs) _ e in
    let same : r.1 ≡ jobs' = cc in
    subst (Packed 0) same (bn_kill-Packed kill_ok vars tokens jobs r.0 r.1 run p)
after_call-Packed kill_ok vars (builtin ps tokens) jobs jobs' e p =
    let (lines, run, last) = >>=-eq-some (bn_ps jobs) _ e in Packed-same jobs jobs' last p
after_call-Packed kill_ok vars call jobs jobs' e p = Packed-same jobs jobs' e p

after_calls-Packed :
    (kill_ok : ℤ → ℤ → Bool) (vars : Vars) (calls : List Call) (jobs jobs' : Jobs)
    → after_calls kill_ok vars calls jobs ≡ some jobs'
    → Packed 0 jobs
    → Packed 0 jobs'
unfolding after_calls
after_calls-Packed kill_ok vars [] jobs jobs' e p = Packed-same jobs jobs' e p
after_calls-Packed kill_ok vars (call ∷ calls) jobs jobs' e p =
    let (jobs₁, first, others) = >>=-eq-some (after_call kill_ok vars call jobs) _ e in
    after_calls-Packed kill_ok vars calls jobs₁ jobs' others
      (after_call-Packed kill_ok vars call jobs jobs₁ first p)

GoesOn-same : (r r' : Round) → ◌≡◌ {A = Option Round} (some r) (some r') → GoesOn r → GoesOn r'
GoesOn-same r r' e good = let same : r ≡ r' = cc in subst GoesOn same good

run_background-GoesOn :
    (fork : Option ℤ) (sh : Shell) (tokens : List Str) (r : Round)
    → run_background fork sh tokens ≡ some r
    → IsShell sh
    → GoesOn r
unfolding run_background
run_background-GoesOn none sh tokens r e good = GoesOn-same (fork_failed sh) r e good
run_background-GoesOn (some pid) sh tokens r e good =
    let (command, built, e₁) = >>=-eq-some (command_loop [] max_str_len tokens) _ e in
    elim (Option-cases (find_new_spot sh.jobs)) [
      | inl full ↦ GoesOn-same (table_full sh) r (rw full at e₁) good
      | inr (i, spot) ↦
          let jobs = add_bg_process pid command i sh.jobs in
          GoesOn-same (started i pid (record sh { jobs = jobs })) r (rw spot at e₁) (record {
            packed = add_bg_process-Packed pid command good.packed spot;
            names = good.names;
            bounded = good.bounded;
          })
    ]

run_foreground-GoesOn :
    (w : World) (kill_ok : ℤ → ℤ → Bool) (sh : Shell) (tokens : List Str) (r : Round)
    → run_foreground w kill_ok sh tokens ≡ some r
    → IsShell sh
    → GoesOn r
unfolding run_foreground
run_foreground-GoesOn w kill_ok sh tokens r e good =
    let (done, run, e₁) = >>=-eq-some (execute_command w sh.session.head tokens) _ e in
    let (jobs, called, last) =
      >>=-eq-some (after_calls kill_ok sh.session.head done.calls sh.jobs) _ e₁ in
    let sh' : Shell = record { session = record sh.session { head = done.vars }; jobs = jobs } in
    GoesOn-same (ran done sh') r last (record {
      packed =
          after_calls-Packed kill_ok sh.session.head done.calls sh.jobs jobs called good.packed;
      names = execute_command-IsShadowFree w sh.session.head tokens done run good.names;
      bounded = good.bounded;
    })

run_tokens-GoesOn :
    (w : World) (kill_ok : ℤ → ℤ → Bool) (fork : Option ℤ) (read_ok : Bool) (sh : Shell)
    (tokens : List Str) (r : Round)
    → run_tokens w kill_ok fork read_ok sh tokens ≡ some r
    → IsShell sh
    → GoesOn r
unfolding run_tokens
run_tokens-GoesOn w kill_ok fork read_ok sh [] r e good = GoesOn-same (idle sh) r e good
run_tokens-GoesOn w kill_ok fork read_ok sh (t ∷ ts) r e good =
    elim (Bool-cases (read_ok && strcmp_eq (codes "exit") t)) [
      | inl leaves ↦ GoesOn-same (exited (remove_all_var sh.session)) r (rw leaves at e) tt
      | inr stays ↦ elim (Bool-cases (strcmp_eq (last_or t ts) (codes "&"))) [
        | inl background ↦
            run_background-GoesOn fork sh (front t ts) r (rw (stays, background) at e) good
        | inr foreground ↦
            run_foreground-GoesOn w kill_ok sh (t ∷ ts) r (rw (stays, foreground) at e) good
      ]
    ]

pub main_round-GoesOn :
    (w : World) (kill_ok : ℤ → ℤ → Bool) (fork : Option ℤ) (ended : List ℤ) (read_ok : Bool)
    (input : Str) (sh : Shell) (r : Round)
    → main_round w kill_ok fork ended read_ok input sh ≡ some r
    → IsShell sh
    → GoesOn r
unfolding main_round
main_round-GoesOn w kill_ok fork ended read_ok input sh r e good =
    let (tokens, read, e₁) = >>=-eq-some (read_tokens input) _ e in
    let (x, expansion, e₂) = >>=-eq-some (expand_tokens sh.session tokens) _ e₁ in
    let (y, displayed, e₃) = >>=-eq-some (display_done_process ended sh.jobs) _ e₂ in
    let (head, count) = expand_tokens-KeptBy sh.session tokens x.0 x.1 expansion good.bounded in
    run_tokens-GoesOn w kill_ok fork read_ok (record { session = x.0; jobs = y.0 }) x.1 r e₃
      (record {
        packed = display_done_process-Packed ended sh.jobs y.0 y.1 displayed good.packed;
        names = subst IsShadowFree (sym head) good.names;
        bounded = count;
      })
