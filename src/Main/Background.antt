-- ===== src/Main/Background.antt =====
-- A line that ends in `&`: the command string and the table of jobs.
use c_based_linux_shell.Prelude.{
  ℕ, ◌+◌, ◌-◌, ◌≤◌, ◌<◌, ◌≡◌, refl, ap, sym, ◌∙◌, inl, inr, Bool, true, false, set, take, ◌&&◌,
  some, List, [], ◌∷◌, ◌++◌, arith, ltb, length, Bool-cases, ltb→ge, append-nil, append_assoc,
  length-append, nil_of_length-le-zero,
}
use c_based_linux_shell.Prelude.Int.{ℤ}
use c_based_linux_shell.CString.{Str, codes, max_str_len, strcmp_eq}
use c_based_linux_shell.CString.Compare.{strncat_fits, strcmp_eq_refl}
use c_based_linux_shell.CString.Tokens.{join}
use c_based_linux_shell.Jobs.{running, Jobs, find_new_spot, add_bg_process}
use c_based_linux_shell.Jobs.Table.{Packed, add_bg_process-Packed}
use c_based_linux_shell.Command.{World, last_or}
use c_based_linux_shell.Main.{
  Shell, command_space, command_loop, started, run_background, front, run_tokens,
}

-- A token, and its space, where they fit.
command_space-fits :
    (remaining : ℕ) (t u : Str) (ts : List Str) (command : Str)
    → length t < remaining
    → length command + 1 ≤ max_str_len
    → command_space remaining t (u ∷ ts) command ≡ some (command ++ b' ' ∷ [])
unfolding command_space
command_space-fits remaining t u ts command room fits =
    let counts : ltb remaining (length t) ≡ false = ground arith in
    rw counts (
      strncat_fits (max_str_len + 1) command (b' ' ∷ []) (remaining - length t) (omega arith)
        (omega arith))

command_space-end :
    (remaining : ℕ) (t command : Str) → command_space remaining t [] command ≡ some command
unfolding command_space
command_space-end remaining t command = refl

nothing_left :
    (command rest : Str) (remaining : ℕ)
    → max_str_len ≤ remaining + length command
    → length command + length rest ≤ max_str_len
    → remaining ≤ 0
    → command ++ rest ≡ command
nothing_left command rest remaining enough fits none_left =
    rw (nil_of_length-le-zero rest (omega arith)) (append-nil command)

command_loop-join :
    (command : Str) (remaining : ℕ) (ts : List Str)
    → max_str_len ≤ remaining + length command
    → length command + length (join b' ' ts) ≤ max_str_len
    → command_loop command remaining ts ≡ some (command ++ join b' ' ts)
unfolding command_loop
command_loop-join command remaining [] enough fits = ap some (sym (append-nil command))
command_loop-join command remaining (t ∷ []) enough fits = elim (Bool-cases (ltb 0 remaining)) [
  | inl room ↦
      rw
        (
          room,
          strncat_fits (max_str_len + 1) command t remaining (omega arith) (omega arith),
          command_space-end remaining t (command ++ t),
        )
        refl
  | inr full ↦
      rw full
        (ap some (sym (nothing_left command t remaining enough fits (ltb→ge 0 remaining full))))
]
command_loop-join command remaining (t ∷ u ∷ ts) enough fits =
    let rest = join b' ' (u ∷ ts) in
    let long = length-append t (b' ' ∷ rest) in
    let c = length-append command t in
    elim (Bool-cases (ltb 0 remaining)) [
      | inl room ↦
          rw
            (
              room,
              strncat_fits (max_str_len + 1) command t remaining (omega (arith, long))
                  (omega (arith, long)),
              command_space-fits remaining t u ts (command ++ t) (omega (arith, long))
                  (omega (arith, long, c)),
            )
            (command_loop-join ((command ++ t) ++ b' ' ∷ []) (remaining - length t) (u ∷ ts)
                (omega (arith, c, length-append (command ++ t) (b' ' ∷ [])))
                (omega (arith, long, c, length-append (command ++ t) (b' ' ∷ [])))
              ∙ ap some (
                  append_assoc (command ++ t) (b' ' ∷ []) rest
                  ∙ append_assoc command t (b' ' ∷ rest)))
      | inr full ↦ absurd (omega (arith, long, ltb→ge 0 remaining full))
    ]

last_or-end : (t : Str) (ts : List Str) (u : Str) → last_or t (ts ++ u ∷ []) ≡ u
last_or-end t [] u = refl
last_or-end t (v ∷ ts) u = last_or-end v ts u

front-end : (t : Str) (ts : List Str) (u : Str) → front t (ts ++ u ∷ []) ≡ t ∷ ts
front-end t [] u = refl
front-end t (v ∷ ts) u = ap (◌∷◌ t) (front-end v ts u)

-- A line that ends in `&` and does not begin with `exit`, whose words and spaces take at most
-- MAX_STR_LEN bytes, puts the process into the slot that `find_new_spot` finds, as a running job with
-- the number behind that of the slot, under the words with a space between each two, of which the
-- slot keeps the first MAX_STR_LEN - 1 bytes; the other slots stay, the table stays packed, and the
-- variables are as before.
pub run_tokens_background :
    (w : World) (kill_ok : ℤ → ℤ → Bool) (pid : ℤ) (read_ok : Bool) (shell : Shell) (t : Str)
    (ts : List Str) {i : ℕ}
    → strcmp_eq (codes "exit") t ≡ false
    → length (join b' ' (t ∷ ts)) ≤ max_str_len
    → find_new_spot shell.jobs ≡ some i
    → Packed 0 shell.jobs
    → (jobs : Jobs) × (run_tokens w kill_ok (some pid) read_ok shell (t ∷ (ts ++ codes "&" ∷ []))
        ≡ some (started i pid (record shell { jobs = jobs })))
      × (jobs
          ≡ set shell.jobs i (record {
            state = running;
            process = record {
              pid = pid;
              job_num = i + 1;
              command = take (max_str_len - 1) (join b' ' (t ∷ ts));
              is_running = true;
            };
          }))
      × Packed 0 jobs
unfolding run_tokens run_background add_bg_process
run_tokens_background w kill_ok pid read_ok shell t ts {i} other fits spot packed =
    let stays : (read_ok && strcmp_eq (codes "exit") t) ≡ false = ground arith in
    (
      add_bg_process pid (join b' ' (t ∷ ts)) i shell.jobs,
      rw
          (
            stays,
            last_or-end t ts (codes "&"),
            strcmp_eq_refl (codes "&"),
            front-end t ts (codes "&"),
            command_loop-join [] max_str_len (t ∷ ts) (omega arith) (omega arith),
            spot,
          )
          refl,
      refl,
      add_bg_process-Packed pid (join b' ' (t ∷ ts)) packed spot,
    )
