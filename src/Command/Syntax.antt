-- ===== src/Command/Syntax.antt =====
-- A line with pipes: its arrays are large enough, and what runs is what the line says.
use c_based_linux_shell.Prelude.{
  ℕ, ◌+◌, ◌<◌, ◌≤◌, ◌≡◌, ◌≢◌, ◌⊎◌, refl, sym, ap, inl, inr, Bool, true, false, not, ◌&&◌, ◌||◌,
  Option, some, List, [], ◌∷◌, ◌++◌, arith, ◌==◌, length, Bool-cases, append-nil, append_assoc,
  length-append, failure,
}
use c_based_linux_shell.CString.{Str, strcmp_eq}
use c_based_linux_shell.CString.Compare.{strcmp_eq_iff}
use c_based_linux_shell.Variables.{Vars}
use c_based_linux_shell.Command.{
  Message, PipeCount, pipe, count_pipes, Split, rows, syntax_error, out_of_bounds, split_loop,
  World, Done, Call, run_pipeline, pipeline_done, last_or, reports, execute_counted,
  execute_command,
}
use c_based_linux_shell.Command.Pipeline.{joined}

-- The flag `previous_pipe` of the count, in terms of the splitting.
abbrev at_pipe : List (List Str) → List Str → Bool
at_pipe before row = not (length before == 0) && (length row == 0)

joined-pipe :
    (before : List (List Str)) (row : List Str)
    → joined (before ++ row ∷ [] ∷ []) ≡ joined (before ++ row ∷ []) ++ pipe ∷ []
joined-pipe [] row = refl
joined-pipe (b ∷ []) row = ground (arith, append_assoc b (pipe ∷ row) (pipe ∷ []))
joined-pipe (b ∷ b' ∷ before) row = ground (
  arith,
  joined-pipe (b' ∷ before) row,
  append_assoc b (pipe ∷ joined (b' ∷ before ++ row ∷ [])) (pipe ∷ []),
)

joined-word :
    (before : List (List Str)) (row : List Str) (t : Str)
    → joined (before ++ (row ++ t ∷ []) ∷ []) ≡ joined (before ++ row ∷ []) ++ t ∷ []
joined-word [] row t = refl
joined-word (b ∷ []) row t = ground (arith, append_assoc b (pipe ∷ row) (t ∷ []))
joined-word (b ∷ b' ∷ before) row t = ground (
  arith,
  joined-word (b' ∷ before) row t,
  append_assoc b (pipe ∷ joined (b' ∷ before ++ row ∷ [])) (t ∷ []),
)

-- What a split of the tokens still to come may be.
abbrev IsSplit : List Str → Split → Type 0
IsSplit tokens (rows commands) = joined commands ≡ tokens
IsSplit tokens syntax_error = Unit
IsSplit tokens out_of_bounds = ⊥

IsSplit-cong :
    {tokens tokens' : List Str} {s s' : Split}
    → tokens ≡ tokens'
    → s' ≡ s
    → IsSplit tokens s
    → IsSplit tokens' s'
IsSplit-cong {s} {s'} e f h = rw (f, sym e) h

-- The steps of the two loops.
module _ (t : Str) (ts : List Str) where
  count-pipe :
      strcmp_eq t pipe ≡ true
      → (count_pipes false (t ∷ ts)).number_of_pipes ≡ (count_pipes true ts).number_of_pipes + 1
  unfolding count_pipes
  count-pipe h = rw h refl

  count-word :
      (previous : Bool)
      → strcmp_eq t pipe ≡ false
      → count_pipes previous (t ∷ ts) ≡ count_pipes false ts
  unfolding count_pipes
  count-word previous h = rw h refl

  module _ (pipes : ℕ) (before : List (List Str)) (row : List Str) where
    split-twice :
        strcmp_eq t pipe ≡ true
        → at_pipe before row ≡ true
        → split_loop pipes before row (t ∷ ts) ≡ syntax_error
    unfolding split_loop
    split-twice h k = ground arith

    split-pipe :
        strcmp_eq t pipe ≡ true
        → at_pipe before row ≡ false
        → length before ≤ pipes
        → length row < 128
        → split_loop pipes before row (t ∷ ts) ≡ split_loop pipes (before ++ row ∷ []) [] ts
    unfolding split_loop
    split-pipe h k fits short = ground arith

    split-word :
        strcmp_eq t pipe ≡ false
        → length before ≤ pipes
        → length row < 128
        → split_loop pipes before row (t ∷ ts) ≡ split_loop pipes before (row ++ t ∷ []) ts
    unfolding split_loop
    split-word h fits short = ground arith

count-nil : (previous : Bool) → (count_pipes previous []).number_of_pipes ≡ 0
unfolding count_pipes
count-nil previous = refl

split-end :
    (pipes : ℕ) (before : List (List Str)) (row : List Str)
    → length before ≤ pipes
    → length row < 128
    → split_loop pipes before row [] ≡ rows (before ++ row ∷ [])
unfolding split_loop
split-end pipes before row fits short = ground arith

at_pipe-next : (before : List (List Str)) (row : List Str) → at_pipe (before ++ row ∷ []) [] ≡ true
at_pipe-next before row = ground (arith, length-append before (row ∷ []))

at_pipe-word :
    (before : List (List Str)) (row : List Str) (t : Str) → at_pipe before (row ++ t ∷ []) ≡ false
at_pipe-word before row t = ground (arith, length-append row (t ∷ []))

split_loop-IsSplit :
    (pipes : ℕ) (before : List (List Str)) (row ts : List Str)
    → length before + (count_pipes (at_pipe before row) ts).number_of_pipes ≤ pipes
    → length row + length ts < 128
    → IsSplit (joined (before ++ row ∷ []) ++ ts) (split_loop pipes before row ts)
split_loop-IsSplit pipes before row [] fits short =
    let counted = rw (count-nil (at_pipe before row)) at fits in
    IsSplit-cong (sym (append-nil (joined (before ++ row ∷ []))))
      (split-end pipes before row (omega arith) (omega arith))
      (refl {a = joined (before ++ row ∷ [])})
split_loop-IsSplit pipes before row (t ∷ ts) fits short = elim (Bool-cases (strcmp_eq t pipe)) [
  | inl is_pipe ↦ elim (Bool-cases (at_pipe before row)) [
    | inl twice ↦
        IsSplit-cong {tokens = joined (before ++ row ∷ []) ++ t ∷ ts} {s = syntax_error} refl
          (split-twice t ts pipes before row is_pipe twice) tt
    | inr once ↦
        let counted = rw once at fits in
        let room = ap (◌+◌ (length before)) (count-pipe t ts is_pipe) in
        IsSplit-cong
          (rw
            (
              append_assoc before (row ∷ []) ([] ∷ []),
              joined-pipe before row,
              (strcmp_eq_iff t pipe).0 is_pipe,
            )
            (append_assoc (joined (before ++ row ∷ [])) (pipe ∷ []) ts))
          (split-pipe t ts pipes before row is_pipe once (omega arith) (omega arith))
          (split_loop-IsSplit pipes (before ++ row ∷ []) [] ts
            (rw (at_pipe-next before row) (omega (arith, length-append before (row ∷ []))))
            (omega arith))
  ]
  | inr word ↦
      let counted = rw (count-word t ts (at_pipe before row) word) at fits in
      IsSplit-cong
        (rw (joined-word before row t) (append_assoc (joined (before ++ row ∷ [])) (t ∷ []) ts))
        (split-word t ts pipes before row word (omega arith) (omega arith))
        (split_loop-IsSplit pipes before (row ++ t ∷ []) ts (rw (at_pipe-word before row t) counted)
          (omega (arith, length-append row (t ∷ []))))
]

abbrev pub Outcome : Vars → List Str → Option Done → Type 0
Outcome vars tokens o =
    (r : Done) × (o ≡ some r)
    × (r.vars ≡ vars)
    × (((r.calls ≡ []) × (r.status ≡ failure))
        ⊎ ((commands : List (List Str)) × (r.calls ≡ Call.pipeline commands ∷ [])
            × (joined commands ≡ tokens)))

run_pipeline-Outcome :
    (w : World) (vars : Vars) (printed : List Message) (tokens : List Str) (s : Split)
    → IsSplit tokens s
    → Outcome vars tokens (run_pipeline w vars printed s)
unfolding run_pipeline pipeline_done
run_pipeline-Outcome w vars printed tokens (rows commands) h =
    (_, refl, refl, inr (commands, refl, h))
run_pipeline-Outcome w vars printed tokens syntax_error h = (_, refl, refl, inl (refl, refl))
run_pipeline-Outcome w vars printed tokens out_of_bounds h = absurd h

execute_counted-Outcome :
    (w : World) (vars : Vars) (counted : PipeCount) (t : Str) (ts : List Str)
    → counted.number_of_pipes ≢ 0
    → IsSplit (t ∷ ts) (split_loop counted.number_of_pipes [] [] (t ∷ ts))
    → Outcome vars (t ∷ ts) (execute_counted w vars counted t ts)
unfolding execute_counted
execute_counted-Outcome w vars counted t ts piped h =
    let some_pipes : not (counted.number_of_pipes == 0) ≡ true = ground arith in
    elim (Bool-cases (strcmp_eq t pipe || strcmp_eq (last_or t ts) pipe)) [
      | inl bad ↦ rw (some_pipes, bad) (_, refl, refl, inl (refl, refl))
      | inr good ↦
          rw (some_pipes, good)
            (run_pipeline-Outcome w vars (reports counted.reported) (t ∷ ts)
              (split_loop counted.number_of_pipes [] [] (t ∷ ts)) h)
    ]

-- A line with a pipe, of fewer than 128 tokens, is executed without a fault and leaves the variables
-- alone. Either nothing runs and the result is a failure, or exactly one pipeline runs, whose
-- commands with a pipe between each two are the tokens of the line.
pub execute_command-IsSplit :
    (w : World) (vars : Vars) (t : Str) (ts : List Str)
    → length (t ∷ ts) < 128
    → (count_pipes false (t ∷ ts)).number_of_pipes ≢ 0
    → (r : Done) × (execute_command w vars (t ∷ ts) ≡ some r)
      × (r.vars ≡ vars)
      × (((r.calls ≡ []) × (r.status ≡ failure))
          ⊎ ((commands : List (List Str)) × (r.calls ≡ Call.pipeline commands ∷ [])
              × (joined commands ≡ t ∷ ts)))
unfolding execute_command
execute_command-IsSplit w vars t ts short piped =
    execute_counted-Outcome w vars (count_pipes false (t ∷ ts)) t ts piped (
      split_loop-IsSplit (count_pipes false (t ∷ ts)).number_of_pipes [] [] (t ∷ ts) (omega arith)
        (omega arith))
