-- ===== src/Command/Pipeline.antt =====
-- The commands that `execute_command` finds between the pipes of a line.
use c_based_linux_shell.Prelude.{
  ℕ, suc, ◌+◌, ◌<◌, ◌≤◌, ◌≡◌, refl, sym, ◌∙◌, ap, Bool, true, false, some, List, [], ◌∷◌, ◌++◌,
  arith, length, All, if◌then◌else◌, append-nil, append_assoc, length-append, success, failure,
}
use c_based_linux_shell.CString.{Str, strcmp_eq}
use c_based_linux_shell.CString.Compare.{strcmp_eq_refl}
use c_based_linux_shell.Variables.{Vars}
use c_based_linux_shell.Command.{
  pipe, count_pipes, rows, split_loop, World, Done, Call, run_pipeline, pipeline_done, last_or,
  reports, execute_counted, execute_command,
}

-- A word that is no pipe, and a command of a pipeline: words, and few enough for a row.
abbrev pub IsWord : Str → Type 0
IsWord t = strcmp_eq t pipe ≡ false

abbrev pub IsCommand : List Str → Type 0
IsCommand row = (1 ≤ length row) × (length row < 128) × All IsWord row

-- The tokens of a line: the commands with a pipe between each two.
abbrev pub joined : List (List Str) → List Str
joined [] = []
joined (row ∷ []) = row
joined (row ∷ next ∷ more) = row ++ pipe ∷ joined (next ∷ more)

count-words :
    (previous : Bool) (row rest : List Str)
    → 1 ≤ length row
    → All IsWord row
    → count_pipes previous (row ++ rest) ≡ count_pipes false rest
unfolding count_pipes
count-words previous [] rest h words = absurd (omega arith)
count-words previous (t ∷ []) rest h (word, words) = rw word refl
count-words previous (t ∷ u ∷ row) rest h (word, words) =
    rw word (count-words false (u ∷ row) rest (omega arith) words)

count-joined :
    (previous : Bool) (c : List Str) (cs : List (List Str))
    → All IsCommand (c ∷ cs)
    → count_pipes previous (joined (c ∷ cs)) ≡ record { number_of_pipes = length cs; reported = 0 }
unfolding count_pipes strcmp_eq
count-joined previous c [] ((some_words, short, words), all) =
    ap (count_pipes previous) (sym (append-nil c)) ∙ count-words previous c [] some_words words
count-joined previous c (d ∷ cs) ((some_words, short, words), all) =
    count-words previous c (pipe ∷ joined (d ∷ cs)) some_words words
    ∙ rw (count-joined true d cs all)
        (ap (λ n. record { number_of_pipes = n; reported = 0 }) (omega arith))

split-words :
    (pipes : ℕ) (before : List (List Str)) (row words rest : List Str)
    → length before ≤ pipes
    → length row + length words < 128
    → All IsWord words
    → split_loop pipes before row (words ++ rest) ≡ split_loop pipes before (row ++ words) rest
unfolding split_loop
split-words pipes before row [] rest fits short all =
    ap (λ r. split_loop pipes before r rest) (sym (append-nil row))
split-words pipes before row (t ∷ words) rest fits short (word, all) =
    let ih =
      split-words pipes before (row ++ t ∷ []) words rest fits
        (omega (arith, length-append row (t ∷ []))) all in
    ground (arith, ih, append_assoc row (t ∷ []) words)

split-joined :
    (pipes : ℕ) (before : List (List Str)) (c : List Str) (cs : List (List Str))
    → length before + length cs ≤ pipes
    → All IsCommand (c ∷ cs)
    → split_loop pipes before [] (joined (c ∷ cs)) ≡ rows (before ++ c ∷ cs)
unfolding split_loop
split-joined pipes before c [] fits ((some_words, short, words), all) =
    let at_end = split-words pipes before [] c [] (omega arith) (omega arith) words in
    rw (append-nil c) at at_end ∙ ground arith
split-joined pipes before c (d ∷ cs) fits ((some_words, short, words), all) =
    let at_pipe =
      split-words pipes before [] c (pipe ∷ joined (d ∷ cs)) (omega arith) (omega arith) words in
    let ih =
      split-joined pipes (before ++ c ∷ []) d cs (omega (arith, length-append before (c ∷ [])))
        all in
    at_pipe ∙ ground (arith, strcmp_eq_refl pipe, ih, append_assoc before (c ∷ []) (d ∷ cs))

pub IsWord-last_or : (t : Str) (row : List Str) → IsWord t → All IsWord row → IsWord (last_or t row)
IsWord-last_or t [] word words = word
IsWord-last_or t (u ∷ row) word (next, words) = IsWord-last_or u row next words

last_or-append :
    (t : Str) (xs : List Str) (u : Str) (us : List Str) → last_or t (xs ++ u ∷ us) ≡ last_or u us
last_or-append t [] u us = refl
last_or-append t (x ∷ xs) u us = last_or-append x xs u us

last_or-joined :
    (t : Str) (c : List Str) (cs : List (List Str))
    → All IsCommand (c ∷ cs)
    → IsWord (last_or t (joined (c ∷ cs)))
last_or-joined t [] cs ((some_words, short, words), all) = absurd (omega arith)
last_or-joined t (u ∷ c) [] ((some_words, short, (word, words)), all) =
    IsWord-last_or u c word words
last_or-joined t (u ∷ c) (d ∷ cs) (command, all) =
    rw (last_or-append u c pipe (joined (d ∷ cs))) (last_or-joined pipe d cs all)

-- The branch for a pipeline whose first and last tokens are no pipes.
pub execute_counted-pipeline :
    (w : World) (vars : Vars) (t : Str) (ts : List Str) (n reported : ℕ)
    → IsWord t
    → IsWord (last_or t ts)
    → execute_counted w vars (record { number_of_pipes = suc n; reported = reported }) t ts
      ≡ run_pipeline w vars (reports reported) (split_loop (suc n) [] [] (t ∷ ts))
unfolding execute_counted
execute_counted-pipeline w vars t ts n reported word last = ground arith

-- A line of at least two commands, each of 1 to 127 words that are no pipes, with a pipe between each
-- two, runs the pipeline of just these commands and nothing else; its result is that of the pipeline,
-- and the variables stay.
pub execute_command_pipeline :
    (w : World) (vars : Vars) (c d : List Str) (cs : List (List Str))
    → All IsCommand (c ∷ d ∷ cs)
    → (r : Done) × (execute_command w vars (joined (c ∷ d ∷ cs)) ≡ some r)
      × (r.calls ≡ Call.pipeline (c ∷ d ∷ cs) ∷ [])
      × (r.vars ≡ vars)
      × (r.status ≡ (if w.pipeline_ok (c ∷ d ∷ cs) then success else failure))
unfolding execute_command run_pipeline pipeline_done
execute_command_pipeline w vars [] d cs ((some_words, short, words), all) = absurd (omega arith)
execute_command_pipeline w vars (t ∷ c) d cs ((some_words, short, (word, words)), all) =
    let commands : All IsCommand ((t ∷ c) ∷ d ∷ cs) = ((some_words, short, (word, words)), all) in
    let ts = c ++ pipe ∷ joined (d ∷ cs) in
    let run =
      ap (λ n. execute_counted w vars n t ts) (count-joined false (t ∷ c) (d ∷ cs) commands)
      ∙ execute_counted-pipeline w vars t ts (length cs) 0 word
          (last_or-joined t (t ∷ c) (d ∷ cs) commands)
      ∙ ap (run_pipeline w vars [])
          (split-joined (suc (length cs)) [] (t ∷ c) (d ∷ cs) (omega arith) commands) in
    (pipeline_done w vars [] ((t ∷ c) ∷ d ∷ cs), run, refl, refl, refl)
