-- ===== src/Command/Names.antt =====
-- What `execute_command` does to the variables, on every branch.
use c_based_linux_shell.Prelude.{
  ◌≡◌, refl, ap, sym, ◌∙◌, inl, inr, true, false, not, ◌&&◌, ◌||◌, Option, some, List, [], ◌∷◌,
  ◌==◌, length, Bool-cases, Option-cases, >>=-eq-some,
}
use mathlib.Core.Path.{subst}
use c_based_linux_shell.CString.{Str, strcmp_eq, contains}
use c_based_linux_shell.Variables.{Vars, find_key, find_value, is_valid_varname, set_variable}
use c_based_linux_shell.Variables.Names.{IsShadowFree, set_variable-IsShadowFree}
use c_based_linux_shell.Command.{
  Builtin, Message, check_builtin, pipe, PipeCount, count_pipes, Split, rows, syntax_error,
  out_of_bounds, World, Done, run_pipeline, pipeline_done, key_option, stored_value, store, assign,
  run_builtin, run_external, last_or, simple_command, execute_counted, execute_command,
}

-- The variables behind a command that comes through are those from before, or some are set in them.
abbrev pub Keeps : Vars → Option Done → Type 0
Keeps vars o = (d : Done) → o ≡ some d → IsShadowFree vars → IsShadowFree d.vars

Keeps-same : (vars : Vars) (o : Option Done) (d : Done) → o ≡ some d → d.vars ≡ vars → Keeps vars o
Keeps-same vars o d e same d' e' free =
    let done : d ≡ d' = cc in subst IsShadowFree (sym same ∙ ap (λ x. x.vars) done) free

run_pipeline-Keeps :
    (w : World) (vars : Vars) (printed : List Message) (split : Split)
    → Keeps vars (run_pipeline w vars printed split)
unfolding run_pipeline pipeline_done
run_pipeline-Keeps w vars printed out_of_bounds = λ d e free. cc
run_pipeline-Keeps w vars printed syntax_error = Keeps-same vars _ _ refl refl
run_pipeline-Keeps w vars printed (rows commands) = Keeps-same vars _ _ refl refl

run_builtin-vars :
    (w : World) (vars : Vars) (name : Str) (tokens : List Str) (fn : Builtin)
    → (run_builtin w vars name tokens fn).vars ≡ vars
unfolding run_builtin
run_builtin-vars w vars name tokens fn = elim (Bool-cases (w.builtin_ok fn tokens)) [
  | inl ok ↦ rw ok refl
  | inr bad ↦ rw bad refl
]

store-Keeps : (w : World) (vars : Vars) (token : Str) → Keeps vars (store w vars token)
unfolding store
store-Keeps w vars token d e free =
    let (value, found, e₁) = >>=-eq-some (find_value true (some token)) _ e in
    let (stored, kept, e₂) = >>=-eq-some (stored_value vars value) _ e₁ in
    let key = key_option (find_key true (some token)) in
    let set : d.vars ≡ (set_variable w.mem key (some stored) vars).1 = cc in
    subst IsShadowFree (sym set) (set_variable-IsShadowFree w.mem key (some stored) vars free)

assign-Keeps : (w : World) (vars : Vars) (token : Str) → Keeps vars (assign w vars token)
unfolding assign
assign-Keeps w vars token d e free =
    let (checked, found, e₁) = >>=-eq-some (is_valid_varname true (some token)) _ e in
    elim (Bool-cases checked.valid) [
      | inl valid ↦ store-Keeps w vars token d (rw valid at e₁) free
      | inr invalid ↦ Keeps-same vars _ _ refl refl d (rw invalid at e₁) free
    ]

simple_command-Keeps :
    (w : World) (vars : Vars) (t : Str) (ts : List Str) → Keeps vars (simple_command w vars t ts)
unfolding simple_command run_external
simple_command-Keeps w vars t ts = elim (Option-cases (check_builtin t)) [
  | inr (fn, found) ↦
      rw (found, simple_command) (Keeps-same vars _ _ refl (run_builtin-vars w vars t (t ∷ ts) fn))
  | inl missing ↦ elim (Bool-cases (contains t b'=' && (length ts == 0))) [
    | inl sets ↦ rw (missing, simple_command, sets) (assign-Keeps w vars t)
    | inr runs ↦ rw (missing, simple_command, runs) (Keeps-same vars _ _ refl refl)
  ]
]

execute_counted-Keeps :
    (w : World) (vars : Vars) (counted : PipeCount) (t : Str) (ts : List Str)
    → Keeps vars (execute_counted w vars counted t ts)
unfolding execute_counted
execute_counted-Keeps w vars counted t ts = elim (Bool-cases (not (counted.number_of_pipes == 0))) [
  | inr none_counted ↦ rw none_counted (simple_command-Keeps w vars t ts)
  | inl pipes ↦ elim (Bool-cases (strcmp_eq t pipe || strcmp_eq (last_or t ts) pipe)) [
    | inl at_end ↦ rw (pipes, at_end) (Keeps-same vars _ _ refl refl)
    | inr inside ↦ rw (pipes, inside) (run_pipeline-Keeps w vars _ _)
  ]
]

-- However a command ends that comes through: if no name among the variables shadows another, none
-- does so behind it.
pub execute_command-IsShadowFree :
    (w : World) (vars : Vars) (tokens : List Str) (d : Done)
    → execute_command w vars tokens ≡ some d
    → IsShadowFree vars
    → IsShadowFree d.vars
unfolding execute_command
execute_command-IsShadowFree w vars [] d e free = Keeps-same vars _ _ refl refl d e free
execute_command-IsShadowFree w vars (t ∷ ts) d e free =
    execute_counted-Keeps w vars (count_pipes false (t ∷ ts)) t ts d e free
