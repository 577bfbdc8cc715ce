-- ===== src/Command/Builtins.antt =====
-- `check_builtin` finds a builtin by its whole name.
use c_based_linux_shell.Prelude.{
  ℕ, zero, suc, ◌<◌, ◌≡◌, ◌↔◌, refl, ◌∙◌, ap, inl, inr, true, false, some, List, [], ◌∷◌, arith,
  length, All, Bool-cases,
}
use c_based_linux_shell.CString.{Str, codes, max_str_len, strcmp_eq, strncmp_eq}
use c_based_linux_shell.CString.Compare.{strcmp_eq_iff}
use c_based_linux_shell.Command.{Builtin, builtins, builtin_from, check_builtin}

-- The names that the user types.
abbrev pub name_of : Builtin → Str
name_of Builtin.echo = codes "echo"
name_of Builtin.ls = codes "ls"
name_of Builtin.cd = codes "cd"
name_of Builtin.cat = codes "cat"
name_of Builtin.wc = codes "wc"
name_of Builtin.ps = codes "ps"
name_of Builtin.kill = codes "kill"
name_of Builtin.start_server = codes "start-server"
name_of Builtin.close_server = codes "close-server"
name_of Builtin.send = codes "send"
name_of Builtin.start_client = codes "start-client"

-- Within the length of one of the texts, the bound of `strncmp` does not matter.
strncmp_eq-strcmp_eq : (n : ℕ) (a b : Str) → length a < n → strncmp_eq a b n ≡ strcmp_eq a b
unfolding strncmp_eq strcmp_eq
strncmp_eq-strcmp_eq zero a b h = absurd (omega arith)
strncmp_eq-strcmp_eq (suc n) [] [] h = refl
strncmp_eq-strcmp_eq (suc n) [] (y ∷ b) h = refl
strncmp_eq-strcmp_eq (suc n) (x ∷ a) [] h = refl
strncmp_eq-strcmp_eq (suc n) (x ∷ a) (y ∷ b) h = ground (arith, strncmp_eq-strcmp_eq n a b)

abbrev IsEntry : Str × Builtin → Type 0
IsEntry e = (e.0 ≡ name_of e.1) × (length e.0 < max_str_len)

builtin_from-name :
    (table : List (Str × Builtin)) (cmd : Str) (fn : Builtin)
    → All IsEntry table
    → builtin_from table cmd ≡ some fn
    → cmd ≡ name_of fn
unfolding builtin_from
builtin_from-name [] cmd fn entries h = cc
builtin_from-name ((name, f) ∷ table) cmd fn ((named, short), entries) h =
    elim (Bool-cases (strcmp_eq name cmd)) [
      | inl same ↦
          let e : name ≡ cmd = (strcmp_eq_iff name cmd).0 same in
          let t : strncmp_eq name cmd max_str_len ≡ true =
            strncmp_eq-strcmp_eq max_str_len name cmd short ∙ same in
          let f_is : some f ≡ some fn = rw t at h in cc
      | inr other ↦
          let t : strncmp_eq name cmd max_str_len ≡ false =
            strncmp_eq-strcmp_eq max_str_len name cmd short ∙ other in
          builtin_from-name table cmd fn entries (rw t at h)
    ]

check_builtin-name_of : (fn : Builtin) → check_builtin (name_of fn) ≡ some fn
unfolding check_builtin builtin_from strncmp_eq
check_builtin-name_of Builtin.echo = refl
check_builtin-name_of Builtin.ls = refl
check_builtin-name_of Builtin.cd = refl
check_builtin-name_of Builtin.cat = refl
check_builtin-name_of Builtin.wc = refl
check_builtin-name_of Builtin.ps = refl
check_builtin-name_of Builtin.kill = refl
check_builtin-name_of Builtin.start_server = refl
check_builtin-name_of Builtin.close_server = refl
check_builtin-name_of Builtin.send = refl
check_builtin-name_of Builtin.start_client = refl

entries : All IsEntry builtins
entries = ground arith

-- `check_builtin` returns a builtin exactly if the command is that builtin's name: not for a prefix
-- of the name, nor for a longer word, whatever its length.
pub check_builtin_lem :
    (cmd : Str) (fn : Builtin) → (check_builtin cmd ≡ some fn) ↔ (cmd ≡ name_of fn)
unfolding check_builtin
check_builtin_lem cmd fn =
    (builtin_from-name builtins cmd fn entries, λ e. ap check_builtin e ∙ check_builtin-name_of fn)
