-- ===== src/Builtins/Echo.antt =====
-- What `echo` prints: the values of its arguments, where they fit; and where it writes behind its
-- buffer.
use c_based_linux_shell.Prelude.{
  ◌+◌, ◌-◌, ◌^◌, ◌≤◌, ◌<◌, ◌≡◌, refl, ap, sym, ◌∙◌, inl, inr, true, false, some, none, List, [],
  ◌∷◌, ◌++◌, arith, ltb, length, take, Bool-cases, append-nil, append_assoc, length-append,
  length-take, ltb→lt, ge→ltb, nil_of_length-le-zero,
}
use c_based_linux_shell.CString.{Str, max_str_len, strncat, size_sub}
use c_based_linux_shell.CString.Compare.{strncat_fits, size_sub_lem}
use c_based_linux_shell.CString.Tokens.{join}
use c_based_linux_shell.Variables.{Vars}
use c_based_linux_shell.Expand.{expand_variables}
use c_based_linux_shell.Builtins.{
  EchoState, echo_append, echo_space, echo_loop, printed, bn_echo, Expands, nil, cons,
}

-- The state with `r` printed so far.
abbrev built : Str → EchoState
built r = record { result = r; remaining = max_str_len - length r }

echo_append-built :
    (text r : Str)
    → length r + length text ≤ max_str_len
    → echo_append text (built r) ≡ some (built (r ++ text))
unfolding echo_append
echo_append-built text r fits =
    rw
      (
        strncat_fits (max_str_len + 1) r text (max_str_len - length r) (omega arith) (omega arith),
        size_sub_lem (max_str_len - length r) (length text) (omega arith) (omega arith),
      )
      (ap (λ n. some (record { result = r ++ text; remaining = n }))
        (omega (arith, length-append r text)))

full :
    (r rest : Str)
    → length r + length rest ≤ max_str_len
    → max_str_len - length r < 1
    → r ++ rest ≡ r
full r rest fits no_room = rw (nil_of_length-le-zero rest (omega arith)) (append-nil r)

echo_loop-built :
    (vars : Vars) (r : Str) {ts values : List Str}
    → Expands vars ts values
    → length r + length (join b' ' values) ≤ max_str_len
    → echo_loop vars (built r) ts ≡ some (r ++ join b' ' values)
unfolding echo_loop echo_space
echo_loop-built vars r nil fits = ap some (sym (append-nil r))
echo_loop-built vars r (cons {v = v} first nil) fits =
    elim (Bool-cases (ltb (max_str_len - length r) 1)) [
      | inl stop ↦ rw stop (ap some (sym (full r v fits (ltb→lt (max_str_len - length r) 1 stop))))
      | inr go_on ↦ rw (go_on, first, echo_append-built v r fits) refl
    ]
echo_loop-built vars r (cons {v = v} first (cons {v = u} {vs = us} next others)) fits =
    let rest = join b' ' (u ∷ us) in
    let long = length-append v (b' ' ∷ rest) in
    elim (Bool-cases (ltb (max_str_len - length r) 1)) [
      | inl stop ↦ absurd (omega (arith, long, ltb→lt (max_str_len - length r) 1 stop))
      | inr go_on ↦
          rw
            (
              go_on,
              first,
              echo_append-built v r (omega arith),
              echo_append-built (b' ' ∷ []) (r ++ v) (omega (arith, length-append r v)),
            )
            (echo_loop-built vars ((r ++ v) ++ b' ' ∷ []) (cons next others)
                (omega (arith, length-append (r ++ v) (b' ' ∷ []), length-append r v))
              ∙ ap some (append_assoc (r ++ v) (b' ' ∷ []) rest ∙ append_assoc r v (b' ' ∷ rest)))
    ]

-- `echo` prints the values of its arguments with a space between each two, and a newline,
-- whenever all of them can be expanded and the values and spaces take at most 128 bytes.
pub bn_echo_lem :
    (vars : Vars) (name : Str) {ts values : List Str}
    → Expands vars ts values
    → length (join b' ' values) ≤ max_str_len
    → bn_echo vars (name ∷ ts) ≡ some (printed (join b' ' values ++ b'\n' ∷ []))
unfolding bn_echo
bn_echo_lem vars name values fits = rw (echo_loop-built vars [] values (omega arith)) refl

abbrev wrapped : Str → EchoState
wrapped v = record { result = v; remaining = 2 ^ 64 - 1 }

space-full :
    (v : Str) → length v ≡ max_str_len → echo_append (b' ' ∷ []) (built v) ≡ some (wrapped v)
unfolding echo_append strncat size_sub
space-full v long = rw long (rw append-nil (ground arith))

append-wrapped :
    (v w : Str) → length v ≡ max_str_len → 0 < length w → echo_append w (wrapped v) ≡ none
unfolding echo_append strncat
append-wrapped v w long nonempty =
    let n = length-take (2 ^ 64 - 1) w in
    let over : ltb (length (v ++ take (2 ^ 64 - 1) w)) (max_str_len + 1) ≡ false =
      ge→ltb (length (v ++ take (2 ^ 64 - 1) w)) (max_str_len + 1)
        (omega (arith, n, length-append v (take (2 ^ 64 - 1) w))) in
    rw over refl

-- If the value of the first of at least two arguments takes all 128 bytes, `remaining` wraps at
-- the space behind it, and the value of the second, unless it is empty, is written behind the
-- buffer.
pub bn_echo_overflow :
    (vars : Vars) (name t u v w : Str) (ts : List Str)
    → expand_variables true vars (some t) ≡ some v
    → expand_variables true vars (some u) ≡ some w
    → length v ≡ max_str_len
    → 0 < length w
    → bn_echo vars (name ∷ t ∷ u ∷ ts) ≡ none
unfolding bn_echo echo_loop echo_space
bn_echo_overflow vars name t u v w ts first second long nonempty =
    rw
      (
        first,
        echo_append-built v [] (omega arith),
        space-full v long,
        second,
        append-wrapped v w long nonempty,
      )
      refl
