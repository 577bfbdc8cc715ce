-- ===== src/Expand/Meaning.antt =====
-- The text that a token stands for, and that `expand_variables` produces it where it fits.
use c_based_linux_shell.Prelude.{
  ℕ, ◌+◌, ◌-◌, ◌≤◌, ◌<◌, ◌≡◌, refl, ap, sym, inl, inr, Bool, true, false, some, List, [], ◌∷◌, ◌++◌,
  arith, ◌==◌, ltb, ==_iff, if◌then◌else◌, length, All, Bool-cases, append-nil, append_assoc,
  length-append, nil_of_length-le-zero,
}
use c_based_linux_shell.CString.{Str, max_str_len}
use c_based_linux_shell.CString.Compare.{strncat_fits, size_sub_lem}
use c_based_linux_shell.Variables.{Vars, find_val_with_key}
use c_based_linux_shell.Expand.{
  Expansion, append_text, push_char, dollar, flush, lone_dollar, expand_loop, expand_variables,
}

-- The text before the first `$`, and the names: what stands behind each `$`, up to the next.
abbrev pub head_piece : Str → Str
head_piece [] = []
head_piece (c ∷ cs) = let rest = head_piece cs in if c == b'$' then [] else c ∷ rest

abbrev pub names : Str → List Str
names [] = []
names (c ∷ cs) = let rest = names cs in if c == b'$' then head_piece cs ∷ rest else rest

-- Each name gives the value of its variable; a `$` at the very end gives itself.
abbrev pub values : Vars → List Str → Str
values vars [] = []
values vars (k ∷ []) = if length k == 0 then b'$' ∷ [] else find_val_with_key k vars
values vars (k ∷ l ∷ ks) = find_val_with_key k vars ++ values vars (l ∷ ks)

abbrev pub meaning : Vars → Str → Str
meaning vars s = head_piece s ++ values vars (names s)

abbrev pub IsShort : Str → Type 0
IsShort s = length s < max_str_len

-- The state with `array` built so far.
abbrev pub built : Str → Bool → Str → Expansion
built array taking name = record {
  array = array;
  remaining = max_str_len - length array;
  taking_var = taking;
  var_name = name;
}

-- What the loop still adds to the array.
abbrev to_add : Vars → Bool → Str → Str → Str
to_add vars true name cs = values vars ((name ++ head_piece cs) ∷ names cs)
to_add vars false name cs = (name ++ head_piece cs) ++ values vars (names cs)

pub append_text-built :
    (text array : Str) (taking : Bool) (name : Str)
    → length array + length text ≤ max_str_len
    → append_text text (built array taking name) ≡ some (built (array ++ text) taking name)
unfolding append_text
append_text-built text array taking name fits =
    rw
      (strncat_fits (max_str_len + 1) array text (max_str_len - length array) (omega arith)
        (omega arith))
      (ap
        (λ r.
          some
            (record { array = array ++ text; remaining = r; taking_var = taking; var_name = name }))
        (omega (
          arith,
          length-append array text,
          size_sub_lem (max_str_len - length array) (length text) (omega arith) (omega arith),
        )))

-- The end of the input.
flush-built :
    (vars : Vars) (array : Str) (taking : Bool) (name : Str)
    → length array + length (to_add vars taking name []) ≤ max_str_len
    → expand_loop vars (built array taking name) [] ≡ some (array ++ to_add vars taking name [])
unfolding expand_loop flush lone_dollar
flush-built vars array false [] fits = rw append-nil
flush-built vars array true [] fits = rw (append_text-built (b'$' ∷ []) array true [] (omega arith))
flush-built vars array false (x ∷ xs) fits =
    let fits' : length array + length (x ∷ xs) ≤ max_str_len =
      rw (append-nil, append-nil) at fits in
    ground (arith, append_text-built (x ∷ xs) array false (x ∷ xs) fits', append-nil xs)
flush-built vars array true (x ∷ xs) fits =
    let value = find_val_with_key (x ∷ xs) vars in
    let fits' : length array + length value ≤ max_str_len = ground (arith, append-nil xs) in
    ground (arith, append_text-built value array true (x ∷ xs) fits', append-nil xs)

-- One `$` moves what stands before it into the array.
dollar-built :
    (vars : Vars) (array : Str) (taking : Bool) (name : Str) (cs : Str)
    → length array + length (to_add vars taking name (b'$' ∷ cs)) ≤ max_str_len
    → (array' : Str) × (dollar vars (built array taking name) ≡ some (built array' true []))
      × (array ++ to_add vars taking name (b'$' ∷ cs) ≡ array' ++ to_add vars true [] cs)
unfolding dollar
dollar-built vars array false [] cs fits = (array, refl, refl)
dollar-built vars array false (x ∷ xs) cs fits =
    let fits' : length array + length (x ∷ xs) ≤ max_str_len =
      omega (
        arith,
        length-append (x ∷ (xs ++ [])) (to_add vars true [] cs),
        ap length (append-nil xs),
      ) in
    (
      array ++ x ∷ xs,
      ground (arith, append_text-built (x ∷ xs) array false (x ∷ xs) fits'),
      rw append-nil (sym (append_assoc array (x ∷ xs) (to_add vars true [] cs))),
    )
dollar-built vars array true name cs fits = elim (Bool-cases (length value == 0)) [
  | inl nothing ↦ (array, ground arith, rw (append-nil, nil_of_length-le-zero value (ground arith)))
  | inr text ↦
      let fits' : length array + length value ≤ max_str_len =
        omega (arith, length-append value (to_add vars true [] cs), rw append-nil at fits) in
      (
        array ++ value,
        ground (arith, append_text-built value array true name fits'),
        rw append-nil (sym (append_assoc array value (to_add vars true [] cs))),
      )
]
  where
    value : Str
    value = find_val_with_key name vars

-- A character other than `$` becomes a part of the name.
to_add-char :
    (vars : Vars) (taking : Bool) (name : Str) (c : ℕ) (cs : Str)
    → (c == b'$') ≡ false
    → to_add vars taking name (c ∷ cs) ≡ to_add vars taking (name ++ c ∷ []) cs
to_add-char vars true name c cs h = rw h (rw append_assoc)
to_add-char vars false name c cs h = rw h (simp append_assoc)

push_char-built :
    (c : ℕ) (array : Str) (taking : Bool) (name cs : Str)
    → (c == b'$') ≡ false
    → IsShort (name ++ head_piece (c ∷ cs))
    → push_char c (built array taking name) ≡ some (built array taking (name ++ c ∷ []))
unfolding push_char
push_char-built c array taking name cs h short =
    ground (arith, length-append name (c ∷ head_piece cs))

-- The loop from any of its states.
loop-built :
    (vars : Vars) (array : Str) (taking : Bool) (name cs : Str)
    → length array + length (to_add vars taking name cs) ≤ max_str_len
    → IsShort (name ++ head_piece cs)
    → All IsShort (names cs)
    → expand_loop vars (built array taking name) cs ≡ some (array ++ to_add vars taking name cs)
unfolding expand_loop
loop-built vars array taking name [] fits short shorts = flush-built vars array taking name fits
loop-built vars array taking name (c ∷ cs) fits short shorts =
    elim (Bool-cases (ltb (max_str_len - length array) 1)) [
      | inl full ↦
          rw (full, nil_of_length-le-zero (to_add vars taking name (c ∷ cs)) (ground arith))
            (rw append-nil)
      | inr room ↦ rw room (elim (Bool-cases (c == b'$')) [
        | inl sign ↦
            let e : c ≡ b'$' = (==_iff c b'$').0 sign in
            let (array', stepped, same) = dollar-built vars array taking name cs (rw e at fits) in
            rw e (
              rw (stepped, same)
                (loop-built vars array' true [] cs
                  (omega (
                    arith,
                    ap length same,
                    length-append array (to_add vars taking name (b'$' ∷ cs)),
                    length-append array' (to_add vars true [] cs),
                    rw e at fits,
                  ))
                  (rw e at shorts).0 (rw e at shorts).1))
        | inr other ↦
            rw
              (
                other,
                push_char-built c array taking name cs other short,
                to_add-char vars taking name c cs other,
              )
              (loop-built vars array taking (name ++ c ∷ []) cs
                (rw (to_add-char vars taking name c cs other) at fits)
                (rw append_assoc (rw other at short)) (rw other at shorts))
      ])
    ]

-- A token whose text fits in MAX_STR_LEN bytes, and whose pieces between the `$` signs fit in the
-- name buffer, is expanded to its text.
pub expand_variables-meaning :
    (vars : Vars) (s : Str)
    → IsShort (head_piece s)
    → All IsShort (names s)
    → length (meaning vars s) ≤ max_str_len
    → expand_variables true vars (some s) ≡ some (meaning vars s)
unfolding expand_variables
expand_variables-meaning vars s short shorts fits =
    loop-built vars [] false [] s (omega arith) short shorts
