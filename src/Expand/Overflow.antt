-- ===== src/Expand/Overflow.antt =====
-- Where the count of remaining bytes wraps, `expand_variables` writes behind its array.
use c_based_linux_shell.Prelude.{
  ℕ, ◌+◌, ◌*◌, ◌≤◌, ◌<◌, ◌≡◌, ◌∙◌, true, false, none, some, [], ◌∷◌, ◌++◌, arith, length,
  append-nil, append_assoc, length-append, length-take, take, min,
}
use c_based_linux_shell.CString.{Str, max_str_len, strncat, size_sub, contains}
use c_based_linux_shell.Variables.{Vars, find_val_with_key}
use c_based_linux_shell.Expand.{
  Expansion, append_text, push_char, dollar, flush, expand_loop, expand_variables,
}

-- The state behind a `$`.
abbrev taking : Str → ℕ → Str → Expansion
taking array remaining name = record {
  array = array;
  remaining = remaining;
  taking_var = true;
  var_name = name;
}

-- The loop reads a name into its buffer.
loop-name :
    (vars : Vars) (array : Str) (remaining : ℕ) (name k rest : Str)
    → 0 < remaining
    → contains k b'$' ≡ false
    → length name + length k < max_str_len
    → expand_loop vars (taking array remaining name) (k ++ rest)
      ≡ expand_loop vars (taking array remaining (name ++ k)) rest
unfolding expand_loop push_char contains
loop-name vars array remaining name [] rest pos clean short = rw append-nil
loop-name vars array remaining name (c ∷ k) rest pos clean short = ground (
  arith,
  loop-name vars array remaining (name ++ c ∷ []) k rest,
  length-append name (c ∷ []),
  append_assoc name (c ∷ []) k,
)

-- A `$` behind a name with a value appends as much of the value as is said to remain.
dollar-value :
    (vars : Vars) (array : Str) (remaining : ℕ) (k : Str)
    → 0 < length (find_val_with_key k vars)
    → length array + min remaining (length (find_val_with_key k vars)) ≤ max_str_len
    → dollar vars (taking array remaining k)
      ≡ some (
          taking
            (array ++ take remaining (find_val_with_key k vars))
            (size_sub remaining (length (find_val_with_key k vars)))
            [])
unfolding dollar append_text strncat
dollar-value vars array remaining k text room = ground (
  arith,
  length-append array (take remaining (find_val_with_key k vars)),
  length-take remaining (find_val_with_key k vars),
)

module _ (vars : Vars) (k : Str) (clean : contains k b'$' ≡ false) (ne : 0 < length k)
    (short : length k < max_str_len) where
  -- One more `$name`, with its value appended.
  loop-dollar :
      (array rest : Str) (remaining : ℕ)
      → 0 < remaining
      → 0 < length (find_val_with_key k vars)
      → length array + min remaining (length (find_val_with_key k vars)) ≤ max_str_len
      → expand_loop vars (taking array remaining []) (k ++ b'$' ∷ rest)
        ≡ expand_loop vars
            (taking
              (array ++ take remaining (find_val_with_key k vars))
              (size_sub remaining (length (find_val_with_key k vars)))
              [])
            rest
  unfolding expand_loop
  loop-dollar array rest remaining pos text room =
      loop-name vars array remaining [] k (b'$' ∷ rest) pos clean (omega arith)
      ∙ ground (arith, dollar-value vars array remaining k text room)

  -- The last name, with an array that is full and a count that is not.
  loop-last :
      (array : Str) (remaining : ℕ)
      → length array ≡ max_str_len
      → 0 < remaining
      → 0 < length (find_val_with_key k vars)
      → expand_loop vars (taking array remaining []) (k ++ []) ≡ none
  unfolding expand_loop flush append_text strncat
  loop-last array remaining full pos text =
      loop-name vars array remaining [] k [] pos clean (omega arith)
      ∙ ground (
        arith,
        length-append array (take remaining (find_val_with_key k vars)),
        length-take remaining (find_val_with_key k vars),
      )

  -- A value of 65 to 127 bytes, used three times in one token, is written behind the array.
  pub expand_variables_overflow :
      max_str_len < 2 * length (find_val_with_key k vars)
      → length (find_val_with_key k vars) < max_str_len
      → expand_variables true vars (some (b'$' ∷ (k ++ b'$' ∷ (k ++ b'$' ∷ (k ++ []))))) ≡ none
  unfolding expand_variables size_sub
  expand_variables_overflow long fits =
      loop-dollar [] (k ++ b'$' ∷ (k ++ [])) max_str_len (omega arith) (omega arith) (omega arith)
      ∙ loop-dollar array₁ (k ++ []) remaining₁ (omega arith) (omega arith)
          (omega (arith, length-take max_str_len value))
      ∙ loop-last array₂ (size_sub remaining₁ (length value))
          (omega (
            arith,
            length-append array₁ (take remaining₁ value),
            length-take max_str_len value,
            length-take remaining₁ value,
          ))
          (omega arith) (omega arith)
    where
      value : Str
      value = find_val_with_key k vars

      array₁ : Str
      array₁ = take max_str_len value

      remaining₁ : ℕ
      remaining₁ = size_sub max_str_len (length value)

      array₂ : Str
      array₂ = array₁ ++ take remaining₁ value
