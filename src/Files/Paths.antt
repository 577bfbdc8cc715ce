-- ===== src/Files/Paths.antt =====
-- The paths of `cd`, `cat` and `wc`, from the pieces of the argument.
use c_based_linux_shell.Prelude.{
  ℕ, ◌+◌, ◌-◌, ◌^◌, ◌≤◌, ◌<◌, ◌≡◌, refl, ap, sym, ◌∙◌, Bool, true, Option, some, none, List, [],
  ◌∷◌, ◌++◌, arith, if◌then◌else◌, length, take, lt→ltb, ge→ltb, le→leb, append-nil, append_assoc,
  length-append, length-take, take-append_split,
}
use c_based_linux_shell.CString.{Str, max_str_len, contains, size_sub}
use c_based_linux_shell.CString.Compare.{strncat_fits, strncat-take, size_sub_lem}
use c_based_linux_shell.CString.Tokens.{words, join, strtok_all-words}
use c_based_linux_shell.Variables.{Vars}
use c_based_linux_shell.Files.{
  buffer_size, slash, path_append, piece_value, file_loop, file_path, cd_value, cd_slash, cd_loop,
  moved, invalid_path, lead, bn_cd,
}

-- The values of the pieces, by a function that may fault.
pub data Values (value : Str → Option Str) : List Str → List Str → Type 0 where
  nil : Values value [] []
  cons :
      {piece v : Str} {pieces vs : List Str}
      → value piece ≡ some v
      → Values value pieces vs
      → Values value (piece ∷ pieces) (v ∷ vs)

-- Of a path that is cut to a size, the next text is cut too.
path_append-take :
    (size : ℕ) (f text : Str)
    → size < 2 ^ 64
    → path_append (size + 1) (take size f) text ≡ some (take size (f ++ text))
unfolding path_append
path_append-take size f text small =
    let n = length-take size f in
    let e : size_sub (size + 1 - 1) (length (take size f)) ≡ size - length f =
      size_sub_lem (size + 1 - 1) (length (take size f)) (omega (arith, n)) (omega arith)
      ∙ omega (arith, n) in
    rw (e, strncat-take (size + 1) (take size f) text (size - length f) (omega (arith, n)))
      (ap some (sym (take-append_split size f text)))

file_loop-take :
    (vars : Vars) (f : Str) {pieces values : List Str}
    → Values (piece_value vars) pieces values
    → file_loop vars (take buffer_size f) pieces ≡ some (take buffer_size (f ++ join b'/' values))
unfolding file_loop
file_loop-take vars f nil = ap (λ k. some (take buffer_size k)) (sym (append-nil f))
file_loop-take vars f (cons {v = v} first nil) =
    rw first (path_append-take buffer_size f v (omega arith))
file_loop-take vars f (cons {v = v} first (cons {v = u} {vs = us} next others)) =
    rw
      (
        first,
        path_append-take buffer_size f v (omega arith),
        path_append-take buffer_size (f ++ v) slash (omega arith),
      )
      (file_loop-take vars ((f ++ v) ++ slash) (cons next others)
        ∙ ap (λ k. some (take buffer_size k))
            (append_assoc (f ++ v) slash (join b'/' (u ∷ us))
              ∙ append_assoc f v (b'/' ∷ join b'/' (u ∷ us))))

-- A path of at least two bytes with a `$` in it, for `cat` and `wc`, whose pieces can all be
-- expanded, is put together from the values of its pieces with a `/` between each two, whether
-- or not the path begins with one, and cut to BUFFERSIZE bytes: never more is written.
pub file_path_lem :
    (vars : Vars) (path : Str) {values : List Str}
    → contains path b'$' ≡ true
    → 2 ≤ length path
    → Values (piece_value vars) (words slash path) values
    → file_path vars path ≡ some (take buffer_size (join b'/' values))
unfolding file_path
file_path_lem vars path sign long values =
    rw
      (
        sign,
        le→leb 2 (length path) long,
        strtok_all-words slash (length path + 1) path (omega arith),
      )
      (file_loop-take vars [] values)

-- `cd`, with the texts that fit.
path_append-fits :
    (f text : Str)
    → length f + length text ≤ max_str_len
    → path_append (max_str_len + 1) f text ≡ some (f ++ text)
unfolding path_append
path_append-fits f text fits =
    rw (size_sub_lem (max_str_len + 1 - 1) (length f) (omega arith) (omega arith)) (
      strncat_fits (max_str_len + 1) f text (max_str_len + 1 - 1 - length f) (omega arith)
        (omega arith))

cd_slash-fits : (f : Str) → length f + 1 ≤ max_str_len → cd_slash f ≡ some (f ++ slash)
unfolding cd_slash
cd_slash-fits f fits = rw (lt→ltb (length f + 1) (max_str_len + 1) (omega arith)) refl

cd_loop-fits :
    (sign : Bool) (vars : Vars) (f : Str) {pieces values : List Str}
    → Values (cd_value sign vars) pieces values
    → length f + length (join b'/' values) ≤ max_str_len
    → cd_loop sign vars f pieces ≡ some (f ++ join b'/' values)
unfolding cd_loop
cd_loop-fits sign vars f nil fits = ap some (sym (append-nil f))
cd_loop-fits sign vars f (cons {v = v} first nil) fits = rw first (path_append-fits f v fits)
cd_loop-fits sign vars f (cons {v = v} first (cons {v = u} {vs = us} next others)) fits =
    let rest = join b'/' (u ∷ us) in
    let long = length-append v (b'/' ∷ rest) in
    let long' = length-append f v in
    rw
      (
        first,
        path_append-fits f v (omega (arith, long)),
        cd_slash-fits (f ++ v) (omega (arith, long, long')),
      )
      (cd_loop-fits sign vars ((f ++ v) ++ slash) (cons next others)
          (omega (arith, long, long', length-append (f ++ v) slash))
        ∙ ap some (append_assoc (f ++ v) slash rest ∙ append_assoc f v (b'/' ∷ rest)))

-- `cd` changes to the path of the values of its argument's pieces, `...` and `....` replaced,
-- with a `/` between each two and in front if the argument begins with one, where all pieces can
-- be expanded and that path takes at most MAX_STR_LEN bytes.
pub bn_cd_lem :
    (chdir : Str → Bool) (vars : Vars) (name path : Str) {values : List Str}
    → Values (cd_value (contains path b'$') vars) (words slash path) values
    → length (lead path) + length (join b'/' values) ≤ max_str_len
    → bn_cd chdir vars (name ∷ path ∷ [])
      ≡ some (
          if chdir (lead path ++ join b'/' values)
          then moved (lead path ++ join b'/' values)
          else invalid_path (lead path ++ join b'/' values))
unfolding bn_cd
bn_cd_lem chdir vars name path values fits =
    rw
      (
        strtok_all-words slash (length path + 1) path (omega arith),
        cd_loop-fits (contains path b'$') vars (lead path) values fits,
      )
      refl

-- If the value of the first of at least two pieces, with the `/` in front of it if there is one,
-- takes all MAX_STR_LEN bytes, the `/` behind it is written behind the array.
pub bn_cd_overflow :
    (chdir : Str → Bool) (vars : Vars) (name path v : Str) (first next : Str) (pieces : List Str)
    → words slash path ≡ first ∷ next ∷ pieces
    → cd_value (contains path b'$') vars first ≡ some v
    → length (lead path) + length v ≡ max_str_len
    → bn_cd chdir vars (name ∷ path ∷ []) ≡ none
unfolding bn_cd cd_loop cd_slash
bn_cd_overflow chdir vars name path v first next pieces split value long =
    rw
      (
        strtok_all-words slash (length path + 1) path (omega arith),
        split,
        value,
        path_append-fits (lead path) v (omega (arith, long)),
        ge→ltb (length (lead path ++ v) + 1) (max_str_len + 1)
            (omega (arith, long, length-append (lead path) v)),
      )
      refl
