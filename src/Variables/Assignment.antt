-- ===== src/Variables/Assignment.antt =====
-- What `find_key`, `find_value` and `is_valid_varname` make of a token.
use c_based_linux_shell.Prelude.{
  ℕ, ◌-◌, ◌≡◌, ◌↔◌, ◌⊎◌, inl, inr, ◌∙◌, refl, ap, true, false, some, [], ◌∷◌, ◌++◌, arith, length,
  take, length-append, take-append, all,
}
use c_based_linux_shell.CString.{Str, strchr, contains, is_alpha, is_digit}
use c_based_linux_shell.Variables.{
  Checked, owned, find_key, find_value, is_valid_varname, valid_key, is_start, is_rest,
}

-- `strchr` stops at the first occurrence.
pub strchr-append :
    (k rest : Str) (c : ℕ) → contains k c ≡ false → strchr (k ++ c ∷ rest) c ≡ some (c ∷ rest)
unfolding strchr contains
strchr-append [] rest c h = ground arith
strchr-append (x ∷ k) rest c h = ground (arith, strchr-append k rest c)

take-before : (k rest : Str) → take (length (k ++ rest) - length rest) (k ++ rest) ≡ k
take-before k rest =
    ap (λ n. take n (k ++ rest)) (omega (arith, length-append k rest)) ∙ take-append k rest

-- `name=value` is taken apart at its first sign, into new strings; whatever stands behind the sign
-- is the value, further signs included.
pub find_key_value :
    (k v : Str)
    → contains k b'=' ≡ false
    → (find_key true (some (k ++ b'=' ∷ v)) ≡ owned k)
      × (find_value true (some (k ++ b'=' ∷ v)) ≡ some v)
unfolding find_key find_value
find_key_value k v h = (
  rw (strchr-append k v b'=' h, find_key) (ap owned (take-before k (b'=' ∷ v))),
  rw (strchr-append k v b'=' h, find_value),
)

-- The names of variables: a letter or `_`, then letters, digits and `_`.
pub data IsRest : Str → Type 0 where
  nil : IsRest []
  letter : {c : ℕ} {cs : Str} → is_alpha c ≡ true → IsRest cs → IsRest (c ∷ cs)
  digit : {c : ℕ} {cs : Str} → is_digit c ≡ true → IsRest cs → IsRest (c ∷ cs)
  underscore : {c : ℕ} {cs : Str} → c ≡ b'_' → IsRest cs → IsRest (c ∷ cs)

pub data IsName : Str → Type 0 where
  letter : {c : ℕ} {cs : Str} → is_alpha c ≡ true → IsRest cs → IsName (c ∷ cs)
  underscore : {c : ℕ} {cs : Str} → c ≡ b'_' → IsRest cs → IsName (c ∷ cs)

IsRest→all : {s : Str} → IsRest s → all is_rest s ≡ true
IsRest→all nil = refl
IsRest→all (letter h r) = ground (arith, IsRest→all r)
IsRest→all (digit h r) = ground (arith, IsRest→all r)
IsRest→all (underscore h r) = ground (arith, IsRest→all r)

is_rest-cases : (c : ℕ) → is_rest c ≡ true → (is_alpha c ≡ true) ⊎ (is_digit c ≡ true) ⊎ (c ≡ b'_')
is_rest-cases c h = ground arith

all→IsRest : (s : Str) → all is_rest s ≡ true → IsRest s
all→IsRest [] h = nil
all→IsRest (c ∷ cs) h =
    let rest = all→IsRest cs (ground arith) in
    elim (is_rest-cases c (ground arith)) [
      | inl p ↦ IsRest.letter p rest
      | inr (inl p) ↦ IsRest.digit p rest
      | inr (inr p) ↦ IsRest.underscore p rest
    ]

is_start-cases : (c : ℕ) → is_start c ≡ true → (is_alpha c ≡ true) ⊎ (c ≡ b'_')
is_start-cases c h = ground arith

IsName-valid_key : (k : Str) → valid_key k ≡ true → IsName k
IsName-valid_key [] h = cc
IsName-valid_key (c ∷ cs) h =
    let rest = all→IsRest cs (ground arith) in
    elim (is_start-cases c (ground arith)) [
      | inl p ↦ IsName.letter p rest
      | inr p ↦ IsName.underscore p rest
    ]

valid_key_of_IsName : {k : Str} → IsName k → valid_key k ≡ true
valid_key_of_IsName (letter h r) = ground (arith, IsRest→all r)
valid_key_of_IsName (underscore h r) = ground (arith, IsRest→all r)

-- With memory at hand, `name=value` is found valid exactly if the name is a letter or `_` followed
-- by letters, digits and `_`; and the check does not free the token.
pub is_valid_varname_lem :
    (k v : Str)
    → contains k b'=' ≡ false
    → (r : Checked) × (is_valid_varname true (some (k ++ b'=' ∷ v)) ≡ some r)
      × (r.freed_argument ≡ false)
      × ((r.valid ≡ true) ↔ IsName k)
unfolding is_valid_varname
is_valid_varname_lem k v h = (
  record { valid = valid_key k; freed_argument = false },
  rw ((find_key_value k v h).0, is_valid_varname),
  refl,
  (IsName-valid_key k, valid_key_of_IsName),
)
