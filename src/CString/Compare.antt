-- ===== src/CString/Compare.antt =====
-- What the comparisons of <string.h> decide.
use c_based_linux_shell.Prelude.{
  ℕ, ◌≤◌, ◌<◌, ◌+◌, ◌-◌, ◌^◌, ◌≡◌, refl, ◌↔◌, Bool, true, false, some, [], ◌∷◌, ◌++◌, arith, ◌==◌,
  length, length-append, take-eq_self, take, length-take, min, if◌then◌else◌,
}
use c_based_linux_shell.CString.{Str, strcmp_eq, strncmp_eq, strncat, size_sub}

pub strcmp_eq_iff : (a b : Str) → (strcmp_eq a b ≡ true) ↔ (a ≡ b)
unfolding strcmp_eq
strcmp_eq_iff (x ∷ a) (y ∷ b) = ground (arith, strcmp_eq_iff a b)
strcmp_eq_iff _ _ = ground arith

pub strcmp_eq_refl : (a : Str) → strcmp_eq a a ≡ true
strcmp_eq_refl a = (strcmp_eq_iff a a).1 refl

-- `strncmp(a, p, strlen(p)) == 0` is the test that `p` is a prefix of `a`.
unfoldable pub is_prefix : Str → Str → Bool
is_prefix [] a = true
is_prefix (x ∷ p) [] = false
is_prefix (x ∷ p) (y ∷ a) = if y == x then is_prefix p a else false

pub strncmp_eq-is_prefix : (a p : Str) → strncmp_eq a p (length p) ≡ is_prefix p a
unfolding strncmp_eq is_prefix
strncmp_eq-is_prefix a [] = refl
strncmp_eq-is_prefix [] (x ∷ p) = refl
strncmp_eq-is_prefix (y ∷ a) (x ∷ p) = ground (arith, strncmp_eq-is_prefix a p)

pub is_prefix_refl : (a : Str) → is_prefix a a ≡ true
unfolding is_prefix
is_prefix_refl [] = refl
is_prefix_refl (x ∷ a) = ground (arith, is_prefix_refl a)

pub is_prefix-append : (p r : Str) → is_prefix p (p ++ r) ≡ true
unfolding is_prefix
is_prefix-append [] r = refl
is_prefix-append (x ∷ p) r = ground (arith, is_prefix-append p r)

-- A prefix of the same length is the whole.
pub eq_of_is_prefix : (p a : Str) → is_prefix p a ≡ true → length a ≡ length p → p ≡ a
unfolding is_prefix
eq_of_is_prefix [] [] h e = refl
eq_of_is_prefix [] (y ∷ a) h e = absurd (omega arith)
eq_of_is_prefix (x ∷ p) [] h e = absurd (omega arith)
eq_of_is_prefix (x ∷ p) (y ∷ a) h e = ground (arith, eq_of_is_prefix p a)

pub strncat_fits :
    (cap : ℕ) (dst src : Str) (n : ℕ)
    → length src ≤ n
    → length dst + length src < cap
    → strncat cap dst src n ≡ some (dst ++ src)
unfolding strncat
strncat_fits cap dst src n fits room =
    ground (arith, take-eq_self n src fits, length-append dst src)

pub size_sub_lem : (a b : ℕ) → b ≤ a → a < 2 ^ 64 → size_sub a b ≡ a - b
unfolding size_sub
size_sub_lem a b h k = omega arith

-- Where only a part of `src` is copied.
pub strncat-take :
    (cap : ℕ) (dst src : Str) (n : ℕ)
    → length dst + min n (length src) < cap
    → strncat cap dst src n ≡ some (dst ++ take n src)
unfolding strncat
strncat-take cap dst src n room = ground (arith, length-append dst (take n src), length-take n src)
