-- ===== src/Client/Reading.antt =====
-- The readings of a line, and the pieces that they cut it into.
use c_based_linux_shell.Prelude.{
  ℕ, zero, suc, ◌+◌, ◌-◌, ◌≤◌, ◌<◌, ◌≡◌, refl, ap, sym, ◌∙◌, inl, inr, true, false, List, [], ◌∷◌,
  ◌++◌, ◌==◌, arith, ltb, ltb→lt, ltb→ge, if◌then◌else◌, length, take, drop, All, Bool-cases,
  append_assoc, append-nil, length-append, take-append, take-append-drop, length-take, length-drop,
  le→leb,
}
use mathlib.Core.Path.{subst}
use c_based_linux_shell.CString.{Str}
use c_based_linux_shell.CString.Lines.{IsText, fgets-full, fgets-line}
use c_based_linux_shell.Socket.{max_user_msg, lf}
use c_based_linux_shell.Socket.Newline.{encode, no_crlf}
use c_based_linux_shell.Socket.Receive.{joined}
use c_based_linux_shell.Client.{io_buf_size, last_byte, sends, end_line, end_read, type_line}

last_byte-append : (c : ℕ) (m : Str) (d : ℕ) → last_byte c (m ++ d ∷ []) ≡ d
last_byte-append c [] d = refl
last_byte-append c (e ∷ m) d = last_byte-append e m d

-- What becomes of a reading with a last byte.
pub end_read-append :
    (m rest : Str) (d : ℕ)
    → length m ≤ max_user_msg
    → end_read (m ++ d ∷ []) rest
      ≡ (if d == lf then sends (encode m) rest false else sends (encode m) (d ∷ rest) true)
unfolding end_line
end_read-append [] rest d short = refl
end_read-append (c ∷ m) rest d short =
    let n : length (m ++ d ∷ []) + 1 - 1 ≡ length (c ∷ m) =
      omega (arith, length-append m (d ∷ [])) in
    let cut : take (length (m ++ d ∷ []) + 1 - 1) (c ∷ m ++ d ∷ []) ≡ c ∷ m =
      rw n (take-append (c ∷ m) (d ∷ [])) in
    rw
      (
        last_byte-append c m d,
        cut,
        le→leb (length (m ++ d ∷ []) + 1 + 1) io_buf_size (omega (arith, length-append m (d ∷ []))),
      )
      refl

-- The last reading of a line, and one before.
pub type_line-last :
    (t rest : Str)
    → All IsText t
    → length t ≤ max_user_msg
    → type_line (t ++ lf ∷ rest) ≡ sends (encode t) rest false
unfolding type_line
type_line-last t rest text short =
    rw (fgets-line (io_buf_size - 1) t rest text (omega arith)) (end_read-append t rest lf short)

pub All-append : (m t : Str) → All IsText (m ++ t) → All IsText m × All IsText t
All-append [] t text = (tt, text)
All-append (c ∷ m) t (here, text) =
    let (front, behind) = All-append m t text in ((here, front), behind)

pub type_line-more :
    (m : Str) (d : ℕ) (rest : Str)
    → All IsText (m ++ d ∷ [])
    → length m ≡ max_user_msg
    → type_line (m ++ d ∷ rest) ≡ sends (encode m) (d ∷ rest) true
unfolding type_line
type_line-more m d rest text full =
    let read = rw (append_assoc m (d ∷ []) rest) at (
      fgets-full (io_buf_size - 1) (m ++ d ∷ []) rest text
        (omega (arith, length-append m (d ∷ [])))) in
    let (front, (here, _)) = All-append m (d ∷ []) text in
    rw read (end_read-append m rest d (omega arith) ∙ rw here refl)

-- The pieces of a line: all but the last have MAX_USER_MSG bytes.
pub data Pieces : Str → List Str → Type 0 where
  last : {t : Str} → length t ≤ max_user_msg → Pieces t (t ∷ [])
  more :
      {m t : Str} {d : ℕ} {ms : List Str}
      → length m ≡ max_user_msg
      → Pieces (d ∷ t) ms
      → Pieces (m ++ d ∷ t) (m ∷ ms)

-- Every line has pieces.
pub cut-Pieces : (fuel : ℕ) (t : Str) → length t < fuel → (ms : List Str) × Pieces t ms
cut-Pieces zero t short = absurd (omega arith)
cut-Pieces (suc fuel) t short = elim (Bool-cases (ltb max_user_msg (length t))) [
  | inr fits ↦ (t ∷ [], last (ltb→ge max_user_msg (length t) fits))
  | inl long ↦ go (cut-Pieces fuel) (ltb→lt max_user_msg (length t) long) (drop max_user_msg t) refl
]
  where
    go :
        ((u : Str) → length u < fuel → (ms : List Str) × Pieces u ms)
        → max_user_msg < length t
        → (rest : Str) → drop max_user_msg t ≡ rest
        → (ms : List Str) × Pieces t ms
    go cut long [] e =
        let none_left = ap length e in
        absurd (omega (arith, long, none_left, length-drop max_user_msg t))
    go cut long (d ∷ u) e =
        let size = ap length e in
        let (ms, pieces) = cut (d ∷ u) (omega (arith, long, size, length-drop max_user_msg t)) in
        let whole : take max_user_msg t ++ d ∷ u ≡ t =
          ap (◌++◌ (take max_user_msg t)) (sym e) ∙ take-append-drop max_user_msg t in
        let full : length (take max_user_msg t) ≡ max_user_msg =
          omega (arith, long, length-take max_user_msg t) in
        let all : Pieces (take max_user_msg t ++ d ∷ u) (take max_user_msg t ∷ ms) =
          more full pieces in
        (take max_user_msg t ∷ ms, subst (λ x. Pieces x (take max_user_msg t ∷ ms)) whole all)

pub Pieces-joined : {t : Str} {ms : List Str} → Pieces t ms → joined ms ≡ t
Pieces-joined (last {t = t} short) = append-nil t
Pieces-joined (more {m = m} full pieces) = ap (◌++◌ m) (Pieces-joined pieces)

pub Pieces-short : {t : Str} {ms : List Str} → Pieces t ms → All (λ m. length m ≤ max_user_msg) ms
Pieces-short (last short) = (short, tt)
Pieces-short (more full pieces) = (omega arith, Pieces-short pieces)

Text-no_crlf : (m : Str) → All IsText m → no_crlf m ≡ true
Text-no_crlf [] text = refl
Text-no_crlf (c ∷ []) text = refl
Text-no_crlf (c ∷ d ∷ m) (here, (next, text)) = ground (arith, Text-no_crlf (d ∷ m) (next, text))

pub Pieces-no_crlf :
    {t : Str} {ms : List Str} → All IsText t → Pieces t ms → All (λ m. no_crlf m ≡ true) ms
Pieces-no_crlf text (last {t = t} short) = (Text-no_crlf t text, tt)
Pieces-no_crlf text (more {m = m} {t = t} {d = d} full pieces) =
    let (front, behind) = All-append m (d ∷ t) text in
    (Text-no_crlf m front, Pieces-no_crlf behind pieces)
