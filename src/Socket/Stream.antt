-- ===== src/Socket/Stream.antt =====
-- A byte stream has one reading as messages, however it is cut into pieces.
use c_based_linux_shell.Prelude.{
  ℕ, zero, suc, ◌+◌, ◌<◌, ◌≡◌, ◌∙◌, ap, inl, inr, true, List, [], ◌∷◌, ◌++◌, arith, length,
  append_assoc, length-append,
}
use c_based_linux_shell.CString.{Str}
use c_based_linux_shell.Socket.{cr, lf, drain, messages}
use c_based_linux_shell.Socket.Newline.{no_crlf, get_message-encode, get_message-none, splits?}

-- The messages of `buf`, and the bytes behind the last network newline.
pub data Frames : Str → List Str → Str → Type 0 where
  last : {buf : Str} → no_crlf buf ≡ true → Frames buf [] buf
  next :
      {buf m rest end : Str} {ms : List Str}
      → buf ≡ m ++ cr ∷ lf ∷ rest
      → no_crlf m ≡ true
      → Frames rest ms end
      → Frames buf (m ∷ ms) end

-- The loop finds the frames of the buffer.
pub drain-Frames :
    {buf end : Str} {ms : List Str} (fuel : ℕ)
    → length buf < fuel
    → Frames buf ms end
    → drain fuel buf ≡ (ms, end)
unfolding drain
drain-Frames zero h f = absurd (omega arith)
drain-Frames (suc fuel) h (last {buf = buf} clean) = rw (get_message-none buf clean, drain)
drain-Frames (suc fuel) h (next {buf = buf} {m = m} {rest = rest} {end = end} {ms = ms} e clean f) =
    let short : length rest < fuel = omega (arith, ap length e, length-append m (cr ∷ lf ∷ rest)) in
    rw e (rw (get_message-encode m rest clean, drain) (rw (drain-Frames fuel short f)))

frames :
    (fuel : ℕ) (buf : Str) → length buf < fuel → (ms : List Str) × (end : Str) × Frames buf ms end
frames zero buf h = absurd (omega arith)
frames (suc fuel) buf h = elim (splits? buf) [
  | inl clean ↦ ([], buf, last clean)
  | inr s ↦
      let short : length s.rest < fuel =
        omega (arith, ap length s.parts, length-append s.message (cr ∷ lf ∷ s.rest)) in
      let (ms, end, f) = frames fuel s.rest short in (s.message ∷ ms, end, next s.parts s.first f)
]

pub messages-Frames : (buf : Str) → Frames buf (messages buf).0 (messages buf).1
unfolding messages
messages-Frames buf =
    let (ms, end, f) = frames (length buf + 1) buf (omega arith) in
    rw (drain-Frames (length buf + 1) (omega arith) f) f

pub Frames-messages : {buf end : Str} {ms : List Str} → Frames buf ms end → messages buf ≡ (ms, end)
unfolding messages
Frames-messages {buf} f = drain-Frames (length buf + 1) (omega arith) f

pub no_crlf-Frames : {buf end : Str} {ms : List Str} → Frames buf ms end → no_crlf end ≡ true
no_crlf-Frames (last clean) = clean
no_crlf-Frames (next e clean f) = no_crlf-Frames f

-- More bytes are read on from what was left.
Frames-append :
    {b end end' : Str} {ms ms' : List Str} (c : Str)
    → Frames b ms end
    → Frames (end ++ c) ms' end'
    → Frames (b ++ c) (ms ++ ms') end'
Frames-append c (last clean) g = g
Frames-append c (next {m = m} {rest = rest} e clean f) g =
    next (ap (λ (b : Str). b ++ c) e ∙ append_assoc m (cr ∷ lf ∷ rest) c) clean
      (Frames-append c f g)

-- The messages of a buffer, and then those of what it left with more bytes behind it, are the
-- messages of all the bytes: nothing is lost, repeated or cut in two where the bytes arrive in
-- pieces.
pub messages-append :
    (b c : Str)
    → messages (b ++ c)
      ≡ ((messages b).0 ++ (messages ((messages b).1 ++ c)).0, (messages ((messages b).1 ++ c)).1)
messages-append b c =
    Frames-messages (Frames-append c (messages-Frames b) (messages-Frames ((messages b).1 ++ c)))
