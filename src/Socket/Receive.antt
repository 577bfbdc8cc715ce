-- ===== src/Socket/Receive.antt =====
-- `read_from_socket` on every branch, and a row of reads as the chat client makes them.
use c_based_linux_shell.Prelude.{
  ℕ, ◌+◌, ◌≤◌, ◌<◌, ◌≡◌, ◌≢◌, ◌∙◌, refl, ap, sym, inl, inr, true, false, Option, none, some, List,
  [], ◌∷◌, ◌++◌, arith, leb, length, All, append-nil, append_assoc, length-append, ◌>>=◌,
}
use c_based_linux_shell.CString.{Str}
use c_based_linux_shell.Socket.{
  buf_size, cr, lf, newline_from, find_network_newline, ReadStatus, closed, failed, complete,
  partial, read_room, read_from_socket, scan, client_read, client_answer, messages,
}
use c_based_linux_shell.Prelude.{map}
use c_based_linux_shell.Socket.Newline.{
  no_crlf, encode, newline_from-none, newline_from-encode, Splits, splits?,
}
use c_based_linux_shell.Socket.Stream.{
  Frames, last, next, messages-append, messages-Frames, no_crlf-Frames, Frames-messages,
}

-- What `read` documents: it gives no more bytes than are asked for.
abbrev pub Delivers : (ℕ → Option Str) → Type 0
Delivers recv = (n : ℕ) (bytes : Str) → recv n ≡ some bytes → length bytes ≤ n

-- What each result says of the buffer `buf'` that `buf` has become.
abbrev pub Means : Str → Str → ReadStatus → Type 0
Means buf buf' closed = buf' ≡ buf
Means buf buf' failed = buf' ≡ buf
Means buf buf' complete = Splits buf'
Means buf buf' partial = no_crlf buf' ≡ true

scan-partial : (buf : Str) → no_crlf buf ≡ true → scan buf ≡ partial
unfolding scan find_network_newline
scan-partial buf clean = rw (newline_from-none 0 buf clean, scan)

scan-complete : (buf : Str) → Splits buf → scan buf ≡ complete
unfolding scan find_network_newline
scan-complete buf s =
    let found : newline_from 0 buf ≡ some (0 + length s.message + 2) =
      rw s.parts (newline_from-encode 0 s.message s.rest s.first) in
    rw (found, scan)

-- A scan of the buffer tells the two apart.
scan-Means : (buf buf' : Str) → Means buf buf' (scan buf')
scan-Means buf buf' = elim (splits? buf') [
  | inl clean ↦ rw (scan-partial buf' clean) clean
  | inr s ↦ rw (scan-complete buf' s) s
]

client_answer-scan : (buf : Str) → client_answer (scan buf) buf ≡ some (messages buf)
unfolding client_answer
client_answer-scan buf = elim (splits? buf) [
  | inl clean ↦ rw (scan-partial buf clean)
  | inr s ↦ rw (scan-complete buf s)
]

module _ (recv : ℕ → Option Str) (delivers : Delivers recv) (buf : Str)
    (fits : length buf < buf_size) where
  -- Over a socket that gives no more than it is asked for, a buffer within its bounds stays so; a
  -- closed or failed read changes nothing, a complete one leaves a network newline in the buffer,
  -- and a partial one leaves none.
  pub read_from_socket-Means :
      Means buf (read_from_socket recv buf).1 (read_from_socket recv buf).0
      × (length (read_from_socket recv buf).1 < buf_size)
  unfolding read_from_socket
  read_from_socket-Means = go (recv (read_room buf)) refl
    where
      go :
          (answer : Option Str)
          → recv (read_room buf) ≡ answer
          → Means buf (read_from_socket recv buf).1 (read_from_socket recv buf).0
            × (length (read_from_socket recv buf).1 < buf_size)
      go none e = rw (e, read_from_socket) (refl, fits)
      go (some []) e = rw (e, read_from_socket) (refl, fits)
      go (some (c ∷ cs)) e =
          let given = delivers (read_room buf) (c ∷ cs) e in
          let short : length (buf ++ c ∷ cs) < buf_size =
            ground (arith, length-append buf (c ∷ cs)) in
          let room : leb buf_size (length (buf ++ c ∷ cs)) ≡ false = ground arith in
          rw (e, read_from_socket) (rw room (scan-Means buf (buf ++ c ∷ cs), short))

  -- A buffer that is full without a network newline reads as closed, not as the error that the
  -- comment on the function announces.
  pub read_from_socket_full :
      length buf + 1 ≡ buf_size
      → recv (read_room buf) ≢ none
      → read_from_socket recv buf ≡ (closed, buf)
  unfolding read_from_socket
  read_from_socket_full full answers = go (recv (read_room buf)) refl
    where
      go :
          (answer : Option Str)
          → recv (read_room buf) ≡ answer
          → read_from_socket recv buf ≡ (closed, buf)
      go none e = absurd (answers e)
      go (some []) e = rw (e, read_from_socket)
      go (some (c ∷ cs)) e = absurd (ground (arith, delivers (read_room buf) (c ∷ cs) e))

-- A row of readings, each with one piece of the stream.
abbrev pub read_all : Str → List Str → Option (List Str × Str)
read_all buf [] = some ([], buf)
read_all buf (piece ∷ pieces) = client_read (λ _. some piece) buf >>= λ r.
    read_all r.1 pieces >>= λ r'. some (r.0 ++ r'.0, r'.1)

-- Each piece has a byte, and fits behind what the buffer holds when it arrives.
abbrev pub FitInTurn : Str → List Str → Type 0
FitInTurn buf [] = Unit
FitInTurn buf (piece ∷ pieces) =
    (0 < length piece)
    × (length buf + length piece < buf_size)
    × FitInTurn (messages (buf ++ piece)).1 pieces

abbrev pub joined : List Str → Str
joined [] = []
joined (s ∷ ss) = s ++ joined ss

pub client_read-messages :
    (buf piece : Str)
    → 0 < length piece
    → length buf + length piece < buf_size
    → client_read (λ _. some piece) buf ≡ some (messages (buf ++ piece))
unfolding client_read read_from_socket
client_read-messages buf [] pos fits = absurd (omega arith)
client_read-messages buf (c ∷ cs) pos fits =
    let room : leb buf_size (length (buf ++ c ∷ cs)) ≡ false =
      ground (arith, length-append buf (c ∷ cs)) in
    rw room (client_answer-scan (buf ++ c ∷ cs))

-- The bytes that are sent for messages.
abbrev pub sent : List Str → Str
sent ms = joined (map encode ms)

pub sent-Frames : (ms : List Str) → All (λ m. no_crlf m ≡ true) ms → Frames (sent ms) ms []
sent-Frames [] a = last refl
sent-Frames (m ∷ ms) a = next (append_assoc m (cr ∷ lf ∷ []) (sent ms)) a.0 (sent-Frames ms a.1)

read_all-messages :
    (buf : Str) (pieces : List Str)
    → no_crlf buf ≡ true
    → FitInTurn buf pieces
    → read_all buf pieces ≡ some (messages (buf ++ joined pieces))
read_all-messages buf [] clean fits = rw append-nil (ap some (sym (Frames-messages (last clean))))
read_all-messages buf (piece ∷ pieces) clean fits =
    let rest = (messages (buf ++ piece)).1 in
    rw
      (
        client_read-messages buf piece fits.0 fits.1,
        read_all-messages rest pieces (no_crlf-Frames (messages-Frames (buf ++ piece))) fits.2,
      )
      (ap some (
        sym (messages-append (buf ++ piece) (joined pieces))
        ∙ ap messages (append_assoc buf piece (joined pieces))))

-- Messages without a network newline in them, sent one behind the other, are read as they were sent,
-- in whatever pieces the bytes arrive, as long as each piece fits in the buffer.
pub read_all-sent :
    (ms pieces : List Str)
    → All (λ m. no_crlf m ≡ true) ms
    → joined pieces ≡ sent ms
    → FitInTurn [] pieces
    → read_all [] pieces ≡ some (ms, [])
read_all-sent ms pieces clean same fits =
    read_all-messages [] pieces refl fits
    ∙ ap some (ap messages same ∙ Frames-messages (sent-Frames ms clean))
