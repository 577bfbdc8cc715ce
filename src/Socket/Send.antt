-- ===== src/Socket/Send.antt =====
-- `write_to_socket` over a socket that takes the bytes in any pieces.
use c_based_linux_shell.Prelude.{
  ℕ, zero, suc, ◌+◌, ◌<◌, ◌≡◌, ◌∙◌, refl, ap, Option, none, some, [], ◌∷◌, ◌++◌, arith, length,
  take, drop, append_assoc, length-drop, take-append-drop, Status, success, failure,
}
use c_based_linux_shell.CString.{Str}
use c_based_linux_shell.Socket.{Written, written, put_front, write_loop, write_to_socket}

-- The bytes sent are the front of the buffer: all of it after success, not all after failure.
pub record Sent (buf : Str) (w : Written) : Type 0 where
  pub status : Status
  pub sent : Str
  pub unsent : Str
  pub ends : w ≡ written status sent
  pub parts : sent ++ unsent ≡ buf
  pub all_of_it : status ≡ success → unsent ≡ []
  pub not_all : status ≡ failure → 0 < length unsent

Sent-put_front :
    (front rest : Str) (w : Written) → Sent rest w → Sent (front ++ rest) (put_front front w)
Sent-put_front front rest w s = record {
  status = s.status;
  sent = front ++ s.sent;
  unsent = s.unsent;
  ends = rw s.ends;
  parts = append_assoc front s.sent s.unsent ∙ ap (◌++◌ front) s.parts;
  all_of_it = s.all_of_it;
  not_all = s.not_all;
}

refused : (buf : Str) → 0 < length buf → Sent buf (written failure [])
refused buf h = record {
  status = failure;
  sent = [];
  unsent = buf;
  ends = refl;
  parts = refl;
  all_of_it = λ e. cc;
  not_all = λ _. h;
}

write_loop-Sent :
    (write : ℕ → Str → Option ℕ) (fuel k : ℕ) (buf : Str)
    → length buf < fuel
    → Sent buf (write_loop fuel write k buf)
unfolding write_loop
write_loop-Sent write zero k buf h = absurd (omega arith)
write_loop-Sent write (suc fuel) k [] h = record {
  status = success;
  sent = [];
  unsent = [];
  ends = refl;
  parts = refl;
  all_of_it = λ _. refl;
  not_all = λ e. cc;
}
write_loop-Sent write (suc fuel) k (c ∷ cs) h =
    round (λ j b. write_loop-Sent write fuel j b) (write k (c ∷ cs)) refl
  where
    round :
        ((j : ℕ) (b : Str) → length b < fuel → Sent b (write_loop fuel write j b))
        → (answer : Option ℕ) → write k (c ∷ cs) ≡ answer
        → Sent (c ∷ cs) (write_loop (suc fuel) write k (c ∷ cs))
    round later none e = rw (e, write_loop) (refused (c ∷ cs) (omega arith))
    round later (some zero) e = rw (e, write_loop) (refused (c ∷ cs) (omega arith))
    round later (some (suc n)) e =
        rw (e, write_loop)
          (rw (take-append-drop n cs) at (
            Sent-put_front (c ∷ take n cs) (drop n cs) _
              (later (k + 1) (drop n cs) (omega (arith, length-drop n cs)))))

-- However the socket takes the bytes, `write_to_socket` ends, with the front of the buffer sent: the
-- whole buffer and success, or a part and failure.
pub write_to_socket-Sent :
    (write : ℕ → Str → Option ℕ) (buf : Str) → Sent buf (write_to_socket write buf)
unfolding write_to_socket
write_to_socket-Sent write buf = write_loop-Sent write (length buf + 1) 0 buf (omega arith)

-- A socket that takes at least a byte at each call takes all.
abbrev pub IsTaking : (ℕ → Str → Option ℕ) → Type 0
IsTaking write = (k : ℕ) (bytes : Str) → (n : ℕ) × (write k bytes ≡ some (suc n))

write_loop-IsTaking :
    (write : ℕ → Str → Option ℕ) (fuel k : ℕ) (buf : Str)
    → IsTaking write
    → length buf < fuel
    → write_loop fuel write k buf ≡ written success buf
unfolding write_loop
write_loop-IsTaking write zero k buf takes h = absurd (omega arith)
write_loop-IsTaking write (suc fuel) k [] takes h = refl
write_loop-IsTaking write (suc fuel) k (c ∷ cs) takes h =
    let (n, answer) = takes k (c ∷ cs) in
    let ih =
      write_loop-IsTaking write fuel (k + 1) (drop n cs) takes (omega (arith, length-drop n cs)) in
    rw (answer, write_loop, ih) (ap (λ b. written success (c ∷ b)) (take-append-drop n cs))

pub write_to_socket-IsTaking :
    (write : ℕ → Str → Option ℕ) (buf : Str)
    → IsTaking write
    → write_to_socket write buf ≡ written success buf
unfolding write_to_socket
write_to_socket-IsTaking write buf takes =
    write_loop-IsTaking write (length buf + 1) 0 buf takes (omega arith)
