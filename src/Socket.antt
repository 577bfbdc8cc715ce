-- ===== src/Socket.antt =====
-- src/socket.c: the receive buffer and its messages, and the loop that writes a buffer out. A buffer
-- is the list of its first `inbuf` bytes; what stands behind them is never read.
pub mod Newline
pub mod Stream
pub mod Receive
pub mod Send
pub mod Setup
mod Tests
use c_based_linux_shell.Prelude.{
  ℕ, zero, suc, ◌+◌, ◌-◌, ◌^◌, Bool, true, false, ◌&&◌, Option, none, some, List, [], ◌∷◌, ◌++◌,
  ◌==◌, leb, if◌then◌else◌, length, take, drop, Status, success, failure,
}
use c_based_linux_shell.CString.{Str}

-- BUF_SIZE, by its macros: + 1 + MAX_NAME + 1 + MAX_USER_MSG + 2 + 1.
abbrev pub max_name : ℕ
max_name = 100

abbrev pub max_user_msg : ℕ
max_user_msg = 1024

abbrev pub buf_size : ℕ
buf_size = 1 + max_name + 1 + max_user_msg + 2 + 1

abbrev pub cr : ℕ
cr = b'\r'

abbrev pub lf : ℕ
lf = b'\n'

abbrev pub is_crlf : ℕ → ℕ → Bool
is_crlf a b = (a == cr) && (b == lf)

-- The loop of `find_network_newline` from index `i`; `none` is -1.
unfoldable pub newline_from : ℕ → Str → Option ℕ
newline_from i [] = none
newline_from i (a ∷ []) = none
newline_from i (a ∷ b ∷ cs) =
    let rest = newline_from (i + 1) (b ∷ cs) in if is_crlf a b then some (i + 2) else rest

unfoldable pub find_network_newline : Str → Option ℕ
unfolding newline_from
find_network_newline = newline_from 0

-- The message and the bytes left in the buffer; `none` is 1.
unfoldable pub get_message : Str → Option (Str × Str)
unfolding find_network_newline
get_message src = elim (find_network_newline src) [
  | none ↦ none
  | some newline ↦ some (take (newline - 2) src, drop newline src)
]

-- 1, -1, 0 and 2.
pub data ReadStatus : Type 0 where
  closed failed complete partial : ReadStatus

-- The `size_t` that `BUF_SIZE - *inbuf - 1` becomes.
abbrev pub read_room : Str → ℕ
read_room buf =
    if leb (length buf) (buf_size - 1)
    then buf_size - 1 - length buf
    else 2 ^ 64 - (length buf - (buf_size - 1))

-- The loop behind the read.
unfoldable pub scan : Str → ReadStatus
unfolding find_network_newline
scan buf = elim (find_network_newline buf) [ none ↦ partial | some n ↦ complete ]

-- `recv n` is the answer of `read` on a socket for at most `n` bytes; `none` is -1.
unfoldable pub read_from_socket : (ℕ → Option Str) → Str → ReadStatus × Str
unfolding scan
read_from_socket recv buf = elim (recv (read_room buf)) [
  | none ↦ (failed, buf)
  | some [] ↦ (closed, buf)
  | some (c ∷ cs) ↦
      let buf' = buf ++ c ∷ cs in
      if leb buf_size (length buf') then (failed, buf') else (scan buf', buf')
]

-- `while (!get_message(&msg, buf, &inbuf))`: the messages, and what is left. Each message is a round
-- of fuel.
unfoldable pub drain : ℕ → Str → List Str × Str
drain zero buf = ([], buf)
drain (suc fuel) buf = elim (get_message buf) [
  | none ↦ ([], buf)
  | some (msg, rest) ↦ let (msgs, last) = drain fuel rest in (msg ∷ msgs, last)
]

unfoldable pub messages : Str → List Str × Str
unfolding drain get_message
messages buf = drain (length buf + 1) buf

-- What the client does on each result.
unfoldable pub client_answer : ReadStatus → Str → Option (List Str × Str)
client_answer closed buf = none
client_answer failed buf = none
client_answer complete buf = some (messages buf)
client_answer partial buf = some (messages buf)

-- One reading of `bn_start_client`: the messages it takes out, and what stays in the buffer; `none`
-- where it ends the program.
unfoldable pub client_read : (ℕ → Option Str) → Str → Option (List Str × Str)
client_read recv buf = let (status, buf') = read_from_socket recv buf in client_answer status buf'

-- The end of a call of `write_to_socket`: its result, and the bytes that the socket has taken.
pub data Written : Type 0 where
  out_of_fuel : Written
  written : Status → Str → Written

abbrev pub put_front : Str → Written → Written
put_front sent out_of_fuel = out_of_fuel
put_front sent (written s more) = written s (sent ++ more)

-- `write k rest` is the answer of the `k`th call of `write` on the bytes `rest`; `none` is -1. Each
-- call is a round of fuel.
unfoldable pub write_loop : ℕ → (ℕ → Str → Option ℕ) → ℕ → Str → Written
write_loop zero write k rest = out_of_fuel
write_loop (suc fuel) write k [] = written success []
write_loop (suc fuel) write k (c ∷ cs) = elim (write k (c ∷ cs)) [
  | none ↦ written failure []
  | some zero ↦ written failure []
  | some (suc n) ↦
      put_front (take (suc n) (c ∷ cs)) (write_loop fuel write (k + 1) (drop (suc n) (c ∷ cs)))
]

unfoldable pub write_to_socket : (ℕ → Str → Option ℕ) → Str → Written
unfolding write_loop
write_to_socket write buf = write_loop (length buf + 1) write 0 buf
