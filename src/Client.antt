-- ===== src/Client.antt =====
-- The chat client: `bn_start_client` of src/builtins.c, with its two buffers. What is typed is the text
-- on the standard input up to its end; reading it does not fail. What the system answers in a round of
-- the loop is an `Event`.
pub mod Reading
pub mod Typing
pub mod Shown
mod Tests
use c_based_linux_shell.Prelude.{
  ℕ, zero, suc, ◌+◌, ◌-◌, Bool, true, false, not, ◌||◌, Option, none, some, List, [], ◌∷◌, ◌++◌,
  ◌==◌, leb, if◌then◌else◌, length, take, map, Status, success, failure,
}
use c_based_linux_shell.Prelude.Int.{ℤ, in_range}
use c_based_linux_shell.CString.{Str, fgets}
use c_based_linux_shell.CString.Number.{atoi}
use c_based_linux_shell.Display.{display_message}
use c_based_linux_shell.Socket.{
  buf_size, max_user_msg, cr, lf, Written, written, out_of_fuel, write_to_socket, client_read,
}

abbrev pub io_buf_size : ℕ
io_buf_size = max_user_msg + 2

abbrev pub last_byte : ℕ → Str → ℕ
last_byte c [] = c
last_byte c (d ∷ cs) = last_byte d cs

-- One reading of the standard input: the bytes for the socket, what is left to read, and
-- `has_unread_data`.
pub data Typed : Type 0 where
  end_of_input : Typed
  out_of_bounds : Typed
  sends : Str → Str → Bool → Typed

-- The line `c ∷ cs` in `io_buf`, whose last byte gives way to the network newline; if it is no newline
-- it goes back to the input by `ungetc`.
unfoldable pub end_line : ℕ → Str → Str → Typed
end_line c cs rest =
    let last = last_byte c cs in
    let msg_len = length cs + 1 in
    let bytes = take (msg_len - 1) (c ∷ cs) ++ cr ∷ lf ∷ [] in
    if leb (msg_len + 1) io_buf_size
    then if last == lf then sends bytes rest false else sends bytes (last ∷ rest) true
    else out_of_bounds

abbrev pub end_read : Str → Str → Typed
end_read [] rest = end_of_input
end_read (c ∷ cs) rest = end_line c cs rest

unfoldable pub type_line : Str → Typed
type_line stdin = end_read (fgets (io_buf_size - 1) stdin).0 (fgets (io_buf_size - 1) stdin).1

-- A message as it is shown: what stands before its first space is the name of the sender.
unfoldable pub cut_at : ℕ → Str → Option (Str × Str)
cut_at c [] = none
cut_at c (d ∷ cs) =
    let rest = cut_at c cs in
    if d == c
    then some ([], cs)
    else elim rest [ none ↦ none | some (front, behind) ↦ some (d ∷ front, behind) ]

unfoldable pub client_text : Str → Str
client_text msg = elim (cut_at b' ' msg) [
  | none ↦ msg
  | some (name, text) ↦ take (buf_size - 1) (name ++ b':' ∷ b' ' ∷ (text ++ b'\n' ∷ []))
]

-- The variables of the loop; `buf` is the receive buffer.
pub record Session : Type 0 where
  pub stdin : Str
  pub has_unread_data : Bool
  pub buf : Str

-- What `select` answers: which of the standard input and the socket are ready; an interruption, with
-- `disconnect_client` behind it; or another failure.
pub data Selected : Type 0 where
  ready : Bool → Bool → Selected
  interrupted : Bool → Selected
  select_failed : Selected

-- A round of the loop: `disconnect_client` at its test, and the answers of the system.
pub record Event : Type 0 where
  pub disconnect : Bool
  pub selected : Selected
  pub write : ℕ → Str → Option ℕ
  pub recv : ℕ → Option Str

pub data Effect : Type 0 where
  sent shown : Str → Effect

-- Where a round ends: in the next round, with the return of 0, in the end of the whole process, or
-- with a fault.
pub data Step : Type 0 where
  going : Session → Step
  returned : Step
  exited : ℕ → Step
  fault : Step

abbrev pub show : Str → Effect
show msg = shown (display_message (client_text msg))

-- The half of a round that reads from the socket.
unfoldable pub receive_part : Event → Bool → Session → List Effect → Step × List Effect
receive_part ev socket_ready s out =
    if socket_ready
    then elim (client_read ev.recv s.buf) [
      | none ↦ (exited 1, out)
      | some (msgs, buf) ↦ (going (record s { buf = buf }), out ++ map show msgs)
    ]
    else (going s, out)

-- The line that was read goes to the socket.
unfoldable pub send_part : Event → Bool → Session → Typed → Step × List Effect
send_part ev socket_ready s end_of_input = (returned, shown (display_message (b'\n' ∷ [])) ∷ [])
send_part ev socket_ready s out_of_bounds = (fault, [])
send_part ev socket_ready s (sends bytes rest unread) = elim (write_to_socket ev.write bytes) [
  | out_of_fuel ↦ (fault, [])
  | written status taken ↦ elim status [
    | failure ↦ (exited 1, sent taken ∷ [])
    | success ↦
        receive_part ev socket_ready (record s { stdin = rest; has_unread_data = unread })
          (sent taken ∷ [])
  ]
]

unfoldable pub round_ready : Event → Bool → Bool → Session → Step × List Effect
round_ready ev stdin_ready socket_ready s =
    if s.has_unread_data || stdin_ready
    then send_part ev socket_ready s (type_line s.stdin)
    else receive_part ev socket_ready s []

-- A round. With unread data the time of `select` is 0, and every failure ends the process.
unfoldable pub client_round : Event → Session → Step × List Effect
client_round ev s = if ev.disconnect then (exited 0, []) else elim ev.selected [
  | ready stdin_ready socket_ready ↦ round_ready ev stdin_ready socket_ready s
  | select_failed ↦ (exited 1, [])
  | interrupted disconnect ↦
      if s.has_unread_data
      then (exited 1, [])
      else if disconnect
      then (returned, shown (display_message (b'\n' ∷ [])) ∷ [])
      else (going s, [])
]

-- The loop over the rounds that happen.
unfoldable pub client_loop : List Event → Session → Step × List Effect
client_loop [] s = (going s, [])
client_loop (ev ∷ evs) s =
    let (step, out) = client_round ev s in
    elim step [
      | going s' ↦ let (last, more) = client_loop evs s' in (last, out ++ more)
      | returned ↦ (returned, out)
      | exited n ↦ (exited n, out)
      | fault ↦ (fault, out)
    ]

pub data JoinError : Type 0 where
  no_port no_hostname invalid_port not_connected : JoinError

pub data ClientResult : Type 0 where
  refused : JoinError → ClientResult
  joined : Step → List Effect → ClientResult

abbrev pub start_session : Str → Session
start_session stdin = record { stdin = stdin; has_unread_data = false; buf = [] }

-- `bn_start_client`; `connect` is the answer of `connect_to_server`, and `none` an access behind the
-- tokens.
unfoldable pub bn_start_client :
    (ℤ → Str → Bool) → List Event → Str → List Str → Option ClientResult
bn_start_client connect evs stdin [] = none
bn_start_client connect evs stdin (name ∷ []) = some (refused no_port)
bn_start_client connect evs stdin (name ∷ port ∷ []) = some (refused no_hostname)
bn_start_client connect evs stdin (name ∷ port ∷ host ∷ ts) =
    if not (in_range 1024 65535 (atoi port))
    then some (refused invalid_port)
    else if not (connect (atoi port) host)
    then some (refused not_connected)
    else let (step, out) = client_loop evs (start_session stdin) in some (joined step out)
