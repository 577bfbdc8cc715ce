-- ===== src/ServerLoop.antt =====
-- The loop of `run_server` of src/server.c: a round with what `select` answers, and the walk over the
-- list of clients, which the service of a client changes.
pub mod Turn
pub mod Walk
pub mod Reach
pub mod Start
mod Tests
use c_based_linux_shell.Prelude.{
  ℕ, zero, suc, Bool, true, false, Option, none, some, List, [], ◌∷◌, ◌++◌, ◌==◌, if◌then◌else◌,
  length, ◌>>=◌,
}
use c_based_linux_shell.CString.{Str}
use c_based_linux_shell.Socket.{ReadStatus, closed, failed, complete, partial, read_from_socket}
use c_based_linux_shell.Chat.{
  Client, Server, Output, WriteEnd, remove_client, accept_connection, turn_status, serve_client,
}

-- What follows a client in a list.
abbrev pub following : ℕ → List Client → List Client
following node [] = []
following node (c ∷ cs) = let rest = following node cs in if c.node == node then cs else rest

abbrev pub after_removed : Option (List Client × List Client) → List Client
after_removed none = []
after_removed (some (clients, after)) = after

-- `curr` behind the service of a client: `remove_client` moves it on if the client is closed, else
-- `curr->next` is read in the list as it is then.
abbrev pub next_after : ReadStatus → ℕ → List Client → List Client → List Client
next_after closed node before_turn now = after_removed (remove_client node before_turn)
next_after failed node before_turn now = after_removed (remove_client node before_turn)
next_after complete node before_turn now = following node now
next_after partial node before_turn now = following node now

-- What the system answers in a round: whether a new client is there, with its node and descriptor,
-- which descriptors are ready, and the reads and writes in the turn of the client with a descriptor, and
-- whether `strdup` finds memory for its name and `malloc` for its messages.
pub data Accept : Type 0 where
  none_new accept_failed : Accept
  accepted : ℕ → ℕ → Accept

pub data Selected : Type 0 where
  ready interrupted select_failed : Selected

pub record Event : Type 0 where
  pub selected : Selected
  pub accept : Accept
  pub is_ready : ℕ → Bool
  pub recv : ℕ → ℕ → Option Str
  pub write : ℕ → ℕ → WriteEnd
  pub memory : ℕ → Bool
  pub malloc_ok : ℕ → Bool

-- The walk; each client is a round of fuel, and `none` is a fault, or no fuel.
unfoldable pub serve_from : ℕ → Event → List Client → Server → Option (Server × List Output)
serve_from fuel ev [] s = some (s, [])
serve_from zero ev (curr ∷ ahead) s = none
serve_from (suc fuel) ev (curr ∷ ahead) s =
    let skip = serve_from fuel ev ahead s in
    if ev.is_ready curr.sock_fd
    then (do
      (s₁, out₁) ←
          serve_client (ev.recv curr.sock_fd) (ev.write curr.sock_fd) (ev.memory curr.sock_fd)
            (ev.malloc_ok curr.sock_fd) curr s
      (s₂, out₂) ←
          serve_from fuel ev
            (next_after
              (turn_status (ev.memory curr.sock_fd) curr.username
                (read_from_socket (ev.recv curr.sock_fd) curr.buf).0)
              curr.node s.clients s₁.clients)
            s₁
      some (s₂, out₁ ++ out₂))
    else skip

-- Where a round ends: in the next one, in the return of -1, in the end of the process, or a fault.
pub data RoundEnd : Type 0 where
  goes_on : Server → List Output → RoundEnd
  returns exits fault : RoundEnd

abbrev pub round_end : Option (Server × List Output) → RoundEnd
round_end none = fault
round_end (some (s, out)) = goes_on s out

unfoldable pub serve_all : Event → Server → RoundEnd
serve_all ev s = round_end (serve_from (length s.clients) ev s.clients s)

unfoldable pub accept_round : Event → Accept → Server → RoundEnd
accept_round ev none_new s = serve_all ev s
accept_round ev accept_failed s = exits
accept_round ev (accepted node fd) s = serve_all ev (accept_connection node fd s)

unfoldable pub server_round : Event → Server → RoundEnd
server_round ev s = elim ev.selected [
  | ready ↦ accept_round ev ev.accept s
  | interrupted ↦ goes_on s []
  | select_failed ↦ returns
]

-- The server before its first round; the ids go on from an earlier server of the same process.
abbrev pub first_server : ℕ → Server
first_server client_id = record { clients = []; client_id = client_id; client_connected = 0 }
