-- ===== src/Chat.antt =====
-- The clients of the chat server: src/chat_helpers.c, and `accept_connection`, the body of the loop over
-- the clients and `cleanup_server` of src/server.c. `none` is a write outside a buffer or
-- through NULL, a use of a freed client, or the failed assertion.
pub mod Clients
pub mod Broadcast
pub mod Members
pub mod Serving
mod Tests
use c_based_linux_shell.Prelude.{
  ℕ, ◌+◌, ◌-◌, Bool, true, false, not, ◌&&◌, Option, none, some, List, [], ◌∷◌, ◌++◌, ◌==◌, leb,
  ltb, if◌then◌else◌, length, take, ◌>>=◌,
}
use c_based_linux_shell.CString.{Str, codes, strncmp_eq, strncat}
use c_based_linux_shell.CString.Number.{decimal}
use c_based_linux_shell.Display.{display_message}
use c_based_linux_shell.Socket.{
  buf_size, max_name, max_user_msg, cr, lf, read_from_socket, messages, closed, failed, complete,
  partial, ReadStatus,
}

-- `struct client_socket`; `node` is its address.
pub record Client : Type 0 where
  pub node : ℕ
  pub sock_fd : ℕ
  pub username : Option Str
  pub buf : Str

-- `clients`, and the globals of server.c.
pub record Server : Type 0 where
  pub clients : List Client
  pub client_id : ℕ
  pub client_connected : ℕ

-- What the server writes to a socket, and what `display_message` writes on its own output.
pub data Output : Type 0 where
  to_client : ℕ → Str → Output
  shown : Str → Output

-- `remove_client` on a list, by the node: the list without it, and what follows it; `none` is 1.
unfoldable pub remove_client : ℕ → List Client → Option (List Client × List Client)
remove_client node [] = none
remove_client node (cur ∷ next) =
    let rest = remove_client node next in
    if cur.node == node
    then some (next, next)
    else elim rest [ none ↦ none | some (clients, after) ↦ some (cur ∷ clients, after) ]

-- `accept_connection`, with the new node and descriptor.
unfoldable pub accept_connection : ℕ → ℕ → Server → Server
accept_connection node fd s = record s {
  clients = s.clients ++ record { node = node; sock_fd = fd; username = none; buf = [] } ∷ [];
  client_connected = s.client_connected + 1;
}

-- `set_username`
abbrev pub username_of : ℕ → Str
username_of id = take (max_name - 1) (codes "client" ++ decimal id)

-- Another record in the place of a node.
abbrev pub update : Client → List Client → List Client
update c [] = []
update c (d ∷ clients) =
    let rest = update c clients in if d.node == c.node then c ∷ clients else d ∷ rest

abbrev pub has_node : ℕ → List Client → Bool
has_node node [] = false
has_node node (c ∷ clients) =
    let rest = has_node node clients in if c.node == node then true else rest

-- The end of a write: 0, -1 with EPIPE or ECONNRESET, or another failure.
pub data WriteEnd : Type 0 where
  wrote broken write_failed : WriteEnd

abbrev pub is_wrote : WriteEnd → Bool
is_wrote wrote = true
is_wrote broken = false
is_wrote write_failed = false

-- The bytes of `write_buf_to_client`.
unfoldable pub client_bytes : Str → Option Str
client_bytes buf = if leb (length buf + 2) buf_size then some (buf ++ cr ∷ lf ∷ []) else none

-- `write_buf` of `run_server`.
unfoldable pub chat_line : Str → Str → Option Str
chat_line username msg = do
  b₁ ← strncat buf_size [] username max_name
  b₂ ← strncat buf_size b₁ (b' ' ∷ []) max_name
  strncat buf_size b₂ msg max_user_msg

-- "%s has failed to send message.\n", of the sender; its record must not be freed.
abbrev pub fail_line : Str → Str
fail_line username =
    take (buf_size - 1) (username ++ codes " has failed to send message." ++ b'\n' ∷ [])

abbrev pub put_output :
    Output → Option (List Client × List Output) → Option (List Client × List Output)
put_output o none = none
put_output o (some (clients, out)) = some (clients, o ∷ out)

-- The loop that sends a line to the clients still `ahead`. `write` answers for a descriptor.
unfoldable pub broadcast :
    (ℕ → WriteEnd) → ℕ → Str → Str → List Client → List Client → Option (List Client × List Output)
broadcast write sender username bytes [] clients = some (clients, [])
broadcast write sender username bytes (dest ∷ ahead) clients =
    let go_on = broadcast write sender username bytes ahead clients in
    elim (write dest.sock_fd) [
      | wrote ↦ put_output (to_client dest.sock_fd bytes) go_on
      | write_failed ↦
          if has_node sender clients
          then put_output (shown (display_message (fail_line username))) go_on
          else none
      | broken ↦
          if has_node sender clients
          then elim (remove_client dest.node clients) [
            | none ↦ none
            | some (clients', after) ↦
                put_output (shown (display_message (fail_line username)))
                  (broadcast write sender username bytes ahead clients')
          ]
          else none
    ]

-- "%s: %s\n"
abbrev pub server_line : Str → Str → Str
server_line username msg = take (buf_size - 1) (username ++ b':' ∷ b' ' ∷ (msg ++ b'\n' ∷ []))

abbrev pub connected_command : Str
connected_command = codes "\\connected"

-- One message of a client: the answer to `\connected`, or the line for all.
unfoldable pub handle_message :
    (ℕ → WriteEnd) → Client → Str → Server → Option (Server × List Output)
handle_message write curr msg s =
    if strncmp_eq msg connected_command 11
    then (do
      bytes ← client_bytes (decimal s.client_connected ++ b'\n' ∷ [])
      some (s, if is_wrote (write curr.sock_fd) then to_client curr.sock_fd bytes ∷ [] else []))
    else elim curr.username [
      | none ↦ none
      | some username ↦ do
        line ← chat_line username msg
        bytes ← client_bytes line
        (clients, out) ← broadcast write curr.node username bytes s.clients s.clients
        (if has_node curr.node clients
            then some (
              record s { clients = clients },
              out ++ shown (display_message (server_line username msg)) ∷ [],
            )
            else none)
    ]

unfoldable pub handle_messages :
    (ℕ → WriteEnd) → Client → List Str → Server → Option (Server × List Output)
handle_messages write curr [] s = some (s, [])
handle_messages write curr (msg ∷ msgs) s = do
  (s₁, out₁) ← handle_message write curr msg s
  (s₂, out₂) ← handle_messages write curr msgs s₁
  some (s₂, out₁ ++ out₂)

-- A client that is gone.
unfoldable pub disconnect : Client → Server → Option Server
disconnect curr s = elim (remove_client curr.node s.clients) [
  | none ↦ none
  | some (clients, after) ↦
      some (record s { clients = clients; client_connected = s.client_connected - 1 })
]

-- The name that a client gets with its first message.
abbrev pub named : Client → Server → Client × Server
named c s = elim c.username [
  | some name ↦ (c, s)
  | none ↦ (
    record c { username = some (username_of (s.client_id + 1)) },
    record s { client_id = s.client_id + 1 },
  )
]

-- What the body of the loop does with a client that is ready, by what `read_from_client` found.
unfoldable pub serve_status :
    (ℕ → WriteEnd) → Client → ReadStatus → Str → Server → Option (Server × List Output)
serve_status write curr closed buf s = do s' ← disconnect curr s; some (s', [])
serve_status write curr failed buf s = do s' ← disconnect curr s; some (s', [])
serve_status write curr partial buf s =
    some (record s { clients = update (record curr { buf = buf }) s.clients }, [])
serve_status write curr complete buf s =
    let (msgs, rest) = messages buf in
    let (curr', s') = named (record curr { buf = rest }) s in
    handle_messages write curr' msgs (record s' { clients = update curr' s'.clients })

-- Whether `set_username` fails, which gives a name to a client with its first message; `memory` is the
-- answer of `strdup`.
abbrev pub name_fails : Bool → Option Str → ReadStatus → Bool
name_fails memory (some name) status = false
name_fails memory none complete = not memory
name_fails memory none partial = false
name_fails memory none closed = false
name_fails memory none failed = false

-- What the turn of a client goes on with: where it gets no name it is disconnected, and its number is
-- used up.
abbrev pub turn_status : Bool → Option Str → ReadStatus → ReadStatus
turn_status memory name status = if name_fails memory name status then failed else status

abbrev pub turn_server : Bool → Option Str → ReadStatus → Server → Server
turn_server memory name status s =
    if name_fails memory name status then record s { client_id = s.client_id + 1 } else s

abbrev pub is_complete : ReadStatus → Bool
is_complete complete = true
is_complete partial = false
is_complete closed = false
is_complete failed = false

-- The turn of a client. `malloc_ok` is whether `get_message` finds memory for each message of the turn:
-- where it does not, it writes through NULL.
unfoldable pub serve_client :
    (ℕ → Option Str)
    → (ℕ → WriteEnd)
    → Bool
    → Bool
    → Client
    → Server
    → Option (Server × List Output)
serve_client recv write memory malloc_ok curr s =
    let (status, buf) = read_from_socket recv curr.buf in
    if not malloc_ok && is_complete (turn_status memory curr.username status)
    then none
    else serve_status write curr (turn_status memory curr.username status) buf
        (turn_server memory curr.username status s)
