-- ===== src/Chat/Serving.antt =====
-- The count of connected clients, over the service of one client.
use c_based_linux_shell.Prelude.{
  ℕ, zero, suc, ◌+◌, ◌-◌, ◌/◌, ◌%◌, ◌≤◌, ◌≡◌, refl, ap, sym, ◌∙◌, inl, inr, true, false, none, some,
  List, [], ◌∷◌, ◌++◌, arith, if◌then◌else◌, Option, All, Bool-cases, length, length-append,
  length-take, le→leb, Bool,
}
use c_based_linux_shell.CString.{Str, codes, strncmp_eq}
use c_based_linux_shell.CString.Number.{decimal, decimal_onto}
use c_based_linux_shell.Socket.{
  max_name, buf_size, ReadStatus, closed, failed, partial, complete, messages, read_from_socket,
}
use c_based_linux_shell.Socket.Newline.{encode}
use c_based_linux_shell.Display.{display_message}
use c_based_linux_shell.Chat.{
  Client, Server, Output, to_client, shown, is_wrote, server_line, WriteEnd, has_node, update,
  username_of, named, client_bytes, connected_command, handle_message, handle_messages,
  serve_status, serve_client, name_fails, turn_status, turn_server,
}
use c_based_linux_shell.Chat.Broadcast.{
  line_of, outcomes, is_broken, survivors, IsKept, handle_message_lem,
}
use mathlib.Core.Path.{subst}
use c_based_linux_shell.Chat.Members.{
  IsNamed, HasShortName, update-All, IsServer, update-has_node, update-length, update-Unique,
  disconnect-IsServer,
}

-- With no broken connection all clients stay.
module _ (write : ℕ → WriteEnd) (sound : (fd : ℕ) → is_broken (write fd) ≡ false) where
  survivors-all : (cs : List Client) → survivors write cs ≡ cs
  survivors-all [] = refl
  survivors-all (c ∷ cs) = rw (sound c.sock_fd) (ap (◌∷◌ c) (survivors-all cs))

  All-IsKept : (node : ℕ) (cs : List Client) → All (IsKept write node) cs
  All-IsKept node [] = tt
  All-IsKept node (c ∷ cs) = ((λ e. sound c.sock_fd), All-IsKept node cs)

decimal_onto-length :
    (fuel n : ℕ) (rest : Str) → length (decimal_onto fuel n rest) ≤ fuel + length rest
unfolding decimal_onto
decimal_onto-length zero n rest = omega arith
decimal_onto-length (suc fuel) n rest =
    ground (arith, decimal_onto-length fuel (n / 10) ((b'0' + n % 10) ∷ rest))

-- The messages of a client that has a name.
module _ (write : ℕ → WriteEnd) (sound : (fd : ℕ) → is_broken (write fd) ≡ false) (curr : Client)
    (username : Str) (name : curr.username ≡ some username)
    (short : length username ≤ max_name) where
  client_bytes-decimal :
      (n : ℕ)
      → n ≤ 1024
      → client_bytes (decimal n ++ b'\n' ∷ []) ≡ some (encode (decimal n ++ b'\n' ∷ []))
  unfolding client_bytes decimal
  client_bytes-decimal n few =
      rw
        (le→leb (length (decimal n ++ b'\n' ∷ []) + 2) buf_size
          (omega (arith, decimal_onto-length (n + 1) n [], length-append (decimal n) (b'\n' ∷ []))))
        refl

  handle_message-same :
      (msg : Str) (s : Server)
      → IsServer s
      → has_node curr.node s.clients ≡ true
      → s.client_connected ≤ 1024
      → (out : List Output) × (handle_message write curr msg s ≡ some (s, out))
  unfolding handle_message
  handle_message-same msg s h here few = elim (Bool-cases (strncmp_eq msg connected_command 11)) [
    | inl asks ↦ (
      if is_wrote (write curr.sock_fd)
          then to_client curr.sock_fd (encode (decimal s.client_connected ++ b'\n' ∷ [])) ∷ []
          else [],
      rw (asks, client_bytes-decimal s.client_connected few) refl,
    )
    | inr text ↦ (
      outcomes write username (encode (line_of username msg)) s.clients
          ++ shown (display_message (server_line username msg)) ∷ [],
      handle_message_lem write curr username msg s text name short h.unique here
            (All-IsKept write sound curr.node s.clients)
          ∙ ap
              (λ cs. some (
                record s { clients = cs },
                outcomes write username (encode (line_of username msg)) s.clients
                    ++ shown (display_message (server_line username msg)) ∷ [],
              ))
              (survivors-all write sound s.clients),
    )
  ]

  handle_messages-same :
      (msgs : List Str) (s : Server)
      → IsServer s
      → has_node curr.node s.clients ≡ true
      → s.client_connected ≤ 1024
      → (out : List Output) × (handle_messages write curr msgs s ≡ some (s, out))
  unfolding handle_messages
  handle_messages-same [] s h here few = ([], refl)
  handle_messages-same (msg ∷ msgs) s h here few =
      let (out₁, first) = handle_message-same msg s h here few in
      let (out₂, others) = handle_messages-same msgs s h here few in
      (out₁ ++ out₂, rw (first, others) refl)

username_of-length : (id : ℕ) → length (username_of id) ≤ max_name
username_of-length id = omega (arith, length-take (max_name - 1) (codes "client" ++ decimal id))

-- The server behind the update of a client's record.
pub updated-IsServer :
    (c : Client) (s : Server)
    → HasShortName c
    → IsServer s
    → IsServer (record s { clients = update c s.clients })
updated-IsServer c s short h = record {
  unique = update-Unique c s.clients h.unique;
  counted = h.counted ∙ sym (update-length c s.clients);
  short_names = update-All c s.clients short h.short_names;
}

-- What becomes of messages, with a client and a server.
abbrev pub Served : (ℕ → WriteEnd) → List Str → Client × Server → Type 0
Served write msgs (c, s) =
    (out : List Output) × (handle_messages write c msgs (record s { clients = update c s.clients })
      ≡ some (record s { clients = update c s.clients }, out))
    × IsServer (record s { clients = update c s.clients })

named-Served :
    (write : ℕ → WriteEnd) (c : Client) (username : Str) (msgs : List Str) (s : Server)
    → ((fd : ℕ) → is_broken (write fd) ≡ false)
    → c.username ≡ some username
    → length username ≤ max_name
    → IsServer s
    → has_node c.node s.clients ≡ true
    → s.client_connected ≤ 1024
    → Served write msgs (c, s)
named-Served write c username msgs s sound name short h here few =
    let good = updated-IsServer c s (subst IsNamed (sym name) short) h in
    let (out, e) =
      handle_messages-same write sound c username name short msgs
        (record s { clients = update c s.clients }) good (update-has_node c.node c s.clients ∙ here)
        few in
    (out, e, good)

pub Served-named :
    (write : ℕ → WriteEnd) (c : Client) (name : Option Str) (msgs : List Str) (s : Server)
    → ((fd : ℕ) → is_broken (write fd) ≡ false)
    → c.username ≡ name
    → IsNamed name
    → IsServer s
    → has_node c.node s.clients ≡ true
    → s.client_connected ≤ 1024
    → Served write msgs (named c s)
Served-named write c none msgs s sound name short h here few = rw name (
    named-Served write (record c { username = some (username_of (s.client_id + 1)) })
      (username_of (s.client_id + 1)) msgs (record s { client_id = s.client_id + 1 }) sound refl
      (username_of-length (s.client_id + 1))
      (record { unique = h.unique; counted = h.counted; short_names = h.short_names }) here few)
Served-named write c (some username) msgs s sound name short h here few = rw name (
    named-Served write (record c { username = some username }) username msgs s sound refl short h
      here few)

serve_status-IsServer :
    (write : ℕ → WriteEnd) (curr : Client) (status : ReadStatus) (buf : Str) (s : Server)
    → ((fd : ℕ) → is_broken (write fd) ≡ false)
    → IsNamed curr.username
    → IsServer s
    → has_node curr.node s.clients ≡ true
    → s.client_connected ≤ 1024
    → (r : Server × List Output) × (serve_status write curr status buf s ≡ some r) × IsServer r.0
unfolding serve_status
serve_status-IsServer write curr closed buf s sound short h here few =
    let (s', gone, h') = disconnect-IsServer curr s h here in ((s', []), rw gone refl, h')
serve_status-IsServer write curr failed buf s sound short h here few =
    let (s', gone, h') = disconnect-IsServer curr s h here in ((s', []), rw gone refl, h')
serve_status-IsServer write curr partial buf s sound short h here few =
    (_, refl, updated-IsServer (record curr { buf = buf }) s short h)
serve_status-IsServer write curr complete buf s sound short h here few =
    let (out, e, good) =
      Served-named write (record curr { buf = (messages buf).1 }) curr.username (messages buf).0 s
        sound refl short h here few in
    (_, e, good)

pub turn_server-IsServer :
    (memory : Bool) (name : Option Str) (status : ReadStatus) (s : Server)
    → IsServer s
    → IsServer (turn_server memory name status s)
      × ((turn_server memory name status s).clients ≡ s.clients)
      × ((turn_server memory name status s).client_connected ≡ s.client_connected)
turn_server-IsServer memory name status s h = elim (Bool-cases (name_fails memory name status)) [
  | inl fails ↦
      rw fails
        (record { unique = h.unique; counted = h.counted; short_names = h.short_names }, refl, refl)
  | inr gets ↦ rw gets (h, refl, refl)
]

-- With at most 1024 clients and no broken connection, the service of a connected client that is
-- ready, whose name, if it has one, has at most MAX_NAME bytes, ends without a fault, whatever
-- is read from it, with memory for the messages, also where there is none for its name; and if before it `client_connected`
-- is the number of clients in the list, all at different addresses, it is so again behind it.
pub serve_client-IsServer :
    (recv : ℕ → Option Str) (write : ℕ → WriteEnd) (memory : Bool) (curr : Client) (s : Server)
    → ((fd : ℕ) → is_broken (write fd) ≡ false)
    → IsNamed curr.username
    → IsServer s
    → has_node curr.node s.clients ≡ true
    → s.client_connected ≤ 1024
    → (r : Server × List Output) × (serve_client recv write memory true curr s ≡ some r)
      × IsServer r.0
unfolding serve_client
serve_client-IsServer recv write memory curr s sound short h here few =
    let (status, buf) = read_from_socket recv curr.buf in
    let (good, clients, count) = turn_server-IsServer memory curr.username status s h in
    serve_status-IsServer write curr (turn_status memory curr.username status) buf
      (turn_server memory curr.username status s) sound short good
      (ap (has_node curr.node) clients ∙ here) (omega (arith, count))
