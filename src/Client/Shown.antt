-- ===== src/Client/Shown.antt =====
-- What a client shows of the lines that the server sends.
use c_based_linux_shell.Prelude.{
  ℕ, ◌+◌, ◌≤◌, ◌<◌, ◌≡◌, refl, ap, sym, ◌∙◌, true, false, some, List, [], ◌∷◌, ◌++◌, arith, length,
  take, All, append_assoc, length-append, length-take, take-eq_self,
}
use c_based_linux_shell.CString.{Str, contains, strncmp_eq}
use c_based_linux_shell.Display.{display_message}
use c_based_linux_shell.Socket.{buf_size, max_name, max_user_msg, cr, lf, client_read}
use c_based_linux_shell.Socket.Newline.{encode, no_crlf}
use c_based_linux_shell.Socket.Stream.{last, next, Frames-messages}
use c_based_linux_shell.Socket.Receive.{client_read-messages}
use mathlib.Core.List.{Memᴰ}
use c_based_linux_shell.Chat.{
  Client, Server, Output, to_client, WriteEnd, wrote, has_node, connected_command, handle_message,
  server_line,
}
use c_based_linux_shell.Chat.Clients.{Unique}
use c_based_linux_shell.Chat.Broadcast.{
  line_of, IsKept, outcome, outcomes, survivors, handle_message_lem,
}
use c_based_linux_shell.Client.{cut_at, client_text, Session, Event, Effect, going, receive_part}

cut_at-append :
    (name text : Str)
    → contains name b' ' ≡ false
    → cut_at b' ' (name ++ b' ' ∷ text) ≡ some (name, text)
unfolding cut_at contains
cut_at-append [] text one_word = refl
cut_at-append (c ∷ name) text one_word =
    let later : contains name b' ' ≡ false = ground arith in
    ground (arith, cut_at-append name text later)

-- A client shows of a line just what the server shows.
client_text-line_of :
    (username msg : Str)
    → contains username b' ' ≡ false
    → length msg ≤ max_user_msg
    → client_text (line_of username msg) ≡ server_line username msg
unfolding client_text
client_text-line_of username msg one_word short =
    let line : line_of username msg ≡ username ++ b' ' ∷ msg =
      ap (λ m. (username ++ b' ' ∷ []) ++ m) (take-eq_self max_user_msg msg short)
      ∙ append_assoc username (b' ' ∷ []) msg in
    ap client_text line ∙ rw (cut_at-append username msg one_word, client_text) refl

client_read-encode :
    (line : Str)
    → no_crlf line ≡ true
    → length line + 2 < buf_size
    → client_read (λ _. some (encode line)) [] ≡ some (line ∷ [], [])
client_read-encode line clean short =
    client_read-messages [] (encode line) (omega (arith, length-append line (cr ∷ lf ∷ [])))
      (omega (arith, length-append line (cr ∷ lf ∷ [])))
    ∙ ap some (Frames-messages (next refl clean (last refl)))

-- The outcome of a client to which the write succeeds.
outcomes-Memᴰ :
    (write : ℕ → WriteEnd) (username bytes : Str) {dest : Client} {clients : List Client}
    → Memᴰ dest clients
    → write dest.sock_fd ≡ wrote
    → Memᴰ (to_client dest.sock_fd bytes) (outcomes write username bytes clients)
outcomes-Memᴰ write username bytes {dest} (Memᴰ.head same) ok = Memᴰ.head (
    sym (ap (outcome username bytes dest) ok)
    ∙ ap (λ c. outcome username bytes c (write c.sock_fd)) same)
outcomes-Memᴰ write username bytes (Memᴰ.tail later) ok =
    Memᴰ.tail (outcomes-Memᴰ write username bytes later ok)

-- From a message of a client that has a name, a word of at most MAX_NAME bytes, to the screens: the
-- message is not `\connected`, has at most MAX_USER_MSG bytes, and its line no network newline, and
-- the connection of the sender is not broken. To a client of the list to which the write succeeds some
-- bytes are written; and where just these bytes arrive with an empty buffer, this client shows on its
-- screen the very text that the server shows on its own.
pub handle_message_shown :
    (write : ℕ → WriteEnd) (curr dest : Client) (username msg : Str) (server : Server) (ev : Event)
    (s : Session)
    → strncmp_eq msg connected_command 11 ≡ false
    → curr.username ≡ some username
    → length username ≤ max_name
    → contains username b' ' ≡ false
    → length msg ≤ max_user_msg
    → no_crlf (line_of username msg) ≡ true
    → Unique server.clients
    → has_node curr.node server.clients ≡ true
    → All (IsKept write curr.node) server.clients
    → Memᴰ dest server.clients
    → write dest.sock_fd ≡ wrote
    → s.buf ≡ []
    → (server' : Server) × (written : List Output) × (text bytes : Str) × (handle_message write curr
          msg server
        ≡ some (server', written ++ Output.shown text ∷ []))
      × Memᴰ (to_client dest.sock_fd bytes) written
      × (receive_part (record ev { recv = λ _. some bytes }) true s []
          ≡ (going s, Effect.shown text ∷ []))
unfolding receive_part
handle_message_shown write curr dest username msg server ev s text name short one_word fits clean
      unique alive kept member ok empty =
    let size = length-append (username ++ b' ' ∷ []) (take max_user_msg msg) in
    let front = length-append username (b' ' ∷ []) in
    let bytes = encode (line_of username msg) in
    let read : client_read (λ _. some bytes) s.buf ≡ some (line_of username msg ∷ [], []) =
      ap (client_read (λ _. some bytes)) empty
      ∙ client_read-encode (line_of username msg) clean
          (omega (arith, size, front, length-take max_user_msg msg)) in
    (
      record server { clients = survivors write server.clients },
      outcomes write username bytes server.clients,
      display_message (server_line username msg),
      bytes,
      handle_message_lem write curr username msg server text name short unique alive kept,
      outcomes-Memᴰ write username bytes member ok,
      rw (read, client_text-line_of username msg one_word fits)
          (ap
            (λ b. (
              going (record s { buf = b }),
              Effect.shown (display_message (server_line username msg)) ∷ [],
            ))
            (sym empty)),
    )
