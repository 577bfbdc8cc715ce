-- ===== src/Chat/Broadcast.antt =====
-- What a message of a client does to all clients.
use c_based_linux_shell.Prelude.{
  ℕ, ◌+◌, ◌≤◌, ◌≡◌, refl, ap, sym, ◌∙◌, inl, inr, Bool, true, false, none, some, List, [], ◌∷◌,
  ◌++◌, ◌==◌, arith, if◌then◌else◌, ==_iff, All, Bool-cases, length, take, append_assoc,
  length-append, length-take, le→leb,
}
use c_based_linux_shell.CString.{Str, strncmp_eq}
use c_based_linux_shell.CString.Compare.{strncat_fits, strncat-take}
use c_based_linux_shell.Socket.{max_name, max_user_msg, buf_size}
use c_based_linux_shell.Socket.Newline.{encode}
use c_based_linux_shell.Display.{display_message}
use c_based_linux_shell.Chat.{
  Client, Server, Output, to_client, shown, WriteEnd, wrote, broken, write_failed, remove_client,
  has_node, client_bytes, chat_line, fail_line, broadcast, server_line, connected_command,
  handle_message,
}
use c_based_linux_shell.Chat.Clients.{
  Unique, remove_client_lem, has_node-append-cons, Unique-front, Unique-remove,
}

-- The clients that are left, and what is written for each.
abbrev pub is_broken : WriteEnd → Bool
is_broken wrote = false
is_broken broken = true
is_broken write_failed = false

abbrev pub survivors : (ℕ → WriteEnd) → List Client → List Client
survivors write [] = []
survivors write (c ∷ cs) =
    let rest = survivors write cs in if is_broken (write c.sock_fd) then rest else c ∷ rest

abbrev pub outcome : Str → Str → Client → WriteEnd → Output
outcome username bytes c wrote = to_client c.sock_fd bytes
outcome username bytes c broken = shown (display_message (fail_line username))
outcome username bytes c write_failed = shown (display_message (fail_line username))

abbrev pub outcomes : (ℕ → WriteEnd) → Str → Str → List Client → List Output
outcomes write username bytes [] = []
outcomes write username bytes (c ∷ cs) =
    outcome username bytes c (write c.sock_fd) ∷ outcomes write username bytes cs

-- The client at this address is not lost.
abbrev pub IsKept : (ℕ → WriteEnd) → ℕ → Client → Type 0
IsKept write node c = c.node ≡ node → is_broken (write c.sock_fd) ≡ false

not_kept :
    (write : ℕ → WriteEnd) (sender : ℕ) (c : Client)
    → IsKept write sender c
    → write c.sock_fd ≡ broken
    → (c.node == sender) ≡ false
not_kept write sender c keep h = elim (Bool-cases (c.node == sender)) [
  | inr other ↦ other
  | inl same ↦
      let e : is_broken broken ≡ false =
        sym (ap is_broken h) ∙ keep ((==_iff c.node sender).0 same) in
      cc
]

broadcast-survivors :
    (write : ℕ → WriteEnd) (sender : ℕ) (username bytes : Str) (ahead before : List Client)
    → Unique (before ++ ahead)
    → has_node sender (before ++ ahead) ≡ true
    → All (IsKept write sender) ahead
    → broadcast write sender username bytes ahead (before ++ ahead)
      ≡ some (before ++ survivors write ahead, outcomes write username bytes ahead)
unfolding broadcast
broadcast-survivors write sender username bytes [] before unique alive kept = refl
broadcast-survivors write sender username bytes (c ∷ ahead) before unique alive (keep, kept) =
    let assoc = append_assoc before (c ∷ []) ahead in
    let ih =
      rw (assoc, append_assoc before (c ∷ []) (survivors write ahead)) at
        (broadcast-survivors write sender username bytes ahead (before ++ c ∷ []) (rw assoc unique)
          (rw assoc alive) kept) in
    step (write c.sock_fd) refl ih (λ other.
      broadcast-survivors write sender username bytes ahead before
        (Unique-remove before c ahead unique)
        (sym (has_node-append-cons sender before c ahead other) ∙ alive) kept)
  where
    step :
        (e : WriteEnd)
        → write c.sock_fd ≡ e
        → broadcast write sender username bytes ahead (before ++ c ∷ ahead)
          ≡ some (before ++ c ∷ survivors write ahead, outcomes write username bytes ahead)
        → ((c.node == sender) ≡ false
            → broadcast write sender username bytes ahead (before ++ ahead)
              ≡ some (before ++ survivors write ahead, outcomes write username bytes ahead))
        → broadcast write sender username bytes (c ∷ ahead) (before ++ c ∷ ahead)
          ≡ some (before ++ survivors write (c ∷ ahead), outcomes write username bytes (c ∷ ahead))
    step wrote h ih gone = rw (h, broadcast, ih) refl
    step write_failed h ih gone = rw (h, broadcast, alive, ih) refl
    step broken h ih gone =
        rw
          (
            h,
            broadcast,
            alive,
            remove_client_lem c.node before c ahead (Unique-front before c ahead unique) refl,
            gone (not_kept write sender c keep h),
          )
          refl

-- The sender is still there behind the broadcast.
survivors-has_node :
    (write : ℕ → WriteEnd) (sender : ℕ) (cs : List Client)
    → has_node sender cs ≡ true
    → All (IsKept write sender) cs
    → has_node sender (survivors write cs) ≡ true
survivors-has_node write sender [] alive kept = cc
survivors-has_node write sender (c ∷ cs) alive (keep, kept) = elim (Bool-cases (c.node == sender)) [
  | inl same ↦ rw (keep ((==_iff c.node sender).0 same), same) refl
  | inr other ↦
      let ih = survivors-has_node write sender cs (rw other at alive) kept in
      elim (Bool-cases (is_broken (write c.sock_fd))) [
        | inl gone ↦ rw gone ih
        | inr stays ↦ rw (stays, other) ih
      ]
]

-- The text of a line, and that it fits.
abbrev pub line_of : Str → Str → Str
line_of username msg = (username ++ b' ' ∷ []) ++ take max_user_msg msg

chat_line-line_of :
    (username msg : Str)
    → length username ≤ max_name
    → chat_line username msg ≡ some (line_of username msg)
unfolding chat_line
chat_line-line_of username msg short =
    rw
      (
        strncat_fits buf_size [] username max_name short (omega arith),
        strncat_fits buf_size username (b' ' ∷ []) max_name (omega arith) (omega arith),
      )
      (strncat-take buf_size (username ++ b' ' ∷ []) msg max_user_msg
        (omega (arith, length-append username (b' ' ∷ []))))

client_bytes-line_of :
    (username msg : Str)
    → length username ≤ max_name
    → client_bytes (line_of username msg) ≡ some (encode (line_of username msg))
unfolding client_bytes
client_bytes-line_of username msg short =
    rw
      (le→leb (length (line_of username msg) + 2) buf_size (
        omega (
          arith,
          length-append username (b' ' ∷ []),
          length-take max_user_msg msg,
          length-append (username ++ b' ' ∷ []) (take max_user_msg msg),
        )))
      refl

-- A message other than `\connected`, of a connected client whose name has at most MAX_NAME bytes and
-- whose own connection is not broken: for every client the line of the name, a space and at most
-- MAX_USER_MSG bytes of the message is written with a network newline, or a failure is shown; just
-- the clients with a broken connection are removed, whichever they are, and nothing is written
-- behind a buffer.
pub handle_message_lem :
    (write : ℕ → WriteEnd) (curr : Client) (username msg : Str) (s : Server)
    → strncmp_eq msg connected_command 11 ≡ false
    → curr.username ≡ some username
    → length username ≤ max_name
    → Unique s.clients
    → has_node curr.node s.clients ≡ true
    → All (IsKept write curr.node) s.clients
    → handle_message write curr msg s
      ≡ some (
        record s { clients = survivors write s.clients },
        outcomes write username (encode (line_of username msg)) s.clients
            ++ shown (display_message (server_line username msg)) ∷ [],
      )
unfolding handle_message
handle_message_lem write curr username msg s text name short unique alive kept =
    rw
      (
        text,
        name,
        chat_line-line_of username msg short,
        client_bytes-line_of username msg short,
        broadcast-survivors write curr.node username (encode (line_of username msg)) s.clients []
            unique alive kept,
        survivors-has_node write curr.node s.clients alive kept,
      )
      refl

broadcast-alone :
    (write : ℕ → WriteEnd) (c : Client) (username bytes : Str)
    → write c.sock_fd ≡ broken
    → broadcast write c.node username bytes (c ∷ []) (c ∷ [])
      ≡ some ([], shown (display_message (fail_line username)) ∷ [])
unfolding broadcast remove_client
broadcast-alone write c username bytes gone =
    let here : (c.node == c.node) ≡ true = ground arith in rw (gone, broadcast, here) refl

-- If the sender of a message other than `\connected`, with a name of at most MAX_NAME bytes, is
-- the only client, and its connection is broken when the line is sent to it, its record is freed
-- and then used.
pub handle_message_use_after_free :
    (write : ℕ → WriteEnd) (curr : Client) (username msg : Str) (s : Server)
    → strncmp_eq msg connected_command 11 ≡ false
    → curr.username ≡ some username
    → length username ≤ max_name
    → s.clients ≡ curr ∷ []
    → write curr.sock_fd ≡ broken
    → handle_message write curr msg s ≡ none
unfolding handle_message
handle_message_use_after_free write curr username msg s text name short alone gone =
    rw
      (
        text,
        name,
        chat_line-line_of username msg short,
        client_bytes-line_of username msg short,
        alone,
        broadcast-alone write curr username (encode (line_of username msg)) gone,
      )
      refl
