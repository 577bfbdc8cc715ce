-- ===== src/Chat/Tests.antt =====
-- The theorems about the server at a chat of two clients.
use c_based_linux_shell.Prelude.{
  ℕ, ◌≡◌, refl, some, none, [], ◌∷◌, ◌++◌, ◌==◌, arith, if◌then◌else◌,
}
use c_based_linux_shell.CString.{codes, strncmp_eq}
use c_based_linux_shell.Socket.Newline.{encode}
use c_based_linux_shell.Display.{display_message}
use c_based_linux_shell.Chat.{
  Client, Server, shown, WriteEnd, wrote, broken, handle_message, server_line,
}
use c_based_linux_shell.Chat.Broadcast.{
  survivors, outcomes, line_of, handle_message_lem, handle_message_use_after_free,
}

abbrev ann : Client
ann = record { node = 1; sock_fd = 4; username = some (codes "client1"); buf = [] }

abbrev bob : Client
bob = record { node = 2; sock_fd = 5; username = none; buf = [] }

abbrev chat : Server
chat = record { clients = ann ∷ bob ∷ []; client_id = 1; client_connected = 2 }

-- bob's connection is broken.
abbrev bob_gone : ℕ → WriteEnd
bob_gone fd = if fd == 5 then broken else wrote

handle_message_example :
    handle_message bob_gone ann (codes "hi") chat
    ≡ some (
      record chat { clients = survivors bob_gone chat.clients },
      outcomes bob_gone
            (codes "client1")
            (encode (line_of (codes "client1") (codes "hi")))
            chat.clients
          ++ shown (display_message (server_line (codes "client1") (codes "hi"))) ∷ [],
    )
unfolding strncmp_eq
handle_message_example =
    handle_message_lem bob_gone ann (codes "client1") (codes "hi") chat refl refl (omega arith)
      (refl, (refl, tt)) refl ((λ e. refl), ((λ e. absurd (omega arith)), tt))

abbrev ann_alone : Server
ann_alone = record { clients = ann ∷ []; client_id = 1; client_connected = 1 }

handle_message_use_after_free_example :
    handle_message (λ _. broken) ann (codes "hi") ann_alone ≡ none
unfolding strncmp_eq
handle_message_use_after_free_example =
    handle_message_use_after_free (λ _. broken) ann (codes "client1") (codes "hi") ann_alone refl
      refl (omega arith) refl refl
