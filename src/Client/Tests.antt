-- ===== src/Client/Tests.antt =====
-- The theorems about the chat client at a line, and at an input without a last newline.
use c_based_linux_shell.Prelude.{◌≡◌, refl, true, false, none, some, List, [], ◌∷◌, ◌++◌, arith}
use c_based_linux_shell.CString.{Str, codes, strncmp_eq, contains}
use c_based_linux_shell.Socket.Receive.{sent as sent_bytes}
use mathlib.Core.List.{Memᴰ}
use c_based_linux_shell.Chat.{Client, to_client, Server, Output, wrote, handle_message}
use c_based_linux_shell.Client.{Session, ready, Event, Effect, going, receive_part, start_session}
use c_based_linux_shell.Client.Shown.{handle_message_shown}

-- The standard input is ready, and `write` takes a byte at each call.
abbrev typing : Event
typing = record {
  disconnect = false;
  selected = ready true false;
  write = λ k bytes. some 1;
  recv = λ n. none;
}

abbrev two_lines : Str
two_lines = codes "hi\nyou\n"

-- The line of another client is there as well.
abbrev hearing : Event
hearing = record typing {
  selected = ready true true;
  recv = λ n. some (codes "client2 hello" ++ b'\r' ∷ b'\n' ∷ []);
}

-- What is left of an input that ends without a newline.
abbrev stuck : Session
stuck = record { stdin = codes "x"; has_unread_data = true; buf = [] }

abbrev rounds : List Event
rounds = hearing ∷ typing ∷ []

abbrev ann : Client
ann = record { node = 1; sock_fd = 4; username = some (codes "client1"); buf = [] }

abbrev chat : Server
chat = record { clients = ann ∷ []; client_id = 1; client_connected = 1 }

abbrev hello : Str
hello = codes "good morning"

handle_message_shown_example :
    (server' : Server) × (written : List Output) × (text bytes : Str) × (handle_message
        (λ fd. wrote)
        ann
        hello
        chat
      ≡ some (server', written ++ Output.shown text ∷ []))
    × Memᴰ (to_client 4 bytes) written
    × (receive_part (record typing { recv = λ _. some bytes }) true (start_session []) []
        ≡ (going (start_session []), Effect.shown text ∷ []))
unfolding strncmp_eq contains
handle_message_shown_example =
    handle_message_shown (λ fd. wrote) ann ann (codes "client1") hello chat typing
      (start_session []) refl refl (omega arith) refl (omega arith) refl (refl, tt) refl
      ((λ e. refl), tt) (Memᴰ.head refl) refl refl
