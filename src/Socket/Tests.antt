-- ===== src/Socket/Tests.antt =====
-- Runs of the functions on sockets, and the theorems about them at concrete buffers.
use c_based_linux_shell.Prelude.{
  true, false, ℕ, ◌≡◌, ◌<◌, refl, Option, some, List, [], ◌∷◌, ◌++◌, arith, length, length-take,
  take, replicate,
}
use c_based_linux_shell.CString.{Str, codes}
use c_based_linux_shell.Socket.{buf_size, read_from_socket, messages, write_to_socket}
use c_based_linux_shell.Socket.Stream.{messages-append}
use c_based_linux_shell.Socket.Receive.{
  Delivers, Means, read_from_socket-Means, read_all, read_all-sent,
}
use c_based_linux_shell.Socket.Send.{Sent, write_to_socket-Sent}
use c_based_linux_shell.Socket.Setup.{
  ConnectAnswers, connect_to_server, holding, socket_of, connect_to_server-holding,
}

messages-append_example : messages (codes "a\r" ++ codes "\nb") ≡ (
  (messages (codes "a\r")).0 ++ (messages ((messages (codes "a\r")).1 ++ codes "\nb")).0,
  (messages ((messages (codes "a\r")).1 ++ codes "\nb")).1,
)
messages-append_example = messages-append (codes "a\r") (codes "\nb")

two_messages : messages (codes "a b\r\nc\r\nd") ≡ (codes "a b" ∷ codes "c" ∷ [], codes "d")
unfolding messages
two_messages = refl

-- A socket with a long line of `z` to give.
abbrev endless : ℕ → Option Str
endless n = some (take n (replicate 9 b'z'))

endless-Delivers : Delivers endless
endless-Delivers n bytes h = ground (arith, length-take {A = ℕ} n (replicate 9 b'z'))

read_from_socket-Means_example :
    Means
      (codes "x")
      (read_from_socket endless (codes "x")).1
      (read_from_socket endless (codes "x")).0
    × (length (read_from_socket endless (codes "x")).1 < buf_size)
read_from_socket-Means_example =
    read_from_socket-Means endless endless-Delivers (codes "x") (omega arith)

abbrev full_buffer : Str
full_buffer = replicate 1128 b'z'

abbrev two_sent : List Str
two_sent = codes "hi" ∷ codes "you" ∷ []

abbrev pieces : List Str
pieces = codes "hi\r" ∷ codes "\nyo" ∷ codes "u\r\n" ∷ []

read_all-sent_example : read_all [] pieces ≡ some (two_sent, [])
unfolding messages
read_all-sent_example = read_all-sent two_sent pieces (refl, (refl, tt)) refl (omega arith)

-- A socket that takes two bytes at a time.
abbrev two_by_two : ℕ → Str → Option ℕ
two_by_two k bytes = some 2

write_to_socket-Sent_example : Sent (codes "abc") (write_to_socket two_by_two (codes "abc"))
write_to_socket-Sent_example = write_to_socket-Sent two_by_two (codes "abc")

-- The host is known, and nobody listens.
abbrev no_listener : ConnectAnswers
no_listener = record { socket_fd = some 3; getaddrinfo_ok = true; connect_ok = false }

connect_to_server-holding_example :
    holding [] (connect_to_server no_listener).1 ≡ socket_of (connect_to_server no_listener).0
connect_to_server-holding_example = connect_to_server-holding no_listener
