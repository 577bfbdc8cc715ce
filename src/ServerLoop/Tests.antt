-- ===== src/ServerLoop/Tests.antt =====
-- The theorems about the rounds of the server where a client comes and writes a message.
use c_based_linux_shell.Prelude.{refl, some, none, [], ◌∷◌, ◌++◌, ◌==◌, true, false, arith}
use c_based_linux_shell.CString.{codes}
use c_based_linux_shell.Chat.{Client, Server, wrote, accept_connection}
use c_based_linux_shell.ServerLoop.{
  first_server, none_new, accepted, Event, ready, serve_from, serve_all, accept_round, server_round,
}
use c_based_linux_shell.ServerLoop.Reach.{IsFit, Reached, started, after_round}
use c_based_linux_shell.Socket.Setup.{SetupAnswers}

-- A client comes.
abbrev arrival : Event
arrival = record {
  selected = ready;
  accept = accepted 1 4;
  is_ready = λ fd. false;
  recv = λ fd n. none;
  write = λ fd fd'. wrote;
  memory = λ fd. true;
  malloc_ok = λ fd. true;
}

-- The client writes.
abbrev message : Event
message = record arrival {
  accept = none_new;
  is_ready = λ fd. fd == 4;
  recv = λ fd n. some (codes "hi" ++ b'\r' ∷ b'\n' ∷ []);
}

abbrev ann : Client
ann = record { node = 1; sock_fd = 4; username = none; buf = [] }

abbrev joined : Server
joined = record { clients = ann ∷ []; client_id = 0; client_connected = 1 }

arrival-IsFit : IsFit arrival (first_server 0)
arrival-IsFit = record {
  sound = record { unbroken = λ fd fd'. refl; memory = λ fd. refl };
  fresh = λ node fd e. refl;
  room = λ node fd e. omega arith;
}

joined-Reached : Reached joined
unfolding server_round accept_round serve_all serve_from accept_connection
joined-Reached = after_round {out = []} arrival (started 0) arrival-IsFit refl

abbrev set_up_well : SetupAnswers
set_up_well = record {
  malloc_ok = true;
  socket_fd = some 3;
  setsockopt_ok = true;
  bind_ok = true;
  listen_ok = true;
}
