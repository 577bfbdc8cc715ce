-- ===== src/ServerLoop/Start.antt =====
-- The whole of `run_server` of src/server.c: the set-up of its socket, then its rounds.
use c_based_linux_shell.Prelude.{ℕ, ◌≡◌, List, [], ◌∷◌, ◌++◌}
use c_based_linux_shell.Chat.{Server, Output}
use c_based_linux_shell.Socket.Setup.{
  SetupAnswers, SetupEnd, listening, setup_failed, exited, setup_server_socket,
}
use c_based_linux_shell.ServerLoop.{
  Event, RoundEnd, goes_on, returns, exits, fault, server_round, first_server,
}
use c_based_linux_shell.ServerLoop.Reach.{IsFit}

abbrev pub with_output : List Output → RoundEnd → RoundEnd
with_output out (goes_on s out') = goes_on s (out ++ out')
with_output out returns = returns
with_output out exits = exits
with_output out fault = fault

-- The loop, for as many rounds as there are answers of the system.
unfoldable pub run_rounds : List Event → Server → RoundEnd
run_rounds [] s = goes_on s []
run_rounds (ev ∷ evs) s = elim (server_round ev s) [
  | goes_on s' out ↦ with_output out (run_rounds evs s')
  | returns ↦ returns
  | exits ↦ exits
  | fault ↦ fault
]

unfoldable pub run_from : SetupEnd → ℕ → List Event → RoundEnd
run_from (listening fd) client_id evs = run_rounds evs (first_server client_id)
run_from setup_failed client_id evs = returns
run_from exited client_id evs = exits

unfoldable pub run_server : SetupAnswers → ℕ → List Event → RoundEnd
run_server a client_id evs = run_from (setup_server_socket a).0 client_id evs

-- Each round is one that the system can bring to the server as it is then.
abbrev pub AllFit : List Event → Server → Type 0
AllFit [] s = Unit
AllFit (ev ∷ evs) s =
    IsFit ev s
    × ((s' : Server) (out : List Output) → server_round ev s ≡ goes_on s' out → AllFit evs s')
