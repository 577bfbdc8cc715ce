-- ===== src/ServerLoop/Reach.antt =====
-- The servers that are reached from the start of `run_server`.
use c_based_linux_shell.Prelude.{
  ℕ, ◌≤◌, ◌<◌, ◌≡◌, ◌≢◌, refl, false, none, List, [], ◌∷◌, ◌++◌, ◌==◌, arith, length, All,
  length-append,
}
use mathlib.Core.Path.{subst}
use c_based_linux_shell.Chat.{Client, Server, Output, has_node, accept_connection}
use c_based_linux_shell.Chat.Clients.{Unique}
use c_based_linux_shell.Chat.Members.{HasShortName, IsServer}
use c_based_linux_shell.ServerLoop.{
  Accept, none_new, accept_failed, accepted, Event, ready, interrupted, select_failed, Selected,
  RoundEnd, goes_on, returns, exits, fault, serve_all, accept_round, server_round, first_server,
}
use c_based_linux_shell.ServerLoop.Walk.{IsSound, serve_from-Walked}

-- A round that the system can bring: no connection is broken, there is memory for the messages, and a new client gets a record of its
-- own and comes while fewer than 1024 are connected.
pub record IsFit (ev : Event) (s : Server) : Type 0 where
  pub sound : IsSound ev
  pub fresh : (node fd : ℕ) → ev.accept ≡ accepted node fd → has_node node s.clients ≡ false
  pub room : (node fd : ℕ) → ev.accept ≡ accepted node fd → s.client_connected < 1024

-- The rounds of a server, from its start.
pub data Reached : Server → Type 0 where
  started : (id : ℕ) → Reached (first_server id)
  after_round :
      {s s' : Server} {out : List Output} (ev : Event)
      → Reached s
      → IsFit ev s
      → server_round ev s ≡ goes_on s' out
      → Reached s'

has_node-append :
    (node : ℕ) (xs : List Client) (c : Client)
    → has_node node xs ≡ false
    → (c.node == node) ≡ false
    → has_node node (xs ++ c ∷ []) ≡ false
has_node-append node [] c gone other = rw other refl
has_node-append node (x ∷ xs) c gone other =
    let later : has_node node xs ≡ false = ground arith in
    ground (arith, has_node-append node xs c later other)

Unique-append :
    (xs : List Client) (c : Client) → Unique xs → has_node c.node xs ≡ false → Unique (xs ++ c ∷ [])
Unique-append [] c h gone = (refl, tt)
Unique-append (x ∷ xs) c (fresh, h) gone =
    let later : has_node c.node xs ≡ false = ground arith in
    let other : (c.node == x.node) ≡ false = ground arith in
    (has_node-append x.node xs c fresh other, Unique-append xs c h later)

All-snoc :
    (xs : List Client) (c : Client)
    → All HasShortName xs
    → HasShortName c
    → All HasShortName (xs ++ c ∷ [])
All-snoc [] c all short = (short, tt)
All-snoc (x ∷ xs) c (here, all) short = (here, All-snoc xs c all short)

accept_connection-IsServer :
    (node fd : ℕ) (s : Server)
    → IsServer s
    → has_node node s.clients ≡ false
    → IsServer (accept_connection node fd s)
unfolding accept_connection
accept_connection-IsServer node fd s h gone =
    let c : Client = record { node = node; sock_fd = fd; username = none; buf = [] } in
    record {
      unique = Unique-append s.clients c h.unique gone;
      counted = omega (arith, h.counted, length-append s.clients (c ∷ []));
      short_names = All-snoc s.clients c h.short_names tt;
    }

-- How a round ends: another server that is good, or the end of the loop.
abbrev pub EndsWell : RoundEnd → Type 0
EndsWell (goes_on s out) = IsServer s × (s.client_connected ≤ 1024)
EndsWell returns = Unit
EndsWell exits = Unit
EndsWell fault = ⊥

serve_all-EndsWell :
    (ev : Event) (s : Server)
    → IsSound ev
    → IsServer s
    → s.client_connected ≤ 1024
    → EndsWell (serve_all ev s)
unfolding serve_all
serve_all-EndsWell ev s sound h few =
    let w = serve_from-Walked (length s.clients) ev [] s.clients s sound h refl few (omega arith) in
    rw w.run (w.good, omega (arith, w.fewer))

accept_round-EndsWell :
    (ev : Event) (accept : Accept) (s : Server)
    → ev.accept ≡ accept
    → IsFit ev s
    → IsServer s
    → s.client_connected ≤ 1024
    → EndsWell (accept_round ev accept s)
unfolding accept_round accept_connection
accept_round-EndsWell ev none_new s e fit h few = serve_all-EndsWell ev s fit.sound h few
accept_round-EndsWell ev accept_failed s e fit h few = tt
accept_round-EndsWell ev (accepted node fd) s e fit h few =
    let room = fit.room node fd e in
    serve_all-EndsWell ev (accept_connection node fd s) fit.sound
      (accept_connection-IsServer node fd s h (fit.fresh node fd e)) (omega (arith, room))

pub server_round-EndsWell :
    (ev : Event) (s : Server)
    → IsFit ev s
    → IsServer s
    → s.client_connected ≤ 1024
    → EndsWell (server_round ev s)
unfolding server_round
server_round-EndsWell ev s fit h few = go ev.selected refl
  where
    go : (sel : Selected) → ev.selected ≡ sel → EndsWell (server_round ev s)
    go ready e = rw (e, server_round) (accept_round-EndsWell ev ev.accept s refl fit h few)
    go interrupted e = rw (e, server_round) (h, few)
    go select_failed e = rw (e, server_round) tt

-- In every server that is reached from the start of `run_server` by rounds without a broken
-- connection and with memory for the messages, where each new client gets a record of its own and comes while fewer than 1024 are connected:
-- `client_connected` is the number of clients in the list, these stand at different addresses, their
-- names have at most MAX_NAME bytes, and there are at most 1024.
pub Reached-IsServer : {s : Server} → Reached s → IsServer s × (s.client_connected ≤ 1024)
Reached-IsServer (started id) =
    (record { unique = tt; counted = refl; short_names = tt }, omega arith)
Reached-IsServer (after_round {s = s} {s' = s'} {out = out} ev r fit goes) =
    let (h, few) = Reached-IsServer r in subst EndsWell goes (server_round-EndsWell ev s fit h few)

-- No round of such a server, whatever the clients send, ends in a fault: no write behind a buffer, no
-- use of a client that is freed, and the assertion on `remove_client` holds.
pub server_round_safe :
    (ev : Event) (s : Server) → Reached s → IsFit ev s → server_round ev s ≢ fault
server_round_safe ev s r fit faults =
    let (h, few) = Reached-IsServer r in
    absurd (subst EndsWell faults (server_round-EndsWell ev s fit h few))
