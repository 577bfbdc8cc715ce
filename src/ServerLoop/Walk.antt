-- ===== src/ServerLoop/Walk.antt =====
-- The walk over the list of clients, while no connection is broken.
use c_based_linux_shell.Prelude.{
  ◌+◌, ℕ, zero, suc, ◌≤◌, ◌≡◌, refl, sym, ◌∙◌, inl, inr, false, some, List, [], ◌∷◌, ◌++◌, arith,
  Bool-cases, length, All, append_assoc, true,
}
use c_based_linux_shell.Socket.{failed, read_from_socket}
use c_based_linux_shell.Chat.{Client, Server, Output, name_fails, turn_status, serve_client}
use c_based_linux_shell.Chat.Broadcast.{is_broken}
use c_based_linux_shell.Chat.Members.{HasShortName, IsServer}
use c_based_linux_shell.ServerLoop.{Event, next_after, serve_from}
use c_based_linux_shell.ServerLoop.Turn.{serve_status-Turn}

-- No connection is broken, and there is memory for the messages.
pub record IsSound (ev : Event) : Type 0 where
  pub unbroken : (fd fd' : ℕ) → is_broken (ev.write fd fd') ≡ false
  pub memory : (fd : ℕ) → ev.malloc_ok fd ≡ true

-- The walk on from a place in the list.
pub record Walked (fuel : ℕ) (ev : Event) (ahead : List Client) (s : Server) : Type 0 where
  pub now : Server
  pub out : List Output
  pub run : serve_from fuel ev ahead s ≡ some (now, out)
  pub good : IsServer now
  pub fewer : now.client_connected ≤ s.client_connected

All-last :
    (xs : List Client) (c : Client) (ys : List Client)
    → All HasShortName (xs ++ c ∷ ys)
    → HasShortName c
All-last [] c ys (here, all) = here
All-last (x ∷ xs) c ys (here, all) = All-last xs c ys all

-- The turn of one client, as `Turn` has it, whether or not it gets a name.
record Turned (ev : Event) (curr : Client) (ahead : List Client) (s : Server) : Type 0 where
  now : Server
  out : List Output
  served :
      serve_client
        (ev.recv curr.sock_fd)
        (ev.write curr.sock_fd)
        (ev.memory curr.sock_fd)
        (ev.malloc_ok curr.sock_fd)
        curr
        s
      ≡ some (now, out)
  good : IsServer now
  before : List Client
  split : now.clients ≡ before ++ ahead
  next :
      next_after
        (turn_status
          (ev.memory curr.sock_fd)
          curr.username
          (read_from_socket (ev.recv curr.sock_fd) curr.buf).0)
        curr.node
        s.clients
        now.clients
      ≡ ahead
  fewer : now.client_connected ≤ s.client_connected

serve_client-Turned :
    (ev : Event) (curr : Client) (s : Server) (before ahead : List Client)
    → IsSound ev
    → IsServer s
    → s.clients ≡ before ++ curr ∷ ahead
    → s.client_connected ≤ 1024
    → Turned ev curr ahead s
unfolding serve_client
serve_client-Turned ev curr s before ahead sound h split few =
    let write = ev.write curr.sock_fd in
    let memory = ev.memory curr.sock_fd in
    let (status, buf) = read_from_socket (ev.recv curr.sock_fd) curr.buf in
    let short = All-last before curr ahead (rw split at h.short_names) in
    elim (Bool-cases (name_fails memory curr.username status)) [
      | inr gets ↦
          let t =
            serve_status-Turn write curr s before ahead h split status buf
              (sound.unbroken curr.sock_fd) short few in
          record {
            now = t.now;
            out = t.out;
            served = rw (sound.memory curr.sock_fd, gets) t.served;
            good = t.good;
            before = t.before;
            split = t.split;
            next = rw gets t.next;
            fewer = t.fewer;
          }
      | inl fails ↦
          let t =
            serve_status-Turn write curr (record s { client_id = s.client_id + 1 }) before ahead
              (record { unique = h.unique; counted = h.counted; short_names = h.short_names }) split
              failed buf (sound.unbroken curr.sock_fd) short few in
          record {
            now = t.now;
            out = t.out;
            served = rw (sound.memory curr.sock_fd, fails) t.served;
            good = t.good;
            before = t.before;
            split = t.split;
            next = rw fails t.next;
            fewer = t.fewer;
          }
    ]

pub serve_from-Walked :
    (fuel : ℕ) (ev : Event) (before ahead : List Client) (s : Server)
    → IsSound ev
    → IsServer s
    → s.clients ≡ before ++ ahead
    → s.client_connected ≤ 1024
    → length ahead ≤ fuel
    → Walked fuel ev ahead s
unfolding serve_from
serve_from-Walked fuel ev before [] s sound h split few enough = record {
  now = s;
  out = [];
  run = refl;
  good = h;
  fewer = omega arith;
}
serve_from-Walked zero ev before (curr ∷ ahead) s sound h split few enough = absurd (omega arith)
serve_from-Walked (suc fuel) ev before (curr ∷ ahead) s sound h split few enough =
    elim (Bool-cases (ev.is_ready curr.sock_fd)) [
      | inr idle ↦
          let w =
            serve_from-Walked fuel ev (before ++ curr ∷ []) ahead s sound h
              (split ∙ sym (append_assoc before (curr ∷ []) ahead)) few (omega arith) in
          record { now = w.now; out = w.out; run = rw idle w.run; good = w.good; fewer = w.fewer }
      | inl busy ↦
          let t = serve_client-Turned ev curr s before ahead sound h split few in
          let w =
            serve_from-Walked fuel ev t.before ahead t.now sound t.good t.split
              (omega (arith, t.fewer)) (omega arith) in
          record {
            now = w.now;
            out = t.out ++ w.out;
            run = rw (busy, t.served, t.next, w.run) refl;
            good = w.good;
            fewer = omega (arith, t.fewer, w.fewer);
          }
    ]
