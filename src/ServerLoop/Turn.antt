-- ===== src/ServerLoop/Turn.antt =====
-- The turn of one client in the walk over the list, while no connection is broken.
use c_based_linux_shell.Prelude.{
  ℕ, ◌-◌, ◌≤◌, ◌≡◌, refl, ap, sym, ◌∙◌, inl, inr, true, false, some, List, [], ◌∷◌, ◌++◌, ◌==◌,
  arith, ==_iff, Option-cases, append_assoc,
}
use mathlib.Core.Path.{subst}
use c_based_linux_shell.CString.{Str}
use c_based_linux_shell.Socket.{ReadStatus, closed, failed, complete, partial, messages}
use c_based_linux_shell.Chat.{
  Client, Server, Output, WriteEnd, remove_client, has_node, update, named, disconnect,
  serve_status,
}
use c_based_linux_shell.Chat.Clients.{Unique-front, remove_client_lem, has_node-append-head}
use c_based_linux_shell.Chat.Broadcast.{is_broken}
use c_based_linux_shell.Chat.Members.{HasShortName, IsServer, disconnect-IsServer}
use c_based_linux_shell.Chat.Serving.{Served-named, updated-IsServer}
use c_based_linux_shell.ServerLoop.{following, next_after}

-- A client in a list, by its address.
following-append :
    (node : ℕ) (xs : List Client) (c : Client) (ys : List Client)
    → has_node node xs ≡ false
    → c.node ≡ node
    → following node (xs ++ c ∷ ys) ≡ ys
following-append node [] c ys fresh same = rw ((==_iff c.node node).1 same) refl
following-append node (x ∷ xs) c ys fresh same =
    let later : has_node node xs ≡ false = ground arith in
    let other : (x.node == node) ≡ false = ground arith in
    rw other (following-append node xs c ys later same)

update-append :
    (d : Client) (xs : List Client) (c : Client) (ys : List Client)
    → has_node d.node xs ≡ false
    → c.node ≡ d.node
    → update d (xs ++ c ∷ ys) ≡ xs ++ d ∷ ys
update-append d [] c ys fresh same = rw ((==_iff c.node d.node).1 same) refl
update-append d (x ∷ xs) c ys fresh same =
    let later : has_node d.node xs ≡ false = ground arith in
    let other : (x.node == d.node) ≡ false = ground arith in
    rw other (ap (◌∷◌ x) (update-append d xs c ys later same))

-- A name changes neither the address nor the list.
named-same :
    (c : Client) (s : Server)
    → ((named c s).0.node ≡ c.node)
      × ((named c s).1.clients ≡ s.clients)
      × ((named c s).1.client_connected ≡ s.client_connected)
named-same c s = elim (Option-cases c.username) [
  | inl e ↦ rw e (refl, refl, refl)
  | inr (name, e) ↦ rw e (refl, refl, refl)
]

-- What the turn of `curr` leaves: a good server, whose list holds what stood behind `curr`, as the
-- part that the walk goes on with.
pub record Turn (write : ℕ → WriteEnd) (curr : Client) (status : ReadStatus) (buf : Str)
    (s : Server) (ahead : List Client) : Type 0 where
  pub now : Server
  pub out : List Output
  pub served : serve_status write curr status buf s ≡ some (now, out)
  pub good : IsServer now
  pub before : List Client
  pub split : now.clients ≡ before ++ ahead
  pub next : next_after status curr.node s.clients now.clients ≡ ahead
  pub fewer : now.client_connected ≤ s.client_connected

module _ (write : ℕ → WriteEnd) (curr : Client) (s : Server) (before ahead : List Client)
    (h : IsServer s) (split : s.clients ≡ before ++ curr ∷ ahead) where
  fresh : has_node curr.node before ≡ false
  fresh = Unique-front before curr ahead (rw split at h.unique)

  here : has_node curr.node s.clients ≡ true
  here = ap (has_node curr.node) split ∙ has_node-append-head before curr ahead

  removed : remove_client curr.node s.clients ≡ some (before ++ ahead, ahead)
  removed =
      ap (remove_client curr.node) split ∙ remove_client_lem curr.node before curr ahead fresh refl

  -- The server without the client.
  left : Server
  left = record s { clients = before ++ ahead; client_connected = s.client_connected - 1 }

  disconnect-left : disconnect curr s ≡ some left
  unfolding disconnect left
  disconnect-left = rw (removed, disconnect) refl

  left-IsServer : IsServer left
  left-IsServer =
      let (s', e, good) = disconnect-IsServer curr s h here in
      let same : s' ≡ left = cc (e, disconnect-left) in subst IsServer same good

  -- The server with another record of the client.
  kept : Client → Server
  kept c = record s { clients = update c s.clients }

  update-split : (c : Client) → c.node ≡ curr.node → update c s.clients ≡ before ++ c ∷ ahead
  update-split c same =
      ap (update c) split
      ∙ update-append c before curr ahead (ap (λ n. has_node n before) same ∙ fresh) (sym same)

  following-split :
      (c : Client) → c.node ≡ curr.node → following curr.node (update c s.clients) ≡ ahead
  following-split c same =
      ap (following curr.node) (update-split c same)
      ∙ following-append curr.node before c ahead fresh same

  closed-Turn :
      (status : ReadStatus) (buf : Str)
      → serve_status write curr status buf s ≡ some (left, [])
      → next_after status curr.node s.clients left.clients ≡ ahead
      → Turn write curr status buf s ahead
  unfolding left
  closed-Turn status buf served next = record {
    now = left;
    out = [];
    served = served;
    good = left-IsServer;
    before = before;
    split = refl;
    next = next;
    fewer = omega arith;
  }

  pub serve_status-Turn :
      (status : ReadStatus) (buf : Str)
      → ((fd : ℕ) → is_broken (write fd) ≡ false)
      → HasShortName curr
      → s.client_connected ≤ 1024
      → Turn write curr status buf s ahead
  unfolding serve_status left
  serve_status-Turn closed buf sound short few =
      closed-Turn closed buf (rw disconnect-left refl) (rw removed refl)
  serve_status-Turn failed buf sound short few =
      closed-Turn failed buf (rw disconnect-left refl) (rw removed refl)
  serve_status-Turn partial buf sound short few =
      let c = record curr { buf = buf } in
      record {
        now = record s { clients = update c s.clients };
        out = [];
        served = refl;
        good = updated-IsServer c s short h;
        before = before ++ c ∷ [];
        split = update-split c refl ∙ sym (append_assoc before (c ∷ []) ahead);
        next = following-split c refl;
        fewer = omega arith;
      }
  serve_status-Turn complete buf sound short few =
      let c = record curr { buf = (messages buf).1 } in
      let (out, served, good) =
        Served-named write c curr.username (messages buf).0 s sound refl short h here few in
      let (node, clients, count) = named-same c s in
      let d = (named c s).0 in
      let list = ap (update d) clients in
      record {
        now = record (named c s).1 { clients = update d (named c s).1.clients };
        out = out;
        served = served;
        good = good;
        before = before ++ d ∷ [];
        split = list ∙ update-split d node ∙ sym (append_assoc before (d ∷ []) ahead);
        next = ap (following curr.node) list ∙ following-split d node;
        fewer = omega (arith, count);
      }
