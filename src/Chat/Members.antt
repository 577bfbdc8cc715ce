-- ===== src/Chat/Members.antt =====
-- The list of clients and their count, where a record is written again and where a client goes.
use c_based_linux_shell.Prelude.{
  ℕ, suc, ◌-◌, ◌≡◌, refl, ap, sym, ◌∙◌, inl, inr, true, false, some, List, [], ◌∷◌, ◌==◌, arith,
  ==_iff, Bool-cases, length, All, none, Option, ◌≤◌,
}
use c_based_linux_shell.CString.{Str}
use c_based_linux_shell.Socket.{max_name}
use c_based_linux_shell.Chat.{Client, Server, remove_client, has_node, update, disconnect}
use c_based_linux_shell.Chat.Clients.{Unique}

-- The name is short, if there is one.
abbrev pub IsNamed : Option Str → Type 0
IsNamed none = Unit
IsNamed (some name) = length name ≤ max_name

abbrev pub HasShortName : Client → Type 0
HasShortName c = IsNamed c.username

-- The addresses are different, the count is right, and the names are short.
pub record IsServer (s : Server) : Type 0 where
  pub unique : Unique s.clients
  pub counted : s.client_connected ≡ length s.clients
  pub short_names : All HasShortName s.clients

pub update-has_node :
    (n : ℕ) (c : Client) (cs : List Client) → has_node n (update c cs) ≡ has_node n cs
update-has_node n c [] = refl
update-has_node n c (d ∷ cs) = ground (arith, update-has_node n c cs)

pub update-length : (c : Client) (cs : List Client) → length (update c cs) ≡ length cs
update-length c [] = refl
update-length c (d ∷ cs) = ground (arith, update-length c cs)

pub update-Unique : (c : Client) (cs : List Client) → Unique cs → Unique (update c cs)
update-Unique c [] h = tt
update-Unique c (d ∷ cs) (fresh, h) = elim (Bool-cases (d.node == c.node)) [
  | inl same ↦ rw same (ap (λ k. has_node k cs) (sym ((==_iff d.node c.node).0 same)) ∙ fresh, h)
  | inr other ↦ rw other (update-has_node d.node c cs ∙ fresh, update-Unique c cs h)
]

pub update-All :
    (c : Client) (cs : List Client)
    → HasShortName c
    → All HasShortName cs
    → All HasShortName (update c cs)
update-All c [] h all = tt
update-All c (d ∷ cs) h (here, all) = elim (Bool-cases (d.node == c.node)) [
  | inl same ↦ rw same (h, all)
  | inr other ↦ rw other (here, update-All c cs h all)
]

-- A list without one of its clients.
record Removed (node : ℕ) (cs : List Client) : Type 0 where
  left : List Client
  after : List Client
  result : remove_client node cs ≡ some (left, after)
  shorter : length cs ≡ suc (length left)
  unique : Unique left
  all_left : All HasShortName cs → All HasShortName left
  fewer : (n : ℕ) → has_node n cs ≡ false → has_node n left ≡ false

remove_client-Removed :
    (node : ℕ) (cs : List Client) → has_node node cs ≡ true → Unique cs → Removed node cs
unfolding remove_client
remove_client-Removed node [] here h = cc
remove_client-Removed node (c ∷ cs) here (fresh, h) = elim (Bool-cases (c.node == node)) [
  | inl same ↦ record {
    left = cs;
    after = cs;
    result = rw same refl;
    shorter = refl;
    unique = h;
    all_left = λ all. all.1;
    fewer = λ n gone. ground arith;
  }
  | inr other ↦
      let r = remove_client-Removed node cs (rw other at here) h in
      record {
        left = c ∷ r.left;
        after = r.after;
        result = rw (other, r.result) refl;
        shorter = ap suc r.shorter;
        unique = (r.fewer c.node fresh, r.unique);
        all_left = λ all. (all.0, r.all_left all.1);
        fewer = λ n gone. ground (arith, r.fewer n);
      }
]

pub disconnect-IsServer :
    (c : Client) (s : Server)
    → IsServer s
    → has_node c.node s.clients ≡ true
    → (s' : Server) × (disconnect c s ≡ some s') × IsServer s'
unfolding disconnect
disconnect-IsServer c s h here =
    let r = remove_client-Removed c.node s.clients here h.unique in
    (
      record s { clients = r.left; client_connected = s.client_connected - 1 },
      rw (r.result, disconnect) refl,
      record {
        unique = r.unique;
        counted = omega (arith, h.counted, r.shorter);
        short_names = r.all_left h.short_names;
      },
    )
