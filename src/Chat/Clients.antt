-- ===== src/Chat/Clients.antt =====
-- `remove_client` and the addresses of the clients.
use c_based_linux_shell.Prelude.{
  ℕ, ◌≡◌, refl, true, false, some, List, [], ◌∷◌, ◌++◌, ◌==◌, arith, ==_iff,
}
use c_based_linux_shell.Chat.{Client, remove_client, has_node}

-- No two clients have the same address.
abbrev pub Unique : List Client → Type 0
Unique [] = Unit
Unique (c ∷ cs) = (has_node c.node cs ≡ false) × Unique cs

-- A client is unlinked, wherever it stands, and what follows it is returned; the others stay in their
-- order.
pub remove_client_lem :
    (node : ℕ) (xs : List Client) (c : Client) (ys : List Client)
    → has_node node xs ≡ false
    → c.node ≡ node
    → remove_client node (xs ++ c ∷ ys) ≡ some (xs ++ ys, ys)
unfolding remove_client
remove_client_lem node [] c ys fresh same = rw ((==_iff c.node node).1 same) refl
remove_client_lem node (x ∷ xs) c ys fresh same =
    let other : (x.node == node) ≡ false = ground arith in
    let later : has_node node xs ≡ false = ground arith in
    rw (other, remove_client_lem node xs c ys later same) refl

pub has_node-append-cons :
    (node : ℕ) (xs : List Client) (c : Client) (ys : List Client)
    → (c.node == node) ≡ false
    → has_node node (xs ++ c ∷ ys) ≡ has_node node (xs ++ ys)
has_node-append-cons node [] c ys other = rw other refl
has_node-append-cons node (x ∷ xs) c ys other =
    ground (arith, has_node-append-cons node xs c ys other)

pub has_node-append-head :
    (xs : List Client) (c : Client) (ys : List Client) → has_node c.node (xs ++ c ∷ ys) ≡ true
has_node-append-head [] c ys = ground arith
has_node-append-head (x ∷ xs) c ys = ground (arith, has_node-append-head xs c ys)

absent :
    (node : ℕ) (xs : List Client) (c : Client) (ys : List Client)
    → has_node node (xs ++ c ∷ ys) ≡ false
    → ((c.node == node) ≡ false) × (has_node node (xs ++ ys) ≡ false)
absent node [] c ys h = (ground arith, ground arith)
absent node (x ∷ xs) c ys h =
    let later : has_node node (xs ++ c ∷ ys) ≡ false = ground arith in
    let (other, rest) = absent node xs c ys later in (other, ground arith)

pub Unique-front :
    (xs : List Client) (c : Client) (ys : List Client)
    → Unique (xs ++ c ∷ ys)
    → has_node c.node xs ≡ false
Unique-front [] c ys h = refl
Unique-front (x ∷ xs) c ys (fresh, h) =
    let rest = Unique-front xs c ys h in
    let other = (absent x.node xs c ys fresh).0 in ground (arith, rest, other)

pub Unique-remove :
    (xs : List Client) (c : Client) (ys : List Client) → Unique (xs ++ c ∷ ys) → Unique (xs ++ ys)
Unique-remove [] c ys (fresh, h) = h
Unique-remove (x ∷ xs) c ys (fresh, h) = ((absent x.node xs c ys fresh).1, Unique-remove xs c ys h)
