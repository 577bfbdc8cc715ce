-- ===== src/Socket/Setup.antt =====
-- `setup_server_socket` and `connect_to_server` of src/socket.c: what they take from the system and give
-- back, by what each call answers.
use c_based_linux_shell.Prelude.{
  ℕ, ◌≡◌, refl, ap, sym, Bool, true, false, Option, none, some, List, [], ◌∷◌, ◌==◌, if◌then◌else◌,
  ==_iff,
}
use mathlib.Core.Path.{subst}

pub data Resource : Type 0 where
  address : Resource
  addrinfo : Resource
  socket : ℕ → Resource

pub data Effect : Type 0 where
  acquires releases : Resource → Effect

-- What is held behind a row of effects.
abbrev pub same_resource : Resource → Resource → Bool
same_resource address address = true
same_resource address addrinfo = false
same_resource address (socket fd) = false
same_resource addrinfo address = false
same_resource addrinfo addrinfo = true
same_resource addrinfo (socket fd) = false
same_resource (socket fd) address = false
same_resource (socket fd) addrinfo = false
same_resource (socket fd) (socket fd') = fd == fd'

abbrev pub give_back : Resource → List Resource → List Resource
give_back r [] = []
give_back r (s ∷ held) = let rest = give_back r held in if same_resource s r then held else s ∷ rest

abbrev pub holding : List Resource → List Effect → List Resource
holding held [] = held
holding held (acquires r ∷ effects) = holding (r ∷ held) effects
holding held (releases r ∷ effects) = holding (give_back r held) effects

-- The answers in `setup_server_socket`.
pub record SetupAnswers : Type 0 where
  pub malloc_ok : Bool
  pub socket_fd : Option ℕ
  pub setsockopt_ok : Bool
  pub bind_ok : Bool
  pub listen_ok : Bool

-- 0 with the descriptor, -1, or the end of the process.
pub data SetupEnd : Type 0 where
  listening : ℕ → SetupEnd
  setup_failed exited : SetupEnd

-- The steps behind `socket`.
unfoldable pub set_up : SetupAnswers → ℕ → SetupEnd × List Effect
set_up a fd =
    if a.setsockopt_ok
    then if a.bind_ok
      then if a.listen_ok
        then (listening fd, [])
        else (setup_failed, releases address ∷ releases (socket fd) ∷ [])
      else (setup_failed, releases address ∷ releases (socket fd) ∷ [])
    else (setup_failed, [])

unfoldable pub setup_server_socket : SetupAnswers → SetupEnd × List Effect
setup_server_socket a =
    if a.malloc_ok
    then elim a.socket_fd [
      | none ↦ (exited, acquires address ∷ [])
      | some fd ↦ ((set_up a fd).0, acquires address ∷ acquires (socket fd) ∷ (set_up a fd).1)
    ]
    else (setup_failed, [])

-- The answers in `connect_to_server`.
pub record ConnectAnswers : Type 0 where
  pub socket_fd : Option ℕ
  pub getaddrinfo_ok : Bool
  pub connect_ok : Bool

-- The steps behind `socket`; `none` is -1.
unfoldable pub connect_with : ConnectAnswers → ℕ → Option ℕ × List Effect
connect_with a fd =
    if a.getaddrinfo_ok
    then if a.connect_ok
      then (some fd, acquires addrinfo ∷ releases addrinfo ∷ [])
      else (none, acquires addrinfo ∷ releases addrinfo ∷ releases (socket fd) ∷ [])
    else (none, releases (socket fd) ∷ [])

unfoldable pub connect_to_server : ConnectAnswers → Option ℕ × List Effect
connect_to_server a = elim a.socket_fd [
  | none ↦ (none, [])
  | some fd ↦ ((connect_with a fd).0, acquires (socket fd) ∷ (connect_with a fd).1)
]

-- What each end may hold.
abbrev pub socket_of : Option ℕ → List Resource
socket_of none = []
socket_of (some fd) = socket fd ∷ []

abbrev pub HoldsJust : SetupEnd → List Resource → Type 0
HoldsJust (listening fd) held = held ≡ socket fd ∷ address ∷ []
HoldsJust setup_failed held = held ≡ []
HoldsJust exited held = Unit

same-fd : (fd : ℕ) → (fd == fd) ≡ true
same-fd fd = (==_iff fd fd).1 refl

connect_fields-holding :
    (o : Option ℕ) (info connected : Bool)
    → let a : ConnectAnswers = record {
      socket_fd = o;
      getaddrinfo_ok = info;
      connect_ok = connected;
    } in
      holding [] (connect_to_server a).1 ≡ socket_of (connect_to_server a).0
unfolding connect_to_server connect_with
connect_fields-holding none info connected = refl
connect_fields-holding (some fd) false connected = rw (same-fd fd) refl
connect_fields-holding (some fd) true false = rw (same-fd fd) refl
connect_fields-holding (some fd) true true = refl

-- However the system answers: `connect_to_server` holds at its end just the socket that it returns, and
-- nothing if it fails.
pub connect_to_server-holding :
    (a : ConnectAnswers) → holding [] (connect_to_server a).1 ≡ socket_of (connect_to_server a).0
connect_to_server-holding a = connect_fields-holding a.socket_fd a.getaddrinfo_ok a.connect_ok

setup_fields-HoldsJust :
    (allocated : Bool) (o : Option ℕ) (bound listens : Bool)
    → let a : SetupAnswers = record {
      malloc_ok = allocated;
      socket_fd = o;
      setsockopt_ok = true;
      bind_ok = bound;
      listen_ok = listens;
    } in
      HoldsJust (setup_server_socket a).0 (holding [] (setup_server_socket a).1)
unfolding setup_server_socket set_up
setup_fields-HoldsJust false o bound listens = refl
setup_fields-HoldsJust true none bound listens = tt
setup_fields-HoldsJust true (some fd) false listens = rw (same-fd fd) refl
setup_fields-HoldsJust true (some fd) true false = rw (same-fd fd) refl
setup_fields-HoldsJust true (some fd) true true = refl

-- If the option of the socket can be set, `setup_server_socket` holds at its end the address and the
-- socket that listens, and nothing if it returns -1.
pub setup_server_socket-HoldsJust :
    (a : SetupAnswers)
    → a.setsockopt_ok ≡ true
    → HoldsJust (setup_server_socket a).0 (holding [] (setup_server_socket a).1)
setup_server_socket-HoldsJust a option_set =
    let e : record a { setsockopt_ok = true } ≡ a =
      ap (λ b. record a { setsockopt_ok = b }) (sym option_set) in
    subst (λ x. HoldsJust (setup_server_socket x).0 (holding [] (setup_server_socket x).1)) e
      (setup_fields-HoldsJust a.malloc_ok a.socket_fd a.bind_ok a.listen_ok)

-- If `setsockopt` fails, -1 is returned, and the address and the socket stay taken.
pub setup_server_socket_leaks :
    (a : SetupAnswers) (fd : ℕ)
    → a.malloc_ok ≡ true
    → a.socket_fd ≡ some fd
    → a.setsockopt_ok ≡ false
    → ((setup_server_socket a).0 ≡ setup_failed)
      × (holding [] (setup_server_socket a).1 ≡ socket fd ∷ address ∷ [])
unfolding setup_server_socket set_up
setup_server_socket_leaks a fd allocated created not_set =
    rw (allocated, created, not_set) (refl, refl)
