-- ===== src/Hosting/Lifecycle.antt =====
-- Servers that are started and closed.
use c_based_linux_shell.Prelude.{
  ℕ, ◌<◌, ◌≡◌, refl, ap, sym, ◌∙◌, ◌⊎◌, inl, inr, Bool, true, false, none, some, List, [], ◌∷◌,
  ◌==◌, arith, ==_iff, Bool-cases, ltb, lt→ltb, if◌then◌else◌, success,
}
use mathlib.Core.Path.{subst}
use c_based_linux_shell.Prelude.Int.{ℤ, pos, negsuc, in_range}
use c_based_linux_shell.CString.{Str}
use c_based_linux_shell.CString.Number.{atoi}
use c_based_linux_shell.Display.{display_message}
use c_based_linux_shell.Hosting.{
  Host, no_server, start_server, started, start_at, bn_start_server, Command, start, close,
  run_command, run_commands, closed_text, without, kill_server, cleanup_pid, cleanup_server,
  bn_close_server, Command, start, close, run_command, run_commands,
}

-- A process is in a list.
abbrev pub runs : ℕ → List ℕ → Bool
runs pid [] = false
runs pid (p ∷ ps) = let rest = runs pid ps in if p == pid then true else rest

without-absent : (pid : ℕ) (ps : List ℕ) → runs pid ps ≡ false → without pid ps ≡ ps
without-absent pid [] gone = refl
without-absent pid (p ∷ ps) gone =
    let later : runs pid ps ≡ false = ground arith in ground (arith, without-absent pid ps later)

-- What a start with a port leaves.
abbrev pub host_of : ℕ → ℤ → List ℕ → Host
host_of pid port alive = record {
  server_pid = pos pid;
  server_port = port;
  server_num = 1;
  alive = pid ∷ alive;
}

pub start_lem :
    (pid : ℕ) (name port : Str) (ts : List Str) (h : Host)
    → in_range 1024 65535 (atoi port) ≡ true
    → bn_start_server (some pid) (name ∷ port ∷ ts) h
      ≡ some (started (host_of pid (atoi port) h.alive))
unfolding bn_start_server start_at start_server
start_lem pid name port ts h valid = rw valid refl

-- The server that the globals name is closed.
close-host_of :
    (pid : ℕ) (port : ℤ) (alive : List ℕ) (tokens : List Str)
    → 0 < pid
    → bn_close_server true tokens (host_of pid port alive) ≡ record {
      status = success;
      shown = display_message (closed_text port) ∷ [];
      host = no_server (without pid alive);
    }
unfolding bn_close_server cleanup_server cleanup_pid kill_server
close-host_of pid port alive tokens positive =
    rw (lt→ltb 0 pid positive, (==_iff pid pid).1 refl) refl

-- A server that was started with a valid port, as a process that ran not before, is closed by
-- `close-server` if it can be killed: just this process ends, its port is named, and the shell is
-- without a server again.
pub start_close :
    (pid : ℕ) (name port : Str) (ts tokens : List Str) (h : Host)
    → in_range 1024 65535 (atoi port) ≡ true
    → 0 < pid
    → runs pid h.alive ≡ false
    → (h' : Host) × (bn_start_server (some pid) (name ∷ port ∷ ts) h ≡ some (started h'))
      × (bn_close_server true tokens h' ≡ record {
        status = success;
        shown = display_message (closed_text (atoi port)) ∷ [];
        host = no_server h.alive;
      })
start_close pid name port ts tokens h valid positive fresh = (
  host_of pid (atoi port) h.alive,
  start_lem pid name port ts h valid,
  rw (without-absent pid h.alive fresh) at (close-host_of pid (atoi port) h.alive tokens positive),
)

-- A second start, with another process, loses the first server: `close-server` ends just the second,
-- the first one still runs, and every further `close-server` succeeds without ending anything.
pub start_twice_orphans :
    (pid pid' : ℕ) (name port port' : Str) (ts tokens : List Str) (kill_ok : Bool) (h : Host)
    → in_range 1024 65535 (atoi port) ≡ true
    → in_range 1024 65535 (atoi port') ≡ true
    → 0 < pid'
    → (pid == pid') ≡ false
    → runs pid' h.alive ≡ false
    → (h₁ h₂ h₃ : Host) × (bn_start_server (some pid) (name ∷ port ∷ ts) h ≡ some (started h₁))
      × (bn_start_server (some pid') (name ∷ port' ∷ ts) h₁ ≡ some (started h₂))
      × (h₂.alive ≡ pid' ∷ pid ∷ h.alive)
      × ((bn_close_server true tokens h₂).host ≡ h₃)
      × (h₃.alive ≡ pid ∷ h.alive)
      × (bn_close_server kill_ok tokens h₃ ≡ record { status = success; shown = []; host = h₃ })
unfolding bn_close_server cleanup_server
start_twice_orphans pid pid' name port port' ts tokens kill_ok h valid valid' positive other fresh =
    let first = host_of pid (atoi port) h.alive in
    (
      first,
      host_of pid' (atoi port') first.alive,
      no_server (without pid' first.alive),
      start_lem pid name port ts h valid,
      start_lem pid' name port' ts first valid',
      refl,
      ap (λ c. c.host) (close-host_of pid' (atoi port') first.alive tokens positive),
      rw (other, without-absent pid' h.alive fresh) refl,
      refl,
    )

-- What the globals promise: where they name a server, its process runs, and its port is valid.
abbrev pub IsHost : Host → Type 0
IsHost h =
    ltb 0 h.server_num ≡ true
    → (pid : ℕ) → h.server_pid ≡ pos pid
    → (runs pid h.alive ≡ true) × (in_range 1024 65535 h.server_port ≡ true)

cleanup_pid-cases :
    (kill_ok : Bool) (z : ℤ) (h : Host)
    → ((cleanup_pid kill_ok z h).host ≡ h) ⊎ ((cleanup_pid kill_ok z h).host.server_num ≡ 0)
unfolding cleanup_pid kill_server
cleanup_pid-cases kill_ok (negsuc n) h = inl refl
cleanup_pid-cases false (pos pid) h = elim (Bool-cases (ltb 0 pid)) [
  | inl positive ↦ inl (rw positive refl)
  | inr zero_pid ↦ inl (rw zero_pid refl)
]
cleanup_pid-cases true (pos pid) h = elim (Bool-cases (ltb 0 pid)) [
  | inl positive ↦ inr (rw positive refl)
  | inr zero_pid ↦ inl (rw zero_pid refl)
]

pub cleanup_server-cases :
    (kill_ok : Bool) (h : Host)
    → ((cleanup_server kill_ok h).host ≡ h) ⊎ ((cleanup_server kill_ok h).host.server_num ≡ 0)
unfolding cleanup_server
cleanup_server-cases kill_ok h = elim (Bool-cases (ltb 0 h.server_num)) [
  | inr zero_servers ↦ inl (rw zero_servers refl)
  | inl some_server ↦ rw some_server (cleanup_pid-cases kill_ok h.server_pid h)
]

pub run_command-IsHost : (c : Command) (h : Host) → IsHost h → IsHost (run_command c h)
unfolding run_command bn_start_server start_at start_server bn_close_server cleanup_server
run_command-IsHost (start fork []) h good = good
run_command-IsHost (start fork (name ∷ [])) h good = good
run_command-IsHost (start none (name ∷ port ∷ ts)) h good =
    elim (Bool-cases (in_range 1024 65535 (atoi port))) [
      | inl valid ↦ rw valid (λ some_server pid e. cc)
      | inr invalid ↦ rw invalid good
    ]
run_command-IsHost (start (some new) (name ∷ port ∷ ts)) h good =
    elim (Bool-cases (in_range 1024 65535 (atoi port))) [
      | inl valid ↦ rw valid (λ some_server pid e.
          let same : new ≡ pid = cc in (ground (arith, (==_iff new pid).1 same), valid))
      | inr invalid ↦ rw invalid good
    ]
run_command-IsHost (close kill_ok tokens) h good = elim (cleanup_server-cases kill_ok h) [
  | inl same ↦ subst IsHost (sym same) good
  | inr none_left ↦ λ some_server.
      let absurd_count : false ≡ true = sym (ap (ltb 0) none_left) ∙ some_server in absurd cc
]

run_from-IsHost : (cs : List Command) (h : Host) → IsHost h → IsHost (run_commands cs h)
run_from-IsHost [] h good = good
run_from-IsHost (c ∷ cs) h good = run_from-IsHost cs (run_command c h) (run_command-IsHost c h good)

-- Whatever servers are started and closed in a session, and however `fork` and `kill` answer: where
-- `server_num` and `server_pid` name a server, its process runs and its port is from 1024 to 65535.
pub run_commands-IsHost : (cs : List Command) → IsHost (run_commands cs (no_server []))
run_commands-IsHost cs = run_from-IsHost cs (no_server []) (λ some_server. cc)
