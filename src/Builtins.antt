-- ===== src/Builtins.antt =====
-- `bn_echo` and `bn_send` of src/builtins.c, with their buffers. `none` is a write outside a buffer.
pub mod Echo
pub mod Send
mod Tests
use c_based_linux_shell.Prelude.{
  ℕ, ◌+◌, ◌-◌, ◌≡◌, min, Bool, true, false, not, ◌&&◌, Option, none, some, List, [], ◌∷◌, ◌++◌,
  ◌==◌, leb, ltb, if◌then◌else◌, length, take, ◌>>=◌,
}
use c_based_linux_shell.Prelude.Int.{ℤ, in_range}
use c_based_linux_shell.CString.{
  Str, codes, max_str_len, strcmp_eq, contains, strncat, size_sub, strtok_all, is_space,
}
use c_based_linux_shell.CString.Number.{atoi, decimal}
use c_based_linux_shell.Variables.{Vars}
use c_based_linux_shell.Expand.{expand_variables}
use c_based_linux_shell.Socket.{max_user_msg, cr, lf}

-- The local variables of `bn_echo`.
pub record EchoState : Type 0 where
  pub result : Str
  pub remaining : ℕ

-- `strncat(result, text, remaining); remaining -= strlen(text);`
unfoldable pub echo_append : Str → EchoState → Option EchoState
echo_append text e = do
  result ← strncat (max_str_len + 1) e.result text e.remaining
  some (record { result = result; remaining = size_sub e.remaining (length text) })

-- The space, where a token follows.
unfoldable pub echo_space : List Str → EchoState → Option EchoState
echo_space [] e = some e
echo_space (t ∷ ts) e = echo_append (b' ' ∷ []) e

unfoldable pub echo_loop : Vars → EchoState → List Str → Option Str
echo_loop vars e [] = some e.result
echo_loop vars e (t ∷ ts) = if ltb e.remaining 1 then some e.result else do
  value ← expand_variables true vars (some t)
  e₁ ← echo_append value e
  e₂ ← echo_space ts e₁
  echo_loop vars e₂ ts

-- What is printed, or `failed` for -1.
pub data EchoResult : Type 0 where
  failed : EchoResult
  printed : Str → EchoResult

unfoldable pub bn_echo : Vars → List Str → Option EchoResult
bn_echo vars [] = some failed
bn_echo vars (name ∷ ts) = do
  result ← echo_loop vars (record { result = []; remaining = max_str_len }) ts
  some (printed (result ++ b'\n' ∷ []))

-- The message of `bn_send` and the room that is left.
pub record Draft : Type 0 where
  pub message : Str
  pub left : ℕ

abbrev pub draft_size : ℕ
draft_size = max_user_msg + 2

-- The space in front of every token but the first.
unfoldable pub draft_space : Bool → Draft → Option Draft
draft_space is_first d =
    if not is_first && ltb 0 d.left
    then (do
      message ← strncat draft_size d.message (b' ' ∷ []) d.left
      some (record { message = message; left = d.left - 1 }))
    else some d

unfoldable pub draft_token : Str → Draft → Option Draft
draft_token t d =
    let append_len = min (length t) d.left in
    if ltb 0 d.left
    then (do
      message ← strncat draft_size d.message t append_len
      some (record { message = message; left = d.left - append_len }))
    else some d

unfoldable pub draft_loop : Bool → Draft → List Str → Option Draft
draft_loop is_first d [] = some d
draft_loop is_first d (t ∷ ts) = do
  d₁ ← draft_space is_first d
  d₂ ← draft_token t d₁
  draft_loop false d₂ ts

-- `message[len] = '\r'; message[len + 1] = '\n';`
unfoldable pub close_draft : Draft → Option Str
close_draft d =
    if leb (length d.message + 2) draft_size then some (d.message ++ cr ∷ lf ∷ []) else none

pub data SendError : Type 0 where
  no_port no_hostname no_message invalid_port not_connected not_written : SendError

pub data SendResult : Type 0 where
  refused : SendError → SendResult
  sent : ℤ → Str → Str → SendResult

-- The end of `send` behind `write`, which answers -1 (`none`) or how many of the bytes it has taken.
-- That these are all is not tested.
abbrev pub behind_write : ℤ → Str → Str → Option ℕ → SendResult
behind_write port host bytes none = refused not_written
behind_write port host bytes (some n) = sent port host (take n bytes)

-- `connect` and `write` are the answers of `connect_to_server` and of `write`.
unfoldable pub send_to :
    (ℤ → Str → Bool) → (Str → Option ℕ) → ℤ → Str → List Str → Option SendResult
send_to connect write port host tokens =
    if not (in_range 1024 65535 port)
    then some (refused invalid_port)
    else if not (connect port host)
    then some (refused not_connected)
    else do
      d ← draft_loop true (record { message = []; left = max_user_msg }) tokens
      bytes ← close_draft d
      some (behind_write port host bytes (write bytes))

unfoldable pub bn_send : (ℤ → Str → Bool) → (Str → Option ℕ) → List Str → Option SendResult
bn_send connect write [] = none
bn_send connect write (name ∷ []) = some (refused no_port)
bn_send connect write (name ∷ port ∷ []) = some (refused no_hostname)
bn_send connect write (name ∷ port ∷ host ∷ []) = some (refused no_message)
bn_send connect write (name ∷ port ∷ host ∷ t ∷ ts) =
    send_to connect write (atoi port) host (t ∷ ts)

-- The values of tokens, by one call of `expand_variables` each.
pub data Expands (vars : Vars) : List Str → List Str → Type 0 where
  nil : Expands vars [] []
  cons :
      {t v : Str} {ts vs : List Str}
      → expand_variables true vars (some t) ≡ some v
      → Expands vars ts vs
      → Expands vars (t ∷ ts) (v ∷ vs)
